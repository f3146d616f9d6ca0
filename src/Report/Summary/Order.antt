-- ===== src/Report/Summary/Order.antt =====
-- The rows of a summary and their order.
use field_cage.Base.{ℕ, Bool, not, List, [], ◌∷◌, ◌==◌, ltb, if◌then◌else◌}
use field_cage.Text.Bytes.{Bytes, equal, is_empty, less}
use field_cage.Report.Verdict.{Verdict, is_deny, is_skip, is_allow}

-- `DestStat`
pub record DestStat : Type 0 where
  pub verdict : Verdict
  pub domain : Bytes
  pub ip : Bytes
  pub port : ℕ
  pub count : ℕ
  pub processes : List Bytes
  pub more_processes : ℕ

-- `DestStat.Destination`
unfoldable pub destination : DestStat → Bytes
destination d = if is_empty d.domain then d.ip else d.domain

unfoldable pub severity : Verdict → ℕ
severity v = if is_deny v then 0 else if is_allow v then 1 else if is_skip v then 2 else 3

-- the order in which the rows are sorted
unfoldable pub before : DestStat → DestStat → Bool
before a b =
    if not (severity a.verdict == severity b.verdict)
    then ltb (severity a.verdict) (severity b.verdict)
    else if not (a.count == b.count)
    then ltb b.count a.count
    else if not (equal (destination a) (destination b))
    then less (destination a) (destination b)
    else if not (a.port == b.port)
    then ltb a.port b.port
    else if not (equal a.verdict b.verdict)
    then less a.verdict b.verdict
    else less a.ip b.ip

module _ {A : Type 0} (lt : A → A → Bool) where
  unfoldable pub insert : A → List A → List A
  insert a [] = a ∷ []
  insert a (b ∷ bs) = let rest = insert a bs in if lt b a then b ∷ rest else a ∷ b ∷ bs

  -- sort.Slice and sort.Strings: a sorted arrangement of the same elements. Which one is left open
  -- by the package where the order does not decide; this is the stable one.
  unfoldable pub sort : List A → List A
  unfolding insert
  sort [] = []
  sort (a ∷ rest) = insert a (sort rest)

unfoldable pub sort_stats : List DestStat → List DestStat
unfolding sort
sort_stats ds = sort before ds

unfoldable pub sort_texts : List Bytes → List Bytes
unfolding sort
sort_texts ss = sort less ss
