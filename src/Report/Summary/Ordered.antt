-- ===== src/Report/Summary/Ordered.antt =====
-- The order of the rows of a summary (internal/report/summary.go).
use field_cage.Base.{
  Bool, true, false, ◌||◌, List, [], ◌∷◌, length, keep, ◌≡◌, ◌≤◌, map, sym, refl, arith, Bool-cases,
  inl, inr,
}
use field_cage.Text.Bytes.{Bytes, equal, less}
use field_cage.Text.Equal.{equal_iff}
use field_cage.Report.Verdict.{is_deny, is_allow, is_skip}
use field_cage.Report.Summary.{summary, summary_of, stat_of}
use field_cage.Report.Summary.Order.{DestStat, destination, severity, before, sort, sort_stats}
use field_cage.Report.Summary.Collect.{Collector}
use field_cage.Report.Summary.Sorted.{IsSorted, sort-IsSorted, keep-sort}

less_asym : (x y : Bytes) → less x y ≡ true → less y x ≡ false
unfolding less
less_asym x [] h = absurd (ground arith)
less_asym [] (d ∷ y) h = refl
less_asym (c ∷ x) (d ∷ y) h = ground (arith, less_asym x y)

less_irrefl : (x : Bytes) → less x x ≡ false
less_irrefl x = ground (arith, less_asym x x)

equal_sym : (x y : Bytes) → equal x y ≡ equal y x
equal_sym x y = ground (arith, equal_iff x y, equal_iff y x)

before_asym : (a b : DestStat) → before a b ≡ true → before b a ≡ false
unfolding before
before_asym a b h = ground (
  arith,
  equal_sym (destination a) (destination b),
  equal_sym a.verdict b.verdict,
  less_asym (destination a) (destination b),
  less_asym a.verdict b.verdict,
  less_asym a.ip b.ip,
)

-- rows of one group of verdicts
abbrev IsAlike : DestStat → DestStat → Type 0
IsAlike a b =
    (is_deny a.verdict ≡ is_deny b.verdict)
    × (is_allow a.verdict ≡ is_allow b.verdict)
    × (is_skip a.verdict ≡ is_skip b.verdict)

-- What it means for a row to stand in front of another: denials come first, then what is allowed,
-- then what is skipped; in each group the counts fall, and rows of one count stand by the bytes of
-- their names, then by port, then by verdict, then by address.
pub record StandsBefore (a b : DestStat) : Type 0 where
  pub denied_first : is_deny b.verdict ≡ true → is_deny a.verdict ≡ true
  pub allowed_next : is_allow b.verdict ≡ true → (is_deny a.verdict || is_allow a.verdict) ≡ true
  pub skipped_next :
      is_skip b.verdict ≡ true
      → (is_deny a.verdict || is_allow a.verdict || is_skip a.verdict) ≡ true
  pub counts_fall : IsAlike a b → b.count ≤ a.count
  pub names_rise : IsAlike a b → a.count ≡ b.count → less (destination b) (destination a) ≡ false
  pub ports_rise : IsAlike a b → a.count ≡ b.count → destination a ≡ destination b → a.port ≤ b.port
  pub verdicts_rise :
      IsAlike a b
      → a.count ≡ b.count
      → destination a ≡ destination b
      → a.port ≡ b.port
      → less b.verdict a.verdict ≡ false
  pub addresses_rise :
      IsAlike a b
      → a.count ≡ b.count
      → destination a ≡ destination b
      → a.port ≡ b.port
      → a.verdict ≡ b.verdict
      → less b.ip a.ip ≡ false

severity-IsAlike : (a b : DestStat) → IsAlike a b → severity a.verdict ≡ severity b.verdict
unfolding severity
severity-IsAlike a b (d, l, s) = rw (d, l, s) refl

-- the tests of `before`, one after the other
module _ (a b : DestStat) (h : before b a ≡ false) where
  not_before-severity : severity a.verdict ≤ severity b.verdict
  unfolding before
  not_before-severity = ground arith

  not_before-count : severity a.verdict ≡ severity b.verdict → b.count ≤ a.count
  unfolding before
  not_before-count s = ground arith

  not_before-name :
      severity a.verdict ≡ severity b.verdict
      → a.count ≡ b.count
      → less (destination b) (destination a) ≡ false
  unfolding before
  not_before-name s c = elim (Bool-cases (equal (destination b) (destination a))) [
    | inl e ↦ ground (arith, equal_iff (destination b) (destination a), less_irrefl (destination a))
    | inr e ↦ ground arith
  ]

  not_before-port :
      severity a.verdict ≡ severity b.verdict
      → a.count ≡ b.count
      → destination a ≡ destination b
      → a.port ≤ b.port
  unfolding before
  not_before-port s c n =
      let same : equal (destination b) (destination a) ≡ true = (equal_iff _ _).1 (sym n) in
      ground arith

  not_before-verdict :
      severity a.verdict ≡ severity b.verdict
      → a.count ≡ b.count
      → destination a ≡ destination b
      → a.port ≡ b.port
      → less b.verdict a.verdict ≡ false
  unfolding before
  not_before-verdict s c n p =
      let same : equal (destination b) (destination a) ≡ true = (equal_iff _ _).1 (sym n) in
      elim (Bool-cases (equal b.verdict a.verdict)) [
        | inl e ↦ ground (arith, equal_iff b.verdict a.verdict, less_irrefl a.verdict)
        | inr e ↦ ground arith
      ]

  not_before-address :
      severity a.verdict ≡ severity b.verdict
      → a.count ≡ b.count
      → destination a ≡ destination b
      → a.port ≡ b.port
      → a.verdict ≡ b.verdict
      → less b.ip a.ip ≡ false
  unfolding before
  not_before-address s c n p v =
      let same : equal (destination b) (destination a) ≡ true = (equal_iff _ _).1 (sym n) in
      let word : equal b.verdict a.verdict ≡ true = (equal_iff _ _).1 (sym v) in ground arith

  not_before-StandsBefore : StandsBefore a b
  unfolding severity
  not_before-StandsBefore =
      let sev = not_before-severity in
      record {
        denied_first = λ d. ground (arith, sev);
        allowed_next = λ d. ground (arith, sev);
        skipped_next = λ d. ground (arith, sev);
        counts_fall = λ g. not_before-count (severity-IsAlike a b g);
        names_rise = λ g. not_before-name (severity-IsAlike a b g);
        ports_rise = λ g. not_before-port (severity-IsAlike a b g);
        verdicts_rise = λ g. not_before-verdict (severity-IsAlike a b g);
        addresses_rise = λ g. not_before-address (severity-IsAlike a b g);
      }

-- each row stands before the next one
abbrev pub IsOrdered : List DestStat → Type 0
IsOrdered [] = Unit {0}
IsOrdered (a ∷ []) = Unit {0}
IsOrdered (a ∷ b ∷ bs) = StandsBefore a b × IsOrdered (b ∷ bs)

IsSorted-IsOrdered : (ds : List DestStat) → IsSorted before ds → IsOrdered ds
IsSorted-IsOrdered [] h = tt
IsSorted-IsOrdered (a ∷ []) h = tt
IsSorted-IsOrdered (a ∷ b ∷ bs) h =
    (not_before-StandsBefore a b h.0, IsSorted-IsOrdered (b ∷ bs) h.1)

-- The rows of a summary are the destinations of its collector, each once (whatever is asked of a row,
-- as many rows have it), and each row stands before the next one: denials before what is allowed,
-- that before what is skipped, and in a group by falling count, then by name, port, verdict and
-- address.
pub summary-IsOrdered :
    (c : Collector) (p : DestStat → Bool)
    → IsOrdered (summary c).destinations
      × (length (keep p (summary c).destinations) ≡ length (keep p (map stat_of c.dests)))
unfolding summary summary_of sort_stats
summary-IsOrdered c p =
    let ds = map stat_of c.dests in
    (
      IsSorted-IsOrdered (sort before ds) (sort-IsSorted before before_asym ds),
      keep-sort before p ds,
    )
