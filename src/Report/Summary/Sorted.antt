-- ===== src/Report/Summary/Sorted.antt =====
-- A sort puts elements in order and loses none; and the names that a summary suggests.
use field_cage.Base.{
  Bool, true, false, ◌||◌, ◌&&◌, not, List, [], ◌∷◌, if◌then◌else◌, length, keep, any, ◌≡◌, refl,
  ◌∙◌, arith, Bool-cases, inl, inr,
}
use field_cage.Text.Bytes.{Bytes, equal, less, is_empty}
use field_cage.Policy.Engine.{has_key, add_key}
use field_cage.Policy.Refine.{has_key-add_key}
use field_cage.Report.Verdict.{is_skip}
use field_cage.Report.Summary.{summary_of, suggest, key_name}
use field_cage.Report.Summary.Order.{insert, sort, sort_texts}
use field_cage.Report.Summary.Collect.{Collector, DestKey, DestAgg}

module _ {A : Type 0} (lt : A → A → Bool) where
  -- No element stands behind one that it should stand before.
  abbrev pub IsSorted : List A → Type 0
  IsSorted [] = Unit {0}
  IsSorted (a ∷ []) = Unit {0}
  IsSorted (a ∷ b ∷ bs) = (lt b a ≡ false) × IsSorted (b ∷ bs)

  -- the order never puts each of two elements before the other
  abbrev pub Asymmetric : Type 0
  Asymmetric = (a b : A) → lt a b ≡ true → lt b a ≡ false

  -- what an insertion stands behind
  cons-insert :
      Asymmetric
      → (a b : A) (bs : List A) → lt a b ≡ false
      → IsSorted (b ∷ bs)
      → IsSorted (insert lt a bs)
      → IsSorted (b ∷ insert lt a bs)
  unfolding insert
  cons-insert asym a b [] l h i = (l, tt)
  cons-insert asym a b (c ∷ cs) l h i = elim (Bool-cases (lt c a)) [
    | inl e ↦ rw (e, insert) (h.0, rw (e, insert) at i)
    | inr e ↦ rw (e, insert) (l, (e, h.1))
  ]

  tail-IsSorted : (b : A) (bs : List A) → IsSorted (b ∷ bs) → IsSorted bs
  tail-IsSorted b [] h = tt
  tail-IsSorted b (c ∷ cs) h = h.1

  insert-IsSorted : Asymmetric → (a : A) (bs : List A) → IsSorted bs → IsSorted (insert lt a bs)
  unfolding insert
  insert-IsSorted asym a [] h = tt
  insert-IsSorted asym a (b ∷ bs) h =
      let rest = insert-IsSorted asym a bs (tail-IsSorted b bs h) in
      elim (Bool-cases (lt b a)) [
        | inl e ↦ rw (e, insert) (cons-insert asym a b bs (asym b a e) h rest)
        | inr e ↦ rw (e, insert) (e, h)
      ]

  pub sort-IsSorted : Asymmetric → (xs : List A) → IsSorted (sort lt xs)
  unfolding sort
  sort-IsSorted asym [] = tt
  sort-IsSorted asym (x ∷ xs) = insert-IsSorted asym x (sort lt xs) (sort-IsSorted asym xs)

  keep-insert :
      (p : A → Bool) (a : A) (bs : List A)
      → length (keep p (insert lt a bs)) ≡ length (keep p (a ∷ bs))
  unfolding insert
  keep-insert p a [] = refl
  keep-insert p a (b ∷ bs) = ground (arith, keep-insert p a bs)

  pub keep-sort : (p : A → Bool) (xs : List A) → length (keep p (sort lt xs)) ≡ length (keep p xs)
  unfolding sort
  keep-sort p [] = refl
  keep-sort p (x ∷ xs) = ground (arith, keep-insert p x (sort lt xs), keep-sort p xs)

  any-insert : (p : A → Bool) (a : A) (bs : List A) → any p (insert lt a bs) ≡ p a || any p bs
  unfolding insert
  any-insert p a [] = refl
  any-insert p a (b ∷ bs) = ground (arith, any-insert p a bs)

  any-sort : (p : A → Bool) (xs : List A) → any p (sort lt xs) ≡ any p xs
  unfolding sort
  any-sort p [] = refl
  any-sort p (x ∷ xs) = ground (arith, any-insert p x (sort lt xs), any-sort p xs)

-- a destination that suggests a name
abbrev pub suggests : Bytes → DestKey × DestAgg → Bool
suggests name d =
    not (is_skip d.0.verdict) && (not (is_empty (key_name d.0)) && equal (key_name d.0) name)

has_key-suggest :
    (name : Bytes) (ds : List (DestKey × DestAgg)) (names : List Bytes)
    → has_key (suggest names ds) name ≡ has_key names name || any (suggests name) ds
unfolding suggest
has_key-suggest name [] names = ground arith
has_key-suggest name ((k, agg) ∷ ds) names =
    let next =
      if is_skip k.verdict || is_empty (key_name k) then names else add_key (key_name k) names in
    ground (arith, has_key-suggest name ds next, has_key-add_key (key_name k) name names)

-- A name is suggested for the allowlist exactly when it is the domain, or for want of one the
-- address, of a destination that was not skipped, in whatever order the destinations are met.
pub suggested_iff :
    (c : Collector) (ds : List (DestKey × DestAgg)) (name : Bytes)
    → has_key (summary_of c ds).suggested_allowlist name ≡ any (suggests name) ds
unfolding summary_of sort_texts has_key
suggested_iff c ds name =
    any-sort less (λ j. equal j name) (suggest [] ds) ∙ has_key-suggest name ds []
