-- ===== src/Text/Equal.antt =====
-- Equality, prefixes and suffixes of byte strings, as equations.
use field_cage.Base.{true, [], ◌∷◌, ◌++◌, some, ◌≡◌, refl, ap, ◌↔◌, inl, inr, arith, Bool-cases}
use field_cage.Text.Bytes.{Bytes, equal, cut_prefix, has_suffix}

-- Two texts are equal by the test exactly when they are.
pub equal_iff : (s t : Bytes) → (equal s t ≡ true) ↔ (s ≡ t)
unfolding equal
equal_iff [] [] = ground arith
equal_iff [] (d ∷ t) = ground arith
equal_iff (c ∷ s) [] = ground arith
equal_iff (c ∷ s) (d ∷ t) = ground (arith, equal_iff s t)

pub equal_refl : (a : Bytes) → equal a a ≡ true
equal_refl a = (equal_iff a a).1 refl

pub equal_comm : (a b : Bytes) → equal a b ≡ equal b a
equal_comm a b = ground (arith, equal_iff a b, equal_iff b a)

-- What `strings.CutPrefix` returns is the rest behind the prefix.
pub cut_prefix_sound : (p s r : Bytes) → cut_prefix p s ≡ some r → s ≡ p ++ r
unfolding cut_prefix
cut_prefix_sound [] s r h = cc
cut_prefix_sound (c ∷ p) [] r h = cc
cut_prefix_sound (c ∷ p) (d ∷ s) r h = ground (arith, cut_prefix_sound p s r)

pub cut_prefix-append : (p r : Bytes) → cut_prefix p (p ++ r) ≡ some r
unfolding cut_prefix
cut_prefix-append [] r = refl
cut_prefix-append (c ∷ p) r = ground (arith, cut_prefix-append p r)

pub has_suffix-append : (q p : Bytes) → has_suffix (q ++ p) p ≡ true
unfolding has_suffix
has_suffix-append [] [] = refl
has_suffix-append [] (c ∷ p) = ground (arith, equal_refl (c ∷ p))
has_suffix-append (c ∷ q) p = ground (arith, has_suffix-append q p)

-- A suffix is what some text stands in front of.
pub has_suffix_sound : (s p : Bytes) → has_suffix s p ≡ true → (q : Bytes) × (s ≡ q ++ p)
unfolding has_suffix
has_suffix_sound [] p h = ([], (equal_iff [] p).0 h)
has_suffix_sound (c ∷ s) p h = elim (Bool-cases (equal (c ∷ s) p)) [
  | inl e ↦ ([], (equal_iff (c ∷ s) p).0 e)
  | inr e ↦ let (q, same) = has_suffix_sound s p (ground arith) in (c ∷ q, ap (◌∷◌ c) same)
]
