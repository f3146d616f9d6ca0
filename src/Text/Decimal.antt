-- ===== src/Text/Decimal.antt =====
-- A number in decimal is read back.
use field_cage.Base.{
  ℕ, zero, suc, ◌+◌, ◌-◌, ◌*◌, ◌/◌, ◌%◌, ◌^◌, ◌<◌, ◌≤◌, Bool, true, false, [], ◌∷◌, some, ltb, all,
  length, ◌≡◌, refl, ap, sym, ◌∙◌, arith, Bool-cases, inl, inr,
}
use field_cage.Text.Bytes.{Bytes}
use field_cage.Text.Utf8.{within}
use field_cage.Text.Number.{digits_value, parse_uint, digits_onto, decimal}
use field_cage.Text.Ascii.{is_plain}

abbrev pub is_digit : ℕ → Bool
is_digit c = within b'0' b'9' c

pub digits_onto-digit :
    (fuel n : ℕ) (out : Bytes) → ltb n 10 ≡ true → digits_onto (suc fuel) n out ≡ (b'0' + n) ∷ out
unfolding digits_onto
digits_onto-digit fuel n out h = rw h refl

pub digits_onto-more :
    (fuel n : ℕ) (out : Bytes)
    → ltb n 10 ≡ false
    → digits_onto (suc fuel) n out ≡ digits_onto fuel (n / 10) ((b'0' + n % 10) ∷ out)
unfolding digits_onto
digits_onto-more fuel n out h = rw h refl

-- the digit that is read next
digits_value-step :
    (limit c : ℕ) (s : Bytes) (n : ℕ)
    → is_digit c ≡ true
    → n * 10 + (c - b'0') < limit
    → digits_value limit (c ∷ s) n ≡ digits_value limit s (n * 10 + (c - b'0'))
unfolding digits_value
digits_value-step limit c s n h k = ground arith

digits_value-digits :
    (limit fuel n : ℕ) (out : Bytes)
    → n < fuel
    → n < limit
    → digits_value limit (digits_onto fuel n out) 0 ≡ digits_value limit out n
digits_value-digits limit zero n out f h = absurd (omega (arith, f))
digits_value-digits limit (suc fuel) n out f h = elim (Bool-cases (ltb n 10)) [
  | inl e ↦ rw (digits_onto-digit fuel n out e) (
      digits_value-step limit (b'0' + n) out 0 (ground arith) (ground arith)
      ∙ ap (digits_value limit out) (omega arith))
  | inr e ↦
      let small : 10 ≤ n = ground arith in
      rw (digits_onto-more fuel n out e) (
        digits_value-digits limit fuel (n / 10) ((b'0' + n % 10) ∷ out) (omega (arith, small, f))
          (omega (arith, small, h))
        ∙ digits_value-step limit (b'0' + n % 10) out (n / 10) (ground arith) (omega (arith, h))
        ∙ ap (digits_value limit out) (omega arith))
]

all-digits_onto :
    (fuel n : ℕ) (out : Bytes)
    → all is_digit out ≡ true
    → all is_digit (digits_onto fuel n out) ≡ true
unfolding digits_onto
all-digits_onto zero n out h = h
all-digits_onto (suc fuel) n out h = elim (Bool-cases (ltb n 10)) [
  | inl e ↦ rw e (ground arith)
  | inr e ↦ rw e (all-digits_onto fuel (n / 10) ((b'0' + n % 10) ∷ out) (ground arith))
]

-- The decimal text of a number is made of digits.
pub decimal-digits : (n : ℕ) → all is_digit (decimal n) ≡ true
unfolding decimal
decimal-digits n = all-digits_onto (suc n) n [] refl

-- there is a first digit
digits_onto-filled :
    (fuel n c : ℕ) (out : Bytes) → (d : ℕ) × (r : Bytes) × (digits_onto fuel n (c ∷ out) ≡ d ∷ r)
unfolding digits_onto
digits_onto-filled zero n c out = (c, out, refl)
digits_onto-filled (suc fuel) n c out = elim (Bool-cases (ltb n 10)) [
  | inl e ↦ rw e (_, _, refl)
  | inr e ↦ rw e (digits_onto-filled fuel (n / 10) (b'0' + n % 10) (c ∷ out))
]

pub decimal-filled : (n : ℕ) → (d : ℕ) × (r : Bytes) × (decimal n ≡ d ∷ r)
unfolding decimal
decimal-filled n = elim (Bool-cases (ltb n 10)) [
  | inl e ↦ (b'0' + n, [], digits_onto-digit n n [] e)
  | inr e ↦
      let (d, r, p) = digits_onto-filled n (n / 10) (b'0' + n % 10) [] in
      (d, r, digits_onto-more n n [] e ∙ p)
]

parse_uint-filled :
    (bits c : ℕ) (s r : Bytes) → r ≡ c ∷ s → parse_uint bits r ≡ digits_value (2 ^ bits) r 0
unfolding parse_uint
parse_uint-filled bits c s r e = rw e refl

-- strconv.ParseUint reads the decimal text of a number that fits.
pub parse_uint-decimal : (bits n : ℕ) → n < 2 ^ bits → parse_uint bits (decimal n) ≡ some n
unfolding decimal digits_value
parse_uint-decimal bits n h =
    let (d, r, p) = decimal-filled n in
    parse_uint-filled bits d r (decimal n) p
    ∙ digits_value-digits (2 ^ bits) (suc n) n [] (omega arith) h

pub digits-plain : (s : Bytes) → all is_digit s ≡ true → all is_plain s ≡ true
digits-plain [] h = refl
digits-plain (c ∷ s) h = ground (arith, digits-plain s)

-- Numbers with one decimal text are equal.
pub decimal-inj : (n m : ℕ) → decimal n ≡ decimal m → n ≡ m
unfolding decimal digits_value
decimal-inj n m h =
    let limit = n + m + 1 in
    let first = digits_value-digits limit (suc n) n [] (omega arith) (omega arith) in
    let second = digits_value-digits limit (suc m) m [] (omega arith) (omega arith) in
    some_inj n m (sym first ∙ ap (λ s. digits_value limit s 0) h ∙ second)
  where
    some_inj : (n m : ℕ) → some n ≡ some m → n ≡ m
    some_inj n m e = ground arith

-- Numbers below the bound have at most `k` digits.
abbrev Bounded : ℕ → ℕ → Type 0
Bounded bound k =
    (fuel n : ℕ) (out : Bytes) → n < bound → length (digits_onto fuel n out) ≤ length out + k

Bounded-digit : Bounded 10 1
Bounded-digit zero n out h = unfold digits_onto in omega arith
Bounded-digit (suc fuel) n out h = rw (digits_onto-digit fuel n out (ground arith)) (omega arith)

Bounded-more : (bound k : ℕ) → Bounded bound k → Bounded (10 * bound) (suc k)
Bounded-more bound k small zero n out h = unfold digits_onto in omega arith
Bounded-more bound k small (suc fuel) n out h = elim (Bool-cases (ltb n 10)) [
  | inl e ↦ rw (digits_onto-digit fuel n out e) (omega arith)
  | inr e ↦
      rw (digits_onto-more fuel n out e)
        (omega (arith, small fuel (n / 10) ((b'0' + n % 10) ∷ out) (omega (arith, h))))
]

Bounded-three : Bounded 1000 3
Bounded-three = Bounded-more 100 2 (Bounded-more 10 1 Bounded-digit)

Bounded-six : Bounded 1000000 6
Bounded-six = Bounded-more 100000 5 (Bounded-more 10000 4 (Bounded-more 1000 3 Bounded-three))

Bounded-ten : Bounded 10000000000 10
Bounded-ten =
    Bounded-more 1000000000 9
      (Bounded-more 100000000 8 (Bounded-more 10000000 7 (Bounded-more 1000000 6 Bounded-six)))

-- A 32-bit number has at most ten digits.
pub length-decimal : (n : ℕ) → n < 2 ^ 32 → length (decimal n) ≤ 10
unfolding decimal
length-decimal n h = Bounded-ten (suc n) n [] (omega (arith, h))
