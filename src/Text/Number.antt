-- ===== src/Text/Number.antt =====
-- strconv.ParseUint in base 10, and numbers in decimal.
use field_cage.Base.{
  ℕ, zero, suc, ◌+◌, ◌-◌, ◌*◌, ◌/◌, ◌%◌, ◌^◌, [], ◌∷◌, Option, none, some, ltb, if◌then◌else◌,
}
use field_cage.Text.Bytes.{Bytes}
use field_cage.Text.Utf8.{within}

-- The value of a text of digits behind `n`. It is compared with the limit at every digit, which
-- is where strconv.ParseUint gives up: the value never falls.
unfoldable pub digits_value : ℕ → Bytes → ℕ → Option ℕ
digits_value limit [] n = some n
digits_value limit (c ∷ s) n =
    let m = n * 10 + (c - b'0') in
    if within b'0' b'9' c then (if ltb m limit then digits_value limit s m else none) else none

-- strconv.ParseUint(s, 10, bits), for a number below `2 ^ bits`
unfoldable pub parse_uint : ℕ → Bytes → Option ℕ
unfolding digits_value
parse_uint bits [] = none
parse_uint bits (c ∷ s) = digits_value (2 ^ bits) (c ∷ s) 0

-- The digits of a number, the last one written first; the fuel is more than the number of digits.
unfoldable pub digits_onto : ℕ → ℕ → Bytes → Bytes
digits_onto zero n out = out
digits_onto (suc fuel) n out =
    let more = digits_onto fuel (n / 10) ((b'0' + n % 10) ∷ out) in
    if ltb n 10 then (b'0' + n) ∷ out else more

-- `%d` of an unsigned number, and strconv.FormatUint in base 10. A number has fewer digits than
-- its value plus one.
unfoldable pub decimal : ℕ → Bytes
unfolding digits_onto
decimal n = digits_onto (suc n) n []
