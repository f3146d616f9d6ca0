-- ===== src/Net/Dotted.antt =====
-- The dotted text of an IPv4 address is read back.
use field_cage.Base.{
  ℕ, zero, suc, ◌+◌, ◌-◌, ◌*◌, ◌/◌, ◌%◌, ◌<◌, ◌≤◌, Bool, true, false, ◌||◌, ◌&&◌, [], ◌∷◌, ◌++◌,
  some, ltb, all, map, length, ◌==◌, ◌≡◌, refl, ap, sym, ◌∙◌, arith, Bool-cases, inl, inr,
  append-nil,
}
use field_cage.Text.Bytes.{Bytes, codes, join}
use field_cage.Text.Number.{decimal, digits_onto}
use field_cage.Text.Ascii.{all-append, all-has_byte}
use field_cage.Text.Decimal.{is_digit, decimal-digits, digits_onto-digit, digits_onto-more}
use field_cage.Net.Ip.{Ip, mapped_prefix, string4}
use field_cage.Net.Parse.{fields4, parse4, form, parse_addr, parse_ip}

fields4-digit :
    (c : ℕ) (s : Bytes) (val len : ℕ) (done : Ip)
    → is_digit c ≡ true
    → (len == 1 && val == 0) ≡ false
    → val * 10 + (c - b'0') < 256
    → fields4 (c ∷ s) val len done ≡ fields4 s (val * 10 + (c - b'0')) (len + 1) done
unfolding fields4
fields4-digit c s val len done h k b = ground arith

onto-two :
    (fuel n : ℕ) (out : Bytes)
    → 10 ≤ n
    → n < 100
    → digits_onto (suc (suc fuel)) n out ≡ (b'0' + n / 10) ∷ (b'0' + n % 10) ∷ out
onto-two fuel n out h k =
    digits_onto-more (suc fuel) n out (ground arith)
    ∙ digits_onto-digit fuel (n / 10) ((b'0' + n % 10) ∷ out) (ground arith)

onto-three :
    (fuel n : ℕ)
    → 100 ≤ n
    → n < 1000
    → digits_onto (suc (suc (suc fuel))) n []
      ≡ (b'0' + n / 10 / 10) ∷ (b'0' + n / 10 % 10) ∷ (b'0' + n % 10) ∷ []
onto-three fuel n h k =
    digits_onto-more (suc (suc fuel)) n [] (ground arith)
    ∙ onto-two fuel (n / 10) ((b'0' + n % 10) ∷ []) (omega (arith, h)) (omega (arith, k))

decimal-one : (n : ℕ) → n < 10 → decimal n ≡ (b'0' + n) ∷ []
unfolding decimal
decimal-one n h = digits_onto-digit n n [] (ground arith)

decimal-two : (n : ℕ) → 10 ≤ n → n < 100 → decimal n ≡ (b'0' + n / 10) ∷ (b'0' + n % 10) ∷ []
unfolding decimal
decimal-two zero h k = absurd (omega (arith, h))
decimal-two (suc m) h k = onto-two m (suc m) [] h k

decimal-three :
    (n : ℕ)
    → 100 ≤ n
    → n < 1000
    → decimal n ≡ (b'0' + n / 10 / 10) ∷ (b'0' + n / 10 % 10) ∷ (b'0' + n % 10) ∷ []
unfolding decimal
decimal-three zero h k = absurd (omega (arith, h))
decimal-three (suc zero) h k = absurd (omega (arith, h))
decimal-three (suc (suc m)) h k = onto-three m (suc (suc m)) h k

-- The scan of an octet leaves its value, and how many digits it had.
abbrev Scans : ℕ → Type 0
Scans n =
    (s : Bytes) (done : Ip)
    → (k : ℕ) × (fields4 (decimal n ++ s) 0 0 done ≡ fields4 s n (suc k) done)

scan-one : (n : ℕ) → n < 10 → Scans n
scan-one n h s done = (
  0,
  rw (decimal-one n h) (
      fields4-digit (b'0' + n) s 0 0 done (ground arith) refl (omega (arith, h))
      ∙ ap (λ v. fields4 s v 1 done) (omega arith)),
)

scan-two : (n : ℕ) → 10 ≤ n → n < 100 → Scans n
scan-two n h k s done =
    let c = b'0' + n / 10 in
    let d = b'0' + n % 10 in
    let v = 0 * 10 + (c - b'0') in
    (
      1,
      rw (decimal-two n h k) (
          fields4-digit c (d ∷ s) 0 0 done (ground arith) refl (omega (arith, k))
          ∙ fields4-digit d s v 1 done (ground arith) (ground arith) (omega (arith, k))
          ∙ ap (λ v. fields4 s v 2 done) (omega arith)),
    )

scan-three : (n : ℕ) → 100 ≤ n → n < 256 → Scans n
scan-three n h k s done =
    let b = b'0' + n / 10 / 10 in
    let c = b'0' + n / 10 % 10 in
    let d = b'0' + n % 10 in
    let v = 0 * 10 + (b - b'0') in
    let u = v * 10 + (c - b'0') in
    (
      2,
      rw (decimal-three n h (omega (arith, k))) (
          fields4-digit b (c ∷ d ∷ s) 0 0 done (ground arith) refl (omega (arith, k))
          ∙ fields4-digit c (d ∷ s) v 1 done (ground arith) (ground arith) (omega (arith, k))
          ∙ fields4-digit d s u 2 done (ground arith) refl (omega (arith, k))
          ∙ ap (λ v. fields4 s v 3 done) (omega arith)),
    )

scan-octet : (n : ℕ) → n < 256 → Scans n
scan-octet n h = elim (Bool-cases (ltb n 10)) [
  | inl a ↦ scan-one n (ground arith)
  | inr a ↦ elim (Bool-cases (ltb n 100)) [
    | inl b ↦ scan-two n (ground arith) (ground arith)
    | inr b ↦ scan-three n (ground arith) h
  ]
]

-- an octet in front of a dot
scan-dot :
    (n : ℕ) (s : Bytes) (done : Ip)
    → n < 256
    → length done < 3
    → fields4 (decimal n ++ b'.' ∷ s) 0 0 done ≡ fields4 s 0 0 (done ++ n ∷ [])
unfolding fields4
scan-dot n s done h l = let (k, p) = scan-octet n h (b'.' ∷ s) done in p ∙ ground arith

-- the last octet
scan-end :
    (n : ℕ) (done : Ip)
    → n < 256
    → length done ≡ 3
    → fields4 (decimal n ++ []) 0 0 done ≡ some (done ++ n ∷ [])
unfolding fields4
scan-end n done h l = let (k, p) = scan-octet n h [] done in p ∙ ground arith

abbrev pub quad : ℕ → ℕ → ℕ → ℕ → Ip
quad a b c d = a ∷ b ∷ c ∷ d ∷ []

-- four octets
abbrev pub IsQuad : ℕ → ℕ → ℕ → ℕ → Type 0
IsQuad a b c d = (a < 256) × (b < 256) × (c < 256) × (d < 256)

parse4-string4 :
    (a b c d : ℕ) → IsQuad a b c d → parse4 (string4 (quad a b c d)) ≡ some (quad a b c d)
unfolding parse4 string4 join
parse4-string4 a b c d (ha, hb, hc, hd) =
    scan-dot a _ [] ha (omega arith)
    ∙ scan-dot b _ (a ∷ []) hb (omega arith)
    ∙ scan-dot c _ (a ∷ b ∷ []) hc (omega arith)
    ∙ ap (λ s. fields4 s 0 0 (a ∷ b ∷ c ∷ [])) (sym (append-nil (decimal d)))
    ∙ scan-end d (a ∷ b ∷ c ∷ []) hd refl

-- a digit or a dot
abbrev pub is_dotted : ℕ → Bool
is_dotted c = is_digit c || c == b'.'

digits-dotted : (s : Bytes) → all is_digit s ≡ true → all is_dotted s ≡ true
digits-dotted [] h = refl
digits-dotted (c ∷ s) h = ground (arith, digits-dotted s)

decimal-dotted : (n : ℕ) → all is_dotted (decimal n) ≡ true
decimal-dotted n = digits-dotted (decimal n) (decimal-digits n)

pub string4-dotted : (a b c d : ℕ) → all is_dotted (string4 (quad a b c d)) ≡ true
unfolding string4 join
string4-dotted a b c d = all-append is_dotted (decimal a) _ (decimal-dotted a) (
    all-append is_dotted (decimal b) _ (decimal-dotted b)
      (all-append is_dotted (decimal c) _ (decimal-dotted c) (decimal-dotted d)))

-- The form of an address is decided behind its first digits.
form-digits : (whole w s : Bytes) → all is_digit w ≡ true → form whole (w ++ s) ≡ form whole s
unfolding form
form-digits whole [] s h = refl
form-digits whole (c ∷ w) s h = ground (arith, form-digits whole w s)

form-dot :
    (whole s : Bytes) (ip : Ip)
    → parse4 whole ≡ some ip
    → form whole (b'.' ∷ s) ≡ some (record { as16 = mapped_prefix ++ ip; bits = 32 })
unfolding form
form-dot whole s ip h = rw h refl

form-string4 :
    (whole : Bytes) (a b c d : ℕ)
    → form whole (string4 (quad a b c d))
      ≡ form whole (b'.' ∷ join (map decimal (b ∷ c ∷ d ∷ [])) (codes "."))
unfolding string4 join
form-string4 whole a b c d = form-digits whole (decimal a) _ (decimal-digits a)

-- Four octets are read back as an IPv4-mapped address.
pub parse_ip-string4 :
    (a b c d : ℕ)
    → IsQuad a b c d
    → parse_ip (string4 (quad a b c d)) ≡ some (mapped_prefix ++ quad a b c d)
unfolding parse_ip parse_addr
parse_ip-string4 a b c d h =
    let s = string4 (quad a b c d) in
    let plain = all-has_byte is_dotted b'%' s refl (string4-dotted a b c d) in
    let formed : form s s ≡ some (record { as16 = mapped_prefix ++ quad a b c d; bits = 32 }) =
      form-string4 s a b c d
      ∙ form-dot s (join (map decimal (b ∷ c ∷ d ∷ [])) (codes ".")) (quad a b c d)
          (parse4-string4 a b c d h) in
    rw (plain, formed, parse_ip, parse_addr) refl
