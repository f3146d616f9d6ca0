-- ===== src/Net/Ip/Chars.antt =====
-- Which bytes the text of an address is made of.
use field_cage.Base.{
  ℕ, ◌+◌, Bool, true, false, ◌||◌, ◌==◌, ◌/◌, ◌%◌, ltb, leb, if◌then◌else◌, List, [], ◌∷◌, all, All,
  map, take, drop, length, Bool-cases, Option-cases, inl, inr, ◌≡◌, refl, arith,
}
use field_cage.Text.Bytes.{Bytes, codes, join, is_empty}
use field_cage.Text.Utf8.{within}
use field_cage.Text.Number.{decimal}
use field_cage.Text.Ascii.{all-append}
use field_cage.Text.Decimal.{is_digit, decimal-digits}
use field_cage.Net.Ip.{
  Ip, to4, string, string4, string6, hex_char, hex_group, hex_byte, hex_text, groups_of, best_run,
}

-- a digit, a letter of a hexadecimal number, a colon, a point or a question mark
abbrev pub is_address_char : ℕ → Bool
is_address_char c = within b'0' b'9' c || leb b'a' c || c == b':' || c == b'.' || c == b'?'

abbrev IsMade : Bytes → Type 0
IsMade s = all is_address_char s ≡ true

if-IsMade : (b : Bool) (s r : Bytes) → IsMade s → IsMade r → IsMade (if b then s else r)
if-IsMade true s r h k = h
if-IsMade false s r h k = k

join-IsMade : (ps : List Bytes) (sep : Bytes) → All IsMade ps → IsMade sep → IsMade (join ps sep)
unfolding join
join-IsMade [] sep h k = refl
join-IsMade (p ∷ []) sep h k = h.0
join-IsMade (p ∷ q ∷ ps) sep h k =
    all-append is_address_char p _ h.0
      (all-append is_address_char sep _ k (join-IsMade (q ∷ ps) sep h.1 k))

digits-IsMade : (s : Bytes) → all is_digit s ≡ true → IsMade s
digits-IsMade [] h = refl
digits-IsMade (c ∷ s) h = ground (arith, digits-IsMade s)

map-decimal-IsMade : (ns : List ℕ) → All IsMade (map decimal ns)
map-decimal-IsMade [] = tt
map-decimal-IsMade (n ∷ ns) = (digits-IsMade (decimal n) (decimal-digits n), map-decimal-IsMade ns)

hex_char-IsMade : (d : ℕ) → is_address_char (hex_char d) ≡ true
hex_char-IsMade d = ground arith

hex_chars-IsMade : (ds : List ℕ) → IsMade (map hex_char ds)
hex_chars-IsMade [] = refl
hex_chars-IsMade (d ∷ ds) = rw (hex_char-IsMade d) (hex_chars-IsMade ds)

hex_group-IsMade : (v : ℕ) → IsMade (hex_group v)
unfolding hex_group
hex_group-IsMade v =
    let one = hex_chars-IsMade (v ∷ []) in
    let two = hex_chars-IsMade (v / 16 ∷ v % 16 ∷ []) in
    let three = hex_chars-IsMade (v / 256 ∷ v / 16 % 16 ∷ v % 16 ∷ []) in
    let four = hex_chars-IsMade (v / 4096 ∷ v / 256 % 16 ∷ v / 16 % 16 ∷ v % 16 ∷ []) in
    if-IsMade (ltb v 16) _ _ one
      (if-IsMade (ltb v 256) _ _ two (if-IsMade (ltb v 4096) _ _ three four))

map-hex_group-IsMade : (gs : List ℕ) → All IsMade (map hex_group gs)
map-hex_group-IsMade [] = tt
map-hex_group-IsMade (g ∷ gs) = (hex_group-IsMade g, map-hex_group-IsMade gs)

string6-IsMade : (ip : Ip) → IsMade (string6 ip)
unfolding string6
string6-IsMade ip =
    let gs = groups_of ip in
    let run = best_run 0 gs 0 0 in
    let part : (hs : List ℕ) → IsMade (join (map hex_group hs) (codes ":")) =
      λ hs. join-IsMade (map hex_group hs) (codes ":") (map-hex_group-IsMade hs) refl in
    elim (Bool-cases (run.1 == 0)) [
      | inl a ↦ rw (a, string6) (part gs)
      | inr a ↦
          rw (a, string6)
            (all-append is_address_char (join (map hex_group (take run.0 gs)) (codes ":")) _
              (part (take run.0 gs)) (part (drop (run.0 + run.1) gs)))
    ]

hex_text-IsMade : (ip : Ip) → IsMade (hex_text ip)
hex_text-IsMade [] = refl
hex_text-IsMade (v ∷ ip) =
    all-append is_address_char (hex_byte v) (hex_text ip) (hex_chars-IsMade (v / 16 ∷ v % 16 ∷ []))
      (hex_text-IsMade ip)

-- The text of an address, if there is one, has no other bytes.
pub string-IsMade : (ip : Ip) → is_empty ip ≡ false → all is_address_char (string ip) ≡ true
unfolding string string4
string-IsMade ip h = elim (Option-cases (to4 ip)) [
  | inr (ip4, p) ↦
      rw (h, p, string) (join-IsMade (map decimal ip4) (codes ".") (map-decimal-IsMade ip4) refl)
  | inl p ↦ elim (Bool-cases (length ip == 16)) [
    | inl a ↦ rw (h, p, a, string) (string6-IsMade ip)
    | inr a ↦ rw (h, p, a, string) (hex_text-IsMade ip)
  ]
]
