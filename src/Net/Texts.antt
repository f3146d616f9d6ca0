-- ===== src/Net/Texts.antt =====
-- Which addresses have the text of an IPv4 address.
use field_cage.Base.{
  ℕ, ◌*◌, ◌+◌, true, false, [], ◌∷◌, ◌++◌, none, some, map, take, length, ◌==◌, ◌≡◌, refl, ap,
  append-nil, sym, ◌∙◌, arith, Bool-cases, inl, inr,
}
use field_cage.Text.Bytes.{Bytes, codes, cut_first, has_byte, join}
use field_cage.Text.Number.{decimal}
use field_cage.Text.Ascii.{all-has_byte}
use field_cage.Text.Decimal.{is_digit, decimal-digits, decimal-inj}
use field_cage.Text.Search.{cut_first-word, cut_first-found}
use field_cage.Text.Equal.{cut_prefix-append}
use field_cage.Net.Ip
use field_cage.Net.Ip.{Ip, to4, string4, string6, hex_group, hex_byte, groups_of, best_run}
use field_cage.Net.Dotted.{quad, is_dotted, string4-dotted}

first_part :
    (w r : Bytes) → has_byte w b'.' ≡ false → cut_first (codes ".") (w ++ b'.' ∷ r) ≡ some (w, r)
first_part w r h =
    cut_first-word b'.' [] w (b'.' ∷ r) [] r h
      (cut_first-found (codes ".") (b'.' ∷ r) r (cut_prefix-append (codes ".") r))
    ∙ ap (λ v. some (v, r)) (append-nil w)

pair_inj : (p q : Bytes × Bytes) → some p ≡ some q → p ≡ q
pair_inj p q h = ground arith

no_dot : (n : ℕ) → has_byte (decimal n) b'.' ≡ false
no_dot n = all-has_byte is_digit b'.' (decimal n) refl (decimal-digits n)

-- the first octet and the rest of a dotted text
octet-inj :
    (a b : ℕ) (r s : Bytes) → decimal a ++ b'.' ∷ r ≡ decimal b ++ b'.' ∷ s → (a ≡ b) × (r ≡ s)
octet-inj a b r s h =
    let same =
      pair_inj (decimal a, r) (decimal b, s)
        (sym (first_part (decimal a) r (no_dot a))
          ∙ ap (cut_first (codes ".")) h
          ∙ first_part (decimal b) s (no_dot b)) in
    (decimal-inj a b (ap (λ (p : Bytes × Bytes). p.0) same), ap (λ (p : Bytes × Bytes). p.1) same)

quad-inj :
    (a b c d e f g h : ℕ)
    → string4 (quad a b c d) ≡ string4 (quad e f g h)
    → quad a b c d ≡ quad e f g h
unfolding string4 join
quad-inj a b c d e f g h p =
    let (ae, q) = octet-inj a e _ _ p in
    let (bf, r) = octet-inj b f _ _ q in
    let (cg, s) = octet-inj c g _ _ r in let dh = decimal-inj d h s in cc (ae, bf, cg, dh)

-- four bytes
pub four-quad : (x : Ip) → length x ≡ 4 → (a b c d : ℕ) × (x ≡ quad a b c d)
four-quad (a ∷ b ∷ c ∷ d ∷ []) l = (a, b, c, d, refl)
four-quad x l = absurd (ground arith)

-- The dotted text of four bytes determines them.
pub string4-inj : (x y : Ip) → length x ≡ 4 → length y ≡ 4 → string4 x ≡ string4 y → x ≡ y
string4-inj x y l m p =
    let (a, b, c, d, ex) = four-quad x l in
    let (e, f, g, h, ey) = four-quad y m in
    ex ∙ quad-inj a b c d e f g h (sym (ap string4 ex) ∙ p ∙ ap string4 ey) ∙ sym ey

has_byte-append_right : (s r : Bytes) (b : ℕ) → has_byte r b ≡ true → has_byte (s ++ r) b ≡ true
has_byte-append_right [] r b h = h
has_byte-append_right (c ∷ s) r b h = ground (arith, has_byte-append_right s r b)

-- the text of a native IPv6 address has a colon
string6-colon : (ip : Ip) → length ip ≡ 16 → has_byte (string6 ip) b':' ≡ true
unfolding string6 groups_of join
string6-colon (a ∷ b ∷ c ∷ d ∷ ip) l =
    let gs = groups_of (a ∷ b ∷ c ∷ d ∷ ip) in
    let run = best_run 0 gs 0 0 in
    elim (Bool-cases (run.1 == 0)) [
      | inl e ↦ rw e (has_byte-append_right (hex_group (a * 256 + b)) _ b':' refl)
      | inr e ↦
          rw e
            (has_byte-append_right (join (map hex_group (take run.0 gs)) (codes ":")) _ b':' refl)
    ]
string6-colon ip l = absurd (ground arith)

-- a byte that the text of an address holds if it has no IPv4 form
foreign_byte :
    (ip : Ip) → to4 ip ≡ none → (b : ℕ) × (is_dotted b ≡ false) × (has_byte (Ip.string ip) b ≡ true)
unfolding Ip.string
foreign_byte [] e = (b'<', refl, refl)
foreign_byte (c ∷ ip) e = elim (Bool-cases (length (c ∷ ip) == 16)) [
  | inl l ↦ (b':', refl, rw (e, l, Ip.string) (string6-colon (c ∷ ip) (ground arith)))
  | inr l ↦ (b'?', refl, rw (e, l, Ip.string) refl)
]

-- An address without an IPv4 form has not the text of one.
pub string-foreign :
    (ip : Ip) (a b c d : ℕ) → to4 ip ≡ none → Ip.string ip ≡ string4 (quad a b c d) → ⊥
string-foreign ip a b c d e h =
    let (x, out, held) = foreign_byte ip e in
    let absent = all-has_byte is_dotted x (string4 (quad a b c d)) out (string4-dotted a b c d) in
    let same = ap (λ s. has_byte s x) h in ground arith
