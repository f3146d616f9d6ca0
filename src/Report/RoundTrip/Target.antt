-- ===== src/Report/RoundTrip/Target.antt =====
-- The destination of a line, read back by `parseDst`.
use field_cage.Base.{
  ℕ, ◌^◌, ◌<◌, true, false, [], ◌∷◌, ◌++◌, none, some, all, ◌≡◌, refl, ap, sym, subst, ◌∙◌, arith,
  if◌then◌else◌, append_assoc, ok,
}
use field_cage.Text.Bytes.{Bytes, codes, is_empty, has_byte, has_suffix, cut_last}
use field_cage.Text.Equal.{has_suffix-append}
use field_cage.Text.Space.{trim_space}
use field_cage.Text.Number.{decimal}
use field_cage.Text.Ascii.{is_text, is_plain, all-append, all-has_byte, plain-text}
use field_cage.Text.Trim.{
  trim_space-same, starts_plain, ends_plain, starts_plain-append, ends_plain-append, plain-ends,
}
use field_cage.Text.Search.{
  cut_last-append, cut_last-word, cut_last-free, cut_last-space, trim_suffix-append,
  has_suffix-none,
}
use field_cage.Text.Decimal.{
  is_digit, decimal-digits, decimal-filled, parse_uint-decimal, digits-plain,
}
use field_cage.Net.Ip.{Ip}
use field_cage.Net.Parse.{parse_ip}
use field_cage.Report.Parse.{split_addr, parse_dst, field_dst}

-- the text of a destination for the text of an address
abbrev pub dst_text : Bytes → Bytes → Bytes
dst_text domain s = if is_empty domain then s else domain ++ (codes " (" ++ (s ++ codes ")"))

-- the text of an address: it holds neither a space nor a parenthesis
pub record IsAddress (s : Bytes) : Type 0 where
  pub plain : all is_plain s ≡ true
  pub filled : starts_plain s ≡ true
  pub no_end : has_byte s b')' ≡ false

no_space : (s : Bytes) → all is_plain s ≡ true → has_byte s b' ' ≡ false
no_space s h = all-has_byte is_plain b' ' s refl h

-- no separator that begins with a space stands in the address and what closes it
cut_last-closed :
    (p s r : Bytes)
    → all is_plain s ≡ true
    → all is_plain r ≡ true
    → cut_last (b' ' ∷ p) (s ++ r) ≡ none
cut_last-closed p s r h k =
    cut_last-word b' ' p s r (no_space s h) (cut_last-free b' ' p r (no_space r k))

split_addr-cut :
    (addr domain s : Bytes)
    → has_suffix addr (codes ")") ≡ true
    → cut_last (codes " (") addr ≡ some (domain, s ++ codes ")")
    → split_addr addr ≡ (domain, s)
unfolding split_addr
split_addr-cut addr domain s h k =
    rw (h, k, split_addr) (ap (λ r. (domain, r)) (trim_suffix-append s b')'))

split_addr-dst :
    (domain s : Bytes)
    → all is_plain domain ≡ true
    → IsAddress s
    → split_addr (dst_text domain s) ≡ (domain, s)
unfolding split_addr
split_addr-dst [] s h a = rw (has_suffix-none s b')' a.no_end) refl
split_addr-dst (c ∷ d) s h a =
    let domain = c ∷ d in
    let addr : Bytes = domain ++ (codes " (" ++ (s ++ codes ")")) in
    let same : (domain ++ (codes " (" ++ s)) ++ codes ")" ≡ addr =
      append_assoc domain (codes " (" ++ s) (codes ")") in
    split_addr-cut addr domain s
      (subst (λ a. has_suffix a (codes ")") ≡ true) same
        (has_suffix-append (domain ++ (codes " (" ++ s)) (codes ")")))
      (cut_last-append b' ' (codes "(") domain (s ++ codes ")") refl
        (cut_last-closed (codes "(") s (codes ")") a.plain refl))

-- The destination column: the destination, a colon and a port.
abbrev pub column : Bytes → Bytes → ℕ → Bytes
column domain s port = dst_text domain s ++ (codes ":" ++ decimal port)

decimal-plain : (n : ℕ) → all is_plain (decimal n) ≡ true
decimal-plain n = digits-plain (decimal n) (decimal-digits n)

dst_text-text :
    (domain s : Bytes)
    → all is_plain domain ≡ true
    → IsAddress s
    → all is_text (dst_text domain s) ≡ true
dst_text-text [] s h a = plain-text s a.plain
dst_text-text (c ∷ d) s h a =
    all-append is_text (c ∷ d) _ (plain-text (c ∷ d) h)
      (all-append is_text s (codes ")") (plain-text s a.plain) refl)

pub column-text :
    (domain s : Bytes) (port : ℕ)
    → all is_plain domain ≡ true
    → IsAddress s
    → all is_text (column domain s port) ≡ true
column-text domain s port h a =
    all-append is_text (dst_text domain s) _ (dst_text-text domain s h a)
      (plain-text (decimal port) (decimal-plain port))

dst_text-starts :
    (domain s : Bytes)
    → all is_plain domain ≡ true
    → IsAddress s
    → starts_plain (dst_text domain s) ≡ true
dst_text-starts [] s h a = a.filled
dst_text-starts (c ∷ d) s h a = ground arith

decimal-ends : (n : ℕ) → ends_plain (decimal n) ≡ true
decimal-ends n =
    let (c, r, p) = decimal-filled n in
    let plain : all is_plain (c ∷ r) ≡ true =
      subst (λ s. all is_plain s ≡ true) p (decimal-plain n) in
    subst (λ s. ends_plain s ≡ true) (sym p) (plain-ends c r plain)

column-trimmed :
    (domain s : Bytes) (port : ℕ)
    → all is_plain domain ≡ true
    → IsAddress s
    → trim_space (column domain s port) ≡ column domain s port
column-trimmed domain s port h a =
    trim_space-same (column domain s port) (column-text domain s port h a)
      (starts_plain-append (dst_text domain s) _ (dst_text-starts domain s h a))
      (ends_plain-append (dst_text domain s) _
        (ends_plain-append (codes ":") (decimal port) (decimal-ends port)))

-- No ` dst=` stands in a column.
pub column-unmarked :
    (domain s : Bytes) (port : ℕ)
    → all is_plain domain ≡ true
    → IsAddress s
    → cut_last field_dst (column domain s port) ≡ none
column-unmarked [] s port h a =
    cut_last-closed (codes "dst=") s (codes ":" ++ decimal port) a.plain (decimal-plain port)
column-unmarked (c ∷ d) s port h a =
    let rest = codes "):" ++ decimal port in
    let same : column (c ∷ d) s port ≡ (c ∷ d) ++ (codes " (" ++ (s ++ rest)) =
      append_assoc (c ∷ d) (codes " (" ++ (s ++ codes ")")) (codes ":" ++ decimal port)
      ∙ ap (λ r. (c ∷ d) ++ (codes " (" ++ r))
          (append_assoc s (codes ")") (codes ":" ++ decimal port)) in
    subst (λ r. cut_last field_dst r ≡ none) (sym same)
      (cut_last-word b' ' (codes "dst=") (c ∷ d) _ (no_space (c ∷ d) h) (
        cut_last-space b'd' b'(' (codes "st=") (s ++ rest) refl (
          cut_last-word b' ' (codes "dst=") (codes "(") (s ++ rest) refl
            (cut_last-closed (codes "dst=") s rest a.plain (decimal-plain port)))))

-- `parseDst` reads back the column that the agent prints.
pub parse_dst-column :
    (domain s : Bytes) (ip : Ip) (port : ℕ)
    → all is_plain domain ≡ true
    → IsAddress s
    → parse_ip s ≡ some ip
    → port < 2 ^ 16
    → parse_dst (column domain s port) ≡ ok (record { domain = domain; ip = ip; port = port })
unfolding parse_dst
parse_dst-column domain s ip port h a p b =
    let cut : cut_last (codes ":") (column domain s port) ≡ some (dst_text domain s, decimal port) =
      cut_last-append b':' [] (dst_text domain s) (decimal port) refl (
        cut_last-free b':' [] (decimal port)
          (all-has_byte is_digit b':' (decimal port) refl (decimal-digits port))) in
    rw
      (
        column-trimmed domain s port h a,
        cut,
        parse_uint-decimal 16 port b,
        split_addr-dst domain s h a,
        p,
        parse_dst,
      )
      refl
