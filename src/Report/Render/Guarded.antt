-- ===== src/Report/Render/Guarded.antt =====
-- What `markdownEscape` guards.
use field_cage.Base.{
  ℕ, ◌≤◌, Bool, true, false, ◌||◌, ◌&&◌, not, List, [], ◌∷◌, ◌++◌, ◌==◌, ltb, if◌then◌else◌, All,
  ◌≡◌, refl, ◌∙◌, arith, Bool-cases, inl, inr,
}
use field_cage.Text.Bytes.{Bytes}
use field_cage.Text.Utf8.{Chunk, chunks, encode_rune, within}
use field_cage.Report.Render.Escape.{is_special, escape_chunks, markdown_escape}

-- what can end a table cell or a code span, or begin HTML, an entity, an emphasis, a link, a heading
-- or a struck text
unfoldable pub is_structural : ℕ → Bool
is_structural c =
    c == b'|'
    || c == b'`'
    || c == b'<'
    || c == b'>'
    || c == b'&'
    || c == b'*'
    || c == b'_'
    || c == b'['
    || c == b']'
    || c == b'#'
    || c == b'~'

structural-special : (c : ℕ) → is_special c ≡ false → is_structural c ≡ false
unfolding is_special is_structural
structural-special c h = ground arith

-- Every structural byte stands behind a backslash, and no backslash ends the text; the first argument
-- says whether a backslash stands in front.
unfoldable pub is_guarded : Bool → Bytes → Bool
is_guarded true [] = false
is_guarded false [] = true
is_guarded true (c ∷ s) = is_guarded false s
is_guarded false (c ∷ s) =
    let inside = is_guarded true s in
    let outside = is_guarded false s in
    if c == b'\\' then inside else not (is_structural c) && outside

plain_byte :
    (c : ℕ) (s : Bytes) → is_special c ≡ false → is_guarded false (c ∷ s) ≡ is_guarded false s
unfolding is_guarded is_special
plain_byte c s h = ground (arith, structural-special c h)

high-plain : (c : ℕ) → 0x80 ≤ c → is_special c ≡ false
unfolding is_special
high-plain c h = ground arith

abbrev IsHigh : ℕ → Type 0
IsHigh c = 0x80 ≤ c

high_bytes : (p s : Bytes) → All IsHigh p → is_guarded false (p ++ s) ≡ is_guarded false s
high_bytes [] s h = refl
high_bytes (c ∷ p) s h = plain_byte c (p ++ s) (high-plain c h.0) ∙ high_bytes p s h.1

if-All : (b : Bool) (x y : Bytes) → All IsHigh x → All IsHigh y → All IsHigh (if b then x else y)
if-All true x y p q = p
if-All false x y p q = q

encode_rune-IsHigh : (r : ℕ) → ltb r 0x80 ≡ false → All IsHigh (encode_rune r)
unfolding encode_rune
encode_rune-IsHigh r h =
    rw (h, encode_rune)
      (if-All (ltb r 0x800) _ _ (omega arith, (omega arith, tt))
        (if-All (within 0xD800 0xDFFF r || ltb 0x10FFFF r) _ _
          (omega arith, (omega arith, (omega arith, tt)))
          (if-All (ltb r 0x10000) _ _ (omega arith, (omega arith, (omega arith, tt)))
            (omega arith, (omega arith, (omega arith, (omega arith, tt)))))))

ascii_rune : (r : ℕ) → ltb r 0x80 ≡ true → encode_rune r ≡ r ∷ []
unfolding encode_rune
ascii_rune r h = rw (h, encode_rune) refl

special-ascii : (r : ℕ) → is_special r ≡ true → ltb r 0x80 ≡ true
unfolding is_special
special-ascii r h = ground arith

guarded_rune :
    (r : ℕ) (s : Bytes)
    → is_special r ≡ false
    → is_guarded false (encode_rune r ++ s) ≡ is_guarded false s
guarded_rune r s h = elim (Bool-cases (ltb r 0x80)) [
  | inl low ↦ rw (ascii_rune r low) (plain_byte r s h)
  | inr high ↦ high_bytes (encode_rune r) s (encode_rune-IsHigh r high)
]

escaped : (r : ℕ) (s : Bytes) → is_guarded false (b'\\' ∷ r ∷ s) ≡ is_guarded false s
unfolding is_guarded
escaped r s = refl

escape_chunks-is_guarded : (ks : List Chunk) → is_guarded false (escape_chunks ks) ≡ true
unfolding escape_chunks
escape_chunks-is_guarded [] = unfold is_guarded in refl
escape_chunks-is_guarded (k ∷ ks) = elim (Bool-cases (is_special k.rune)) [
  | inr plain ↦
      rw (plain, escape_chunks)
        (guarded_rune k.rune (escape_chunks ks) plain ∙ escape_chunks-is_guarded ks)
  | inl special ↦
      rw (special, ascii_rune k.rune (special-ascii k.rune special), escape_chunks)
        (escaped k.rune (escape_chunks ks) ∙ escape_chunks-is_guarded ks)
]

-- In an escaped text each bar, backquote, angle bracket, ampersand, asterisk, underscore, square
-- bracket, number sign and tilde stands behind a backslash that is not itself behind one, and no such
-- backslash ends the text, whatever the bytes that were escaped.
pub markdown_escape-is_guarded : (s : Bytes) → is_guarded false (markdown_escape s) ≡ true
unfolding markdown_escape
markdown_escape-is_guarded s = escape_chunks-is_guarded (chunks s)
