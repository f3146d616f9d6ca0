-- ===== src/Text/Case.antt =====
-- strings.ToLower. The tables of the package unicode for runes beyond ASCII are the parameter
-- `Tables`.
use field_cage.Base.{
  ℕ, ◌+◌, ◌≤◌, Bool, false, ◌||◌, List, [], ◌∷◌, ◌++◌, ◌≡◌, ◌==◌, ltb, if◌then◌else◌,
}
use field_cage.Text.Bytes.{Bytes}
use field_cage.Text.Utf8.{within, Chunk, chunks, encode_rune}

-- unicode.ToLower and unicode.IsPrint on runes from U+0080, with what the program relies on.
pub record Tables : Type 0 where
  pub lower : ℕ → ℕ
  pub print : ℕ → Bool
  -- A letter is lowered to a letter or a digit, never to one of the marks `.`, `*` and `:`.
  pub lower-ne-mark :
      (r : ℕ) → 0x80 ≤ r → ((lower r == b'.') || (lower r == b'*') || (lower r == b':')) ≡ false

-- unicode.ToLower
unfoldable pub lower_rune : Tables → ℕ → ℕ
lower_rune t r = if ltb r 0x80 then (if within b'A' b'Z' r then r + 32 else r) else t.lower r

-- unicode.IsPrint
unfoldable pub is_print : Tables → ℕ → Bool
is_print t r = if ltb r 0x80 then within 0x20 0x7E r else t.print r

unfoldable pub lower_chunks : Tables → List Chunk → Bytes
unfolding lower_rune encode_rune
lower_chunks t [] = []
lower_chunks t (k ∷ ks) = encode_rune (lower_rune t k.rune) ++ lower_chunks t ks

-- strings.ToLower: each rune is lowered and encoded, an invalid byte as U+FFFD
unfoldable pub to_lower : Tables → Bytes → Bytes
unfolding lower_chunks chunks
to_lower t s = lower_chunks t (chunks s)
