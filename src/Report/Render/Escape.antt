-- ===== src/Report/Render/Escape.antt =====
-- The escaping of log-derived values: `markdownEscape`, `annotationMessage`, `annotationProperty` and
-- `csvFormulaGuard`.
use field_cage.Base.{ℕ, Bool, ◌||◌, List, [], ◌∷◌, ◌++◌, ◌==◌, if◌then◌else◌, any}
use field_cage.Text.Bytes.{Bytes, codes, replace_byte}
use field_cage.Text.Utf8.{Chunk, chunks, encode_rune}

-- the characters that `markdownEscape` puts a backslash in front of
abbrev pub markdown_specials : List ℕ
markdown_specials =
    b'\\' ∷ b'|' ∷ b'`' ∷ b'<' ∷ b'>' ∷ b'&' ∷ b'*' ∷ b'_' ∷ b'[' ∷ b']' ∷ b'#' ∷ b'~' ∷ []

unfoldable pub is_special : ℕ → Bool
is_special r = any (λ c. r == c) markdown_specials

unfoldable pub escape_chunks : List Chunk → Bytes
unfolding is_special
escape_chunks [] = []
escape_chunks (k ∷ ks) =
    (if is_special k.rune then b'\\' ∷ [] else []) ++ (encode_rune k.rune ++ escape_chunks ks)

unfoldable pub markdown_escape : Bytes → Bytes
unfolding escape_chunks
markdown_escape s = escape_chunks (chunks s)

unfoldable pub annotation_message : Bytes → Bytes
unfolding replace_byte
annotation_message s =
    replace_byte b'\n' (codes "%0A")
      (replace_byte b'\r' (codes "%0D") (replace_byte b'%' (codes "%25") s))

unfoldable pub annotation_property : Bytes → Bytes
unfolding replace_byte annotation_message
annotation_property s =
    replace_byte b',' (codes "%2C") (replace_byte b':' (codes "%3A") (annotation_message s))

-- the first bytes that a spreadsheet reads as a formula
unfoldable pub is_formula_start : ℕ → Bool
is_formula_start c = c == b'=' || c == b'+' || c == b'-' || c == b'@' || c == b'\t' || c == b'\r'

unfoldable pub csv_formula_guard : Bytes → Bytes
unfolding is_formula_start
csv_formula_guard [] = []
csv_formula_guard (c ∷ s) = if is_formula_start c then b'\'' ∷ c ∷ s else c ∷ s
