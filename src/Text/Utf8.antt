-- ===== src/Text/Utf8.antt =====
-- unicode/utf8: the runes that `for _, r := range s` meets, and their encoding.
use field_cage.Base.{
  ℕ, zero, suc, ◌+◌, ◌-◌, ◌*◌, ◌/◌, ◌%◌, Bool, true, ◌||◌, ◌&&◌, List, [], ◌∷◌, ◌++◌, take, leb,
  ltb, ◌==◌, if◌then◌else◌, ◌≡◌,
}
use field_cage.Text.Bytes.{Bytes}

-- U+FFFD, which an invalid byte decodes to
abbrev pub rune_error : ℕ
rune_error = 0xFFFD

abbrev pub within : ℕ → ℕ → ℕ → Bool
within lo hi c = leb lo c && leb c hi

-- A rune and the number of bytes that it takes.
abbrev pub Decoded : Type 0
Decoded = ℕ × ℕ

abbrev invalid : Decoded
invalid = (rune_error, 1)

unfoldable pub tail_2 : ℕ → Bytes → Decoded
tail_2 b0 [] = invalid
tail_2 b0 (b1 ∷ s) = if within 0x80 0xBF b1 then ((b0 - 0xC0) * 64 + (b1 - 0x80), 2) else invalid

-- the second byte lies in a narrower range behind E0 and ED, against overlong forms and surrogates
unfoldable pub tail_3 : ℕ → Bytes → Decoded
tail_3 b0 (b1 ∷ b2 ∷ s) =
    if within (if b0 == 0xE0 then 0xA0 else 0x80) (if b0 == 0xED then 0x9F else 0xBF) b1
      && within 0x80 0xBF b2
    then ((b0 - 0xE0) * 4096 + (b1 - 0x80) * 64 + (b2 - 0x80), 3)
    else invalid
tail_3 b0 _ = invalid

unfoldable pub tail_4 : ℕ → Bytes → Decoded
tail_4 b0 (b1 ∷ b2 ∷ b3 ∷ s) =
    if within (if b0 == 0xF0 then 0x90 else 0x80) (if b0 == 0xF4 then 0x8F else 0xBF) b1
      && (within 0x80 0xBF b2 && within 0x80 0xBF b3)
    then ((b0 - 0xF0) * 262144 + (b1 - 0x80) * 4096 + (b2 - 0x80) * 64 + (b3 - 0x80), 4)
    else invalid
tail_4 b0 _ = invalid

-- utf8.DecodeRuneInString of the text `b0 ∷ s`
unfoldable pub decode_rune : ℕ → Bytes → Decoded
unfolding tail_2 tail_3 tail_4
decode_rune b0 s =
    if ltb b0 0x80
    then (b0, 1)
    else if within 0xC2 0xDF b0
    then tail_2 b0 s
    else if within 0xE0 0xEF b0
    then tail_3 b0 s
    else if within 0xF0 0xF4 b0
    then tail_4 b0 s
    else invalid

-- A rune with the bytes that it was read from.
pub record Chunk : Type 0 where
  pub rune : ℕ
  pub raw : Bytes

-- the first argument counts the bytes of the last rune that are still to be passed over
unfoldable pub chunks_from : ℕ → Bytes → List Chunk
unfolding decode_rune
chunks_from skip [] = []
chunks_from zero (b ∷ s) =
    let d = decode_rune b s in
    record { rune = d.0; raw = take d.1 (b ∷ s) } ∷ chunks_from (d.1 - 1) s
chunks_from (suc k) (b ∷ s) = chunks_from k s

-- The runes of a text in order.
unfoldable pub chunks : Bytes → List Chunk
unfolding chunks_from
chunks s = chunks_from 0 s

-- The bytes of some chunks.
unfoldable pub unchunk : List Chunk → Bytes
unchunk [] = []
unchunk (k ∷ ks) = k.raw ++ unchunk ks

-- strings.Builder.WriteRune
unfoldable pub encode_rune : ℕ → Bytes
encode_rune r =
    if ltb r 0x80
    then r ∷ []
    else if ltb r 0x800
    then (0xC0 + r / 64) ∷ (0x80 + r % 64) ∷ []
    else if within 0xD800 0xDFFF r || ltb 0x10FFFF r
    then 0xEF ∷ 0xBF ∷ 0xBD ∷ []
    else if ltb r 0x10000
    then (0xE0 + r / 4096) ∷ (0x80 + r / 64 % 64) ∷ (0x80 + r % 64) ∷ []
    else (0xF0 + r / 262144) ∷ (0x80 + r / 4096 % 64) ∷ (0x80 + r / 64 % 64) ∷ (0x80 + r % 64) ∷ []

-- An ASCII text is read byte by byte.
abbrev pub IsAscii : Bytes → Type 0
IsAscii [] = Unit {0}
IsAscii (c ∷ s) = (ltb c 0x80 ≡ true) × IsAscii s
