-- ===== src/Text/Count.antt =====
-- How often an ASCII byte occurs: in pieces, in a split, and after strings.ToLower.
use field_cage.Base.{
  ℕ, zero, suc, ◌+◌, ◌-◌, ◌≤◌, ◌<◌, Bool, List, [], ◌∷◌, ◌++◌, drop, length, if◌then◌else◌, ◌≡◌,
  refl, ◌∙◌, arith, ◌==◌, ltb, Bool-cases, inl, inr, ◌⊎◌,
}
use field_cage.Text.Bytes.{Bytes, split, onto_first}
use field_cage.Text.Utf8.{
  within, Decoded, decode_rune, tail_2, tail_3, tail_4, Chunk, chunks_from, encode_rune,
}
use field_cage.Text.Case.{Tables, lower_rune, lower_chunks, to_lower}

abbrev pub one_if : Bool → ℕ
one_if b = if b then 1 else 0

abbrev pub count : ℕ → Bytes → ℕ
count b [] = 0
count b (c ∷ s) = one_if (c == b) + count b s

pub count-append : (b : ℕ) (s r : Bytes) → count b (s ++ r) ≡ count b s + count b r
count-append b [] r = omega arith
count-append b (c ∷ s) r = omega (arith, count-append b s r)

length-onto_first : (c : ℕ) (ps : List Bytes) → 0 < length ps → length (onto_first c ps) ≡ length ps
length-onto_first c [] h = elim h [ ]
length-onto_first c (p ∷ ps) h = refl

-- A split has one part more than the text has separators.
pub length-split : (s : Bytes) (sep : ℕ) → length (split s sep) ≡ count sep s + 1
unfolding split
length-split [] sep = omega arith
length-split (c ∷ s) sep = ground (arith, length-split s sep, length-onto_first c (split s sep))

-- the chunks whose rune is `b`
abbrev count_runes : ℕ → List Chunk → ℕ
count_runes b [] = 0
count_runes b (k ∷ ks) = one_if (k.rune == b) + count_runes b ks

-- the bytes of a rune hold `b` exactly if the rune is `b`
abbrev Reads : ℕ → ℕ → Bytes → Decoded → Type 0
Reads b b0 s d = one_if (b0 == b) + count b s ≡ one_if (d.0 == b) + count b (drop (d.1 - 1) s)

module _ (b : ℕ) (ascii : b < 0x80) (b0 : ℕ) where
  tail_2-Reads : (s : Bytes) → 0xC2 ≤ b0 → Reads b b0 s (tail_2 b0 s)
  unfolding tail_2
  tail_2-Reads [] h = ground arith
  tail_2-Reads (b1 ∷ s) h = ground arith

  tail_3-Reads : (s : Bytes) → 0xE0 ≤ b0 → Reads b b0 s (tail_3 b0 s)
  unfolding tail_3
  tail_3-Reads [] h = ground arith
  tail_3-Reads (b1 ∷ []) h = ground arith
  tail_3-Reads (b1 ∷ b2 ∷ s) h = ground arith

  tail_4-Reads : (s : Bytes) → 0xF0 ≤ b0 → Reads b b0 s (tail_4 b0 s)
  unfolding tail_4
  tail_4-Reads [] h = ground arith
  tail_4-Reads (b1 ∷ []) h = ground arith
  tail_4-Reads (b1 ∷ b2 ∷ []) h = ground arith
  tail_4-Reads (b1 ∷ b2 ∷ b3 ∷ s) h = ground arith

  decode_rune-Reads : (s : Bytes) → Reads b b0 s (decode_rune b0 s)
  decode_rune-Reads s = elim (Bool-cases (ltb b0 0x80)) [
    | inl e ↦ unfold decode_rune in rw e refl
    | inr e ↦ elim (Bool-cases (within 0xC2 0xDF b0)) [
      | inl f ↦ unfold decode_rune in rw (e, f) (tail_2-Reads s (ground arith))
      | inr f ↦ elim (Bool-cases (within 0xE0 0xEF b0)) [
        | inl g ↦ unfold decode_rune in rw (e, f, g) (tail_3-Reads s (ground arith))
        | inr g ↦ elim (Bool-cases (within 0xF0 0xF4 b0)) [
          | inl h ↦ unfold decode_rune in rw (e, f, g, h) (tail_4-Reads s (ground arith))
          | inr h ↦ unfold decode_rune in rw (e, f, g, h) (ground arith)
        ]
      ]
    ]
  ]

-- bytes that a chunk passes over hold no `b`
count-chunks_from :
    (b : ℕ) (k : ℕ) (s : Bytes) → b < 0x80 → count_runes b (chunks_from k s) ≡ count b (drop k s)
unfolding chunks_from
count-chunks_from b zero [] h = refl
count-chunks_from b (suc k) [] h = refl
count-chunks_from b (suc k) (c ∷ s) h = count-chunks_from b k s h
count-chunks_from b zero (c ∷ s) h =
    let ih = count-chunks_from b ((decode_rune c s).1 - 1) s h in
    omega (arith, decode_rune-Reads b h c s, ih)

pub count-encode_rune : (b r : ℕ) → b < 0x80 → count b (encode_rune r) ≡ one_if (r == b)
unfolding encode_rune
count-encode_rune b r h = ground arith

mark_kept :
    (t : Tables) (b r : ℕ)
    → (b ≡ b'.') ⊎ (b ≡ b'*') ⊎ (b ≡ b':')
    → one_if (lower_rune t r == b) ≡ one_if (r == b)
unfolding lower_rune
mark_kept t b r m = ground (arith, t.lower-ne-mark r)

count-lower_chunks :
    (t : Tables) (b : ℕ) (ks : List Chunk)
    → (b ≡ b'.') ⊎ (b ≡ b'*') ⊎ (b ≡ b':')
    → count b (lower_chunks t ks) ≡ count_runes b ks
unfolding lower_chunks
count-lower_chunks t b [] m = refl
count-lower_chunks t b (k ∷ ks) m = ground (
  arith,
  count-append b (encode_rune (lower_rune t k.rune)) (lower_chunks t ks),
  count-encode_rune b (lower_rune t k.rune),
  mark_kept t b k.rune m,
  count-lower_chunks t b ks m,
)

-- Lower case keeps the number of dots, stars and colons.
pub count-to_lower :
    (t : Tables) (b : ℕ) (s : Bytes)
    → (b ≡ b'.') ⊎ (b ≡ b'*') ⊎ (b ≡ b':')
    → count b (to_lower t s) ≡ count b s
unfolding to_lower
count-to_lower t b s m =
    count-lower_chunks t b (chunks_from 0 s) m ∙ count-chunks_from b 0 s (ground arith)
