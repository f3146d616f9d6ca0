-- ===== src/Text/Ascii.antt =====
-- Printable ASCII texts, whose runes are their bytes.
use field_cage.Base.{
  ℕ, zero, suc, Bool, true, false, ==_iff, [], ◌∷◌, ◌++◌, all, length, map, replicate, ltb, ◌≡◌,
  refl, ap, ◌∙◌, arith,
}
use field_cage.Text.Bytes.{Bytes, has_byte}
use field_cage.Text.Utf8.{within, Chunk, chunks, chunks_from, unchunk, decode_rune}

-- a printable ASCII character
abbrev pub is_text : ℕ → Bool
is_text c = within 0x20 0x7E c

-- a printable ASCII character that is not a space
abbrev pub is_plain : ℕ → Bool
is_plain c = within 0x21 0x7E c

abbrev pub chunk_of : ℕ → Chunk
chunk_of c = record { rune = c; raw = c ∷ [] }

pub all-append :
    (p : ℕ → Bool) (s r : Bytes) → all p s ≡ true → all p r ≡ true → all p (s ++ r) ≡ true
all-append p [] r h k = k
all-append p (c ∷ s) r h k = ground (arith, all-append p s r)

pub plain-text : (s : Bytes) → all is_plain s ≡ true → all is_text s ≡ true
plain-text [] h = refl
plain-text (c ∷ s) h = ground (arith, plain-text s)

pub spaces-text : (n : ℕ) → all is_text (replicate n b' ') ≡ true
spaces-text zero = refl
spaces-text (suc n) = spaces-text n

chunks_from-step :
    (c : ℕ) (s : Bytes) → ltb c 0x80 ≡ true → chunks_from 0 (c ∷ s) ≡ chunk_of c ∷ chunks_from 0 s
unfolding chunks_from decode_rune
chunks_from-step c s h = rw h refl

pub chunks-text : (s : Bytes) → all is_text s ≡ true → chunks s ≡ map chunk_of s
unfolding chunks chunks_from
chunks-text [] h = refl
chunks-text (c ∷ s) h =
    chunks_from-step c s (ground arith) ∙ ap (λ ks. chunk_of c ∷ ks) (chunks-text s (ground arith))

pub unchunk-map : (s : Bytes) → unchunk (map chunk_of s) ≡ s
unfolding unchunk
unchunk-map [] = refl
unchunk-map (c ∷ s) = ap (λ r. c ∷ r) (unchunk-map s)

pub length-map : (s : Bytes) → length (map chunk_of s) ≡ length s
length-map [] = refl
length-map (c ∷ s) = ap suc (length-map s)

pub map-append : (s r : Bytes) → map chunk_of (s ++ r) ≡ map chunk_of s ++ map chunk_of r
map-append [] r = refl
map-append (c ∷ s) r = ap (λ ks. chunk_of c ∷ ks) (map-append s r)

-- A text of characters with a property does not hold one without it.
pub all-has_byte :
    (p : ℕ → Bool) (b : ℕ) (s : Bytes) → p b ≡ false → all p s ≡ true → has_byte s b ≡ false
all-has_byte p b [] h k = refl
all-has_byte p b (c ∷ s) h k =
    let same : c ≡ b → p c ≡ p b = λ e. ap p e in
    ground (arith, ==_iff c b, same, all-has_byte p b s)
