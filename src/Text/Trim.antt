-- ===== src/Text/Trim.antt =====
-- strings.TrimSpace and strings.TrimRight on printable ASCII texts.
use field_cage.Base.{
  ℕ, zero, suc, Bool, true, false, List, [], ◌∷◌, ◌++◌, all, any, map, replicate, ◌≡◌, refl, ap,
  ◌∙◌, arith, Bool-cases, inl, inr,
}
use field_cage.Text.Bytes.{Bytes, trim_right}
use field_cage.Text.Utf8.{Chunk, chunks, unchunk}
use field_cage.Text.Space.{is_space, trim_left, trim_end, trim_space}
use field_cage.Text.Ascii.{
  is_text, is_plain, chunk_of, all-append, plain-text, spaces-text, chunks-text, unchunk-map,
  map-append,
}

abbrev spaces : ℕ → List Chunk
spaces n = map chunk_of (replicate n b' ')

trim_left-spaces : (n : ℕ) → trim_left (spaces n) ≡ []
unfolding trim_left is_space
trim_left-spaces zero = refl
trim_left-spaces (suc n) = trim_left-spaces n

trim_end-spaces : (n : ℕ) → trim_end (spaces n) ≡ []
unfolding trim_end is_space
trim_end-spaces zero = refl
trim_end-spaces (suc n) = rw (trim_end-spaces n) refl

trim_end-append : (ks : List Chunk) (n : ℕ) → trim_end (ks ++ spaces n) ≡ trim_end ks
unfolding trim_end
trim_end-append [] n = trim_end-spaces n
trim_end-append (k ∷ ks) n = rw (trim_end-append ks n) refl

trim_both-append :
    (ks : List Chunk) (n : ℕ) → trim_end (trim_left (ks ++ spaces n)) ≡ trim_end (trim_left ks)
unfolding trim_left
trim_both-append [] n = ap trim_end (trim_left-spaces n)
trim_both-append (k ∷ ks) n = elim (Bool-cases (is_space k.rune)) [
  | inl e ↦ rw e (trim_both-append ks n)
  | inr e ↦ rw e (trim_end-append (k ∷ ks) n)
]

-- Spaces behind a text are trimmed.
pub trim_space-append :
    (s : Bytes) (n : ℕ) → all is_text s ≡ true → trim_space (s ++ replicate n b' ') ≡ trim_space s
unfolding trim_space
trim_space-append s n h =
    rw
      (
        chunks-text (s ++ replicate n b' ') (all-append is_text s _ h (spaces-text n)),
        chunks-text s h,
        map-append s (replicate n b' '),
      )
      (ap unchunk (trim_both-append (map chunk_of s) n))

-- the last character is printable, and no space
abbrev pub ends_plain : Bytes → Bool
ends_plain [] = false
ends_plain (c ∷ []) = is_plain c
ends_plain (c ∷ d ∷ s) = ends_plain (d ∷ s)

abbrev pub starts_plain : Bytes → Bool
starts_plain [] = false
starts_plain (c ∷ s) = is_plain c

pub ends_plain-append : (s v : Bytes) → ends_plain v ≡ true → ends_plain (s ++ v) ≡ true
ends_plain-append [] v h = h
ends_plain-append (c ∷ []) [] h = absurd (ground arith)
ends_plain-append (c ∷ []) (d ∷ v) h = h
ends_plain-append (c ∷ d ∷ s) v h = ends_plain-append (d ∷ s) v h

pub starts_plain-append : (s v : Bytes) → starts_plain s ≡ true → starts_plain (s ++ v) ≡ true
starts_plain-append [] v h = absurd (ground arith)
starts_plain-append (c ∷ s) v h = h

pub plain-ends : (c : ℕ) (s : Bytes) → all is_plain (c ∷ s) ≡ true → ends_plain (c ∷ s) ≡ true
plain-ends c [] h = ground arith
plain-ends c (d ∷ s) h = plain-ends d s (ground arith)

plain-is_space : (c : ℕ) → is_plain c ≡ true → is_space c ≡ false
unfolding is_space
plain-is_space c h = ground arith

trim_end-same : (s : Bytes) → ends_plain s ≡ true → trim_end (map chunk_of s) ≡ map chunk_of s
unfolding trim_end
trim_end-same [] h = refl
trim_end-same (c ∷ []) h = rw (plain-is_space c h) refl
trim_end-same (c ∷ d ∷ s) h = rw (trim_end-same (d ∷ s) h) refl

trim_left-same : (s : Bytes) → starts_plain s ≡ true → trim_left (map chunk_of s) ≡ map chunk_of s
unfolding trim_left
trim_left-same [] h = refl
trim_left-same (c ∷ s) h = rw (plain-is_space c h) refl

-- A text without a space at either end is left as it is.
pub trim_space-same :
    (s : Bytes)
    → all is_text s ≡ true
    → starts_plain s ≡ true
    → ends_plain s ≡ true
    → trim_space s ≡ s
unfolding trim_space
trim_space-same s h a b =
    rw (chunks-text s h, trim_left-same s a, trim_end-same s b) (unchunk-map s)

trim_space-nil : trim_space [] ≡ []
unfolding trim_space chunks trim_left trim_end unchunk
trim_space-nil = refl

pub trim_space-plain : (s : Bytes) → all is_plain s ≡ true → trim_space s ≡ s
trim_space-plain [] h = trim_space-nil
trim_space-plain (c ∷ s) h =
    trim_space-same (c ∷ s) (plain-text (c ∷ s) h) (ground arith) (plain-ends c s h)

-- A plain word in front of spaces is what is left.
pub trim_space-pad :
    (s : Bytes) (n : ℕ) → all is_plain s ≡ true → trim_space (s ++ replicate n b' ') ≡ s
trim_space-pad s n h = trim_space-append s n (plain-text s h) ∙ trim_space-plain s h

-- Nothing is cut off a text without the characters to cut.
pub trim_right-same : (p : ℕ → Bool) (s : Bytes) → any p s ≡ false → trim_right p s ≡ s
unfolding trim_right
trim_right-same p [] h = refl
trim_right-same p (c ∷ s) h = ground (arith, trim_right-same p s)
