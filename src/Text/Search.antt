-- ===== src/Text/Search.antt =====
-- The search for a separator in texts that are put together around it.
use field_cage.Base.{
  ℕ, zero, suc, false, [], ◌∷◌, ◌++◌, none, some, append-nil, replicate, ◌==◌, ◌≡◌, refl, ap, ◌∙◌,
  arith,
}
use field_cage.Text.Bytes.{
  Bytes, cut_prefix, cut_first, cut_last, cut_suffix, trim_suffix, has_suffix, equal, has_byte,
}
use field_cage.Text.Equal.{cut_prefix-append}

-- a separator is not found at another character than its first one
cut_prefix-other : (b c : ℕ) (p s : Bytes) → (b == c) ≡ false → cut_prefix (b ∷ p) (c ∷ s) ≡ none
unfolding cut_prefix
cut_prefix-other b c p s h = ground arith

two_spaces :
    (d : ℕ) (p s : Bytes) (n : ℕ)
    → (b' ' == d) ≡ false
    → cut_prefix (b' ' ∷ d ∷ p) (b' ' ∷ (replicate n b' ' ++ ((b' ' ∷ d ∷ p) ++ s))) ≡ none
unfolding cut_prefix
two_spaces d p s zero h = ground arith
two_spaces d p s (suc n) h = ground arith

cut_prefix-second :
    (d c : ℕ) (p s : Bytes) → (d == c) ≡ false → cut_prefix (b' ' ∷ d ∷ p) (b' ' ∷ c ∷ s) ≡ none
unfolding cut_prefix
cut_prefix-second d c p s h = ground arith

cut_suffix-step :
    (p : Bytes) (c : ℕ) (s r : Bytes)
    → equal (c ∷ s) p ≡ false
    → cut_suffix s p ≡ some r
    → cut_suffix (c ∷ s) p ≡ some (c ∷ r)
unfolding cut_suffix
cut_suffix-step p c s r h k = rw (h, k, cut_suffix) refl

longer-equal : (c : ℕ) (s : Bytes) (b d : ℕ) → equal (c ∷ (s ++ d ∷ [])) (b ∷ []) ≡ false
unfolding equal
longer-equal c [] b d = ground arith
longer-equal c (e ∷ s) b d = ground arith

cut_suffix-append : (s : Bytes) (b : ℕ) → cut_suffix (s ++ b ∷ []) (b ∷ []) ≡ some s
unfolding cut_suffix equal
cut_suffix-append [] b = ground arith
cut_suffix-append (c ∷ s) b =
    cut_suffix-step (b ∷ []) c (s ++ b ∷ []) s (longer-equal c s b b) (cut_suffix-append s b)

pub cut_first-found : (sep s r : Bytes) → cut_prefix sep s ≡ some r → cut_first sep s ≡ some ([], r)
unfolding cut_first
cut_first-found sep [] r h = rw (h, cut_first) refl
cut_first-found sep (c ∷ s) r h = rw (h, cut_first) refl

cut_first-skip :
    (sep : Bytes) (c : ℕ) (s : Bytes) (a r : Bytes)
    → cut_prefix sep (c ∷ s) ≡ none
    → cut_first sep s ≡ some (a, r)
    → cut_first sep (c ∷ s) ≡ some (c ∷ a, r)
unfolding cut_first
cut_first-skip sep c s a r h k = rw (h, k, cut_first) refl

-- A text without the first character of the separator is passed over.
pub cut_first-word :
    (b : ℕ) (p w s a r : Bytes)
    → has_byte w b ≡ false
    → cut_first (b ∷ p) s ≡ some (a, r)
    → cut_first (b ∷ p) (w ++ s) ≡ some (w ++ a, r)
cut_first-word b p [] s a r h k = k
cut_first-word b p (c ∷ w) s a r h k =
    cut_first-skip (b ∷ p) c (w ++ s) (w ++ a) r (cut_prefix-other b c p (w ++ s) (ground arith))
      (cut_first-word b p w s a r (ground arith) k)

-- The first separator behind spaces, for one that begins with a single space.
pub cut_first-spaces :
    (d : ℕ) (p s : Bytes) (n : ℕ)
    → (b' ' == d) ≡ false
    → cut_first (b' ' ∷ d ∷ p) (replicate n b' ' ++ ((b' ' ∷ d ∷ p) ++ s))
      ≡ some (replicate n b' ', s)
cut_first-spaces d p s zero h =
    cut_first-found (b' ' ∷ d ∷ p) _ s (cut_prefix-append (b' ' ∷ d ∷ p) s)
cut_first-spaces d p s (suc n) h =
    cut_first-skip (b' ' ∷ d ∷ p) b' ' _ _ s (two_spaces d p s n h) (cut_first-spaces d p s n h)

pub cut_last-behind :
    (sep w s a r : Bytes) → cut_last sep s ≡ some (a, r) → cut_last sep (w ++ s) ≡ some (w ++ a, r)
unfolding cut_last
cut_last-behind sep [] s a r h = h
cut_last-behind sep (c ∷ w) s a r h = rw (cut_last-behind sep w s a r h) refl

cut_last-skip :
    (sep : Bytes) (c : ℕ) (s : Bytes)
    → cut_prefix sep (c ∷ s) ≡ none
    → cut_last sep s ≡ none
    → cut_last sep (c ∷ s) ≡ none
unfolding cut_last
cut_last-skip sep c s h k = rw (k, h, cut_last) refl

cut_last-found :
    (sep : Bytes) (c : ℕ) (s r : Bytes)
    → cut_prefix sep (c ∷ s) ≡ some r
    → cut_last sep s ≡ none
    → cut_last sep (c ∷ s) ≡ some ([], r)
unfolding cut_last
cut_last-found sep c s r h k = rw (k, h, cut_last) refl

pub cut_last-word :
    (b : ℕ) (p w s : Bytes)
    → has_byte w b ≡ false
    → cut_last (b ∷ p) s ≡ none
    → cut_last (b ∷ p) (w ++ s) ≡ none
cut_last-word b p [] s h k = k
cut_last-word b p (c ∷ w) s h k =
    cut_last-skip (b ∷ p) c (w ++ s) (cut_prefix-other b c p (w ++ s) (ground arith))
      (cut_last-word b p w s (ground arith) k)

pub cut_last-nil : (b : ℕ) (p : Bytes) → cut_last (b ∷ p) [] ≡ none
unfolding cut_last cut_prefix
cut_last-nil b p = refl

-- a separator at a space that another character follows
pub cut_last-space :
    (d c : ℕ) (p s : Bytes)
    → (d == c) ≡ false
    → cut_last (b' ' ∷ d ∷ p) (c ∷ s) ≡ none
    → cut_last (b' ' ∷ d ∷ p) (b' ' ∷ c ∷ s) ≡ none
cut_last-space d c p s h k =
    cut_last-skip (b' ' ∷ d ∷ p) b' ' (c ∷ s) (cut_prefix-second d c p s h) k

-- The last separator, which does not occur again behind it.
pub cut_last-here :
    (b : ℕ) (p s : Bytes)
    → has_byte p b ≡ false
    → cut_last (b ∷ p) s ≡ none
    → cut_last (b ∷ p) ((b ∷ p) ++ s) ≡ some ([], s)
cut_last-here b p s h k =
    cut_last-found (b ∷ p) b (p ++ s) s (cut_prefix-append (b ∷ p) s) (cut_last-word b p p s h k)

-- The last separator behind a text.
pub cut_last-append :
    (b : ℕ) (p w s : Bytes)
    → has_byte p b ≡ false
    → cut_last (b ∷ p) s ≡ none
    → cut_last (b ∷ p) (w ++ ((b ∷ p) ++ s)) ≡ some (w, s)
cut_last-append b p w s h k =
    cut_last-behind (b ∷ p) w ((b ∷ p) ++ s) [] s (cut_last-here b p s h k)
    ∙ ap (λ a. some (a, s)) (append-nil w)

-- A suffix of one byte is trimmed.
pub trim_suffix-append : (s : Bytes) (b : ℕ) → trim_suffix (s ++ b ∷ []) (b ∷ []) ≡ s
unfolding trim_suffix
trim_suffix-append s b = rw (cut_suffix-append s b, trim_suffix) refl

-- A text without a byte does not end with it.
pub has_suffix-none : (s : Bytes) (b : ℕ) → has_byte s b ≡ false → has_suffix s (b ∷ []) ≡ false
unfolding has_suffix equal
has_suffix-none [] b h = refl
has_suffix-none (c ∷ s) b h = ground (arith, has_suffix-none s b)

-- A text without the first character of a separator does not hold the separator.
pub cut_last-free : (b : ℕ) (p s : Bytes) → has_byte s b ≡ false → cut_last (b ∷ p) s ≡ none
cut_last-free b p [] h = cut_last-nil b p
cut_last-free b p (c ∷ s) h =
    cut_last-skip (b ∷ p) c s (cut_prefix-other b c p s (ground arith))
      (cut_last-free b p s (ground arith))
