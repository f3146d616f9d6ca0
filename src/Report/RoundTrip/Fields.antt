-- ===== src/Report/RoundTrip/Fields.antt =====
-- The fields in front of the destination, read back by `cutField`, and the texts that `sanitize`
-- leaves as they are.
use field_cage.Base.{
  ℕ, zero, suc, ◌-◌, ◌≤◌, true, false, ◌||◌, not, [], ◌∷◌, ◌++◌, some, all, length, map, replicate,
  ◌==◌, ◌≡◌, refl, ap, sym, subst, ◌∙◌, arith, if◌then◌else◌, append_assoc, ok,
}
use field_cage.Text.Bytes.{Bytes, cut_first}
use field_cage.Text.Equal.{cut_prefix-append}
use field_cage.Text.Utf8.{chunks, encode_rune, rune_error}
use field_cage.Text.Case.{Tables, is_print}
use field_cage.Text.Ascii.{
  is_text, is_plain, chunk_of, all-append, all-has_byte, spaces-text, chunks-text,
}
use field_cage.Text.Trim.{trim_space-pad}
use field_cage.Text.Search.{cut_first-word, cut_first-spaces}
use field_cage.Report.Verdict.{pad}
use field_cage.Report.Parse.{cut_field, sanitize, sanitize_chunks}

-- the spaces behind a text
pub pad-spaces : (n : ℕ) (s : Bytes) → (k : ℕ) × (pad n s ≡ s ++ replicate k b' ')
unfolding pad
pad-spaces n s = (_, refl)

pub pad-text : (n : ℕ) (s : Bytes) → all is_text s ≡ true → all is_text (pad n s) ≡ true
unfolding pad
pad-text n s h = all-append is_text s _ h (spaces-text (n - length (chunks s)))

-- `cutField` reads a padded word back, up to a marker that begins with a single space.
pub cut_field-pad :
    (key w : Bytes) (n d : ℕ) (p rest : Bytes)
    → all is_plain w ≡ true
    → (b' ' == d) ≡ false
    → cut_field (key ++ (pad n w ++ ((b' ' ∷ d ∷ p) ++ rest))) key (b' ' ∷ d ∷ p)
      ≡ ok (w, (b' ' ∷ d ∷ p) ++ rest)
unfolding cut_field pad
cut_field-pad key w n d p rest h k =
    let spaces = replicate (n - length (chunks w)) b' ' in
    let next = b' ' ∷ d ∷ p in
    let found : cut_first next ((w ++ spaces) ++ (next ++ rest)) ≡ some (w ++ spaces, rest) =
      subst (λ s. cut_first next s ≡ some (w ++ spaces, rest))
        (sym (append_assoc w spaces (next ++ rest)))
        (cut_first-word b' ' (d ∷ p) w _ spaces rest (all-has_byte is_plain b' ' w refl h)
          (cut_first-spaces d p rest (n - length (chunks w)) k)) in
    rw
      (
        cut_prefix-append key (pad n w ++ (next ++ rest)),
        found,
        trim_space-pad w (n - length (chunks w)) h,
        cut_field,
      )
      refl

sanitized-same :
    (t : Tables) (c : ℕ)
    → is_text c ≡ true
    → (if c == rune_error || not (is_print t c) then b'?' ∷ [] else encode_rune c) ≡ c ∷ []
unfolding is_print encode_rune
sanitized-same t c h = ground arith

sanitize_chunks-text :
    (t : Tables) (n : ℕ) (s : Bytes)
    → all is_text s ≡ true
    → length s ≤ n
    → sanitize_chunks t n (map chunk_of s) ≡ s
unfolding sanitize_chunks
sanitize_chunks-text t n [] h l = refl
sanitize_chunks-text t zero (c ∷ s) h l = absurd (omega (arith, l))
sanitize_chunks-text t (suc n) (c ∷ s) h l =
    ap (λ r. r ++ sanitize_chunks t n (map chunk_of s)) (sanitized-same t c (ground arith))
    ∙ ap (λ r. c ∷ r) (sanitize_chunks-text t n s (ground arith) (omega (arith, l)))

-- A printable ASCII text within the limit is left as it is.
pub sanitize-text :
    (t : Tables) (s : Bytes) (n : ℕ) → all is_text s ≡ true → length s ≤ n → sanitize t s n ≡ s
unfolding sanitize
sanitize-text t s n h l = rw (chunks-text s h) (sanitize_chunks-text t n s h l)
