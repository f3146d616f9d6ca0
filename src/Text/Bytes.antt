-- ===== src/Text/Bytes.antt =====
-- Byte strings: equality, the search for a prefix, a suffix or a substring, and splitting.
use Prim.Native.Char.{code}
use Prim.Native.String.{String}
use mathlib.Core.Option
use field_cage.Base.{
  ℕ, Bool, true, false, ◌||◌, ◌&&◌, List, [], ◌∷◌, ◌++◌, Option, none, some, ◌==◌, if◌then◌else◌,
  any, ltb,
}

abbrev pub Bytes : Type 0
Bytes = List ℕ

-- The code points of a literal, which are its bytes when it is ASCII.
abbrev pub codes : String → Bytes
codes String.[] = []
codes (String.◌∷◌ c s) = code c ∷ codes s

-- `a == b` on strings
unfoldable pub equal : Bytes → Bytes → Bool
equal [] [] = true
equal [] (y ∷ ys) = false
equal (x ∷ xs) [] = false
equal (x ∷ xs) (y ∷ ys) = x == y && equal xs ys

-- `s == ""`
abbrev pub is_empty {ℓ} : {A : Type ℓ} → List A → Bool
is_empty [] = true
is_empty (c ∷ s) = false

-- `a < b` on strings, byte by byte
unfoldable pub less : Bytes → Bytes → Bool
less xs [] = false
less [] (y ∷ ys) = true
less (x ∷ xs) (y ∷ ys) = ltb x y || (x == y && less xs ys)

-- strings.CutPrefix: what follows the prefix `p`
unfoldable pub cut_prefix : Bytes → Bytes → Option Bytes
cut_prefix [] s = some s
cut_prefix (c ∷ p) [] = none
cut_prefix (c ∷ p) (d ∷ s) = if c == d then cut_prefix p s else none

-- strings.HasPrefix
unfoldable pub has_prefix : Bytes → Bytes → Bool
unfolding cut_prefix
has_prefix s p = elim (cut_prefix p s) [ none ↦ false | some rest ↦ true ]

-- strings.TrimPrefix
unfoldable pub trim_prefix : Bytes → Bytes → Bytes
unfolding cut_prefix
trim_prefix s p = elim (cut_prefix p s) [ none ↦ s | some rest ↦ rest ]

-- strings.HasSuffix
unfoldable pub has_suffix : Bytes → Bytes → Bool
unfolding equal
has_suffix [] p = equal [] p
has_suffix (c ∷ s) p = equal (c ∷ s) p || has_suffix s p

-- strings.CutSuffix: what stands in front of the suffix `p`
unfoldable pub cut_suffix : Bytes → Bytes → Option Bytes
unfolding equal
cut_suffix [] p = if equal [] p then some [] else none
cut_suffix (c ∷ s) p =
    let rest = cut_suffix s p in if equal (c ∷ s) p then some [] else Option.map (λ r. c ∷ r) rest

-- strings.TrimSuffix
unfoldable pub trim_suffix : Bytes → Bytes → Bytes
unfolding cut_suffix
trim_suffix s p = elim (cut_suffix s p) [ none ↦ s | some rest ↦ rest ]

-- The first `sep` of a text: what stands in front of it, and what follows it. Both slices that the
-- program takes at strings.Index are read off this.
unfoldable pub cut_first : Bytes → Bytes → Option (Bytes × Bytes)
unfolding cut_prefix
cut_first sep [] = elim (cut_prefix sep []) [ none ↦ none | some rest ↦ some ([], rest) ]
cut_first sep (c ∷ s) = elim (cut_prefix sep (c ∷ s)) [
  | some rest ↦ some ([], rest)
  | none ↦ Option.map (λ (p : Bytes × Bytes). (c ∷ p.0, p.1)) (cut_first sep s)
]

-- The last `sep` of a text, for strings.LastIndex.
unfoldable pub cut_last : Bytes → Bytes → Option (Bytes × Bytes)
unfolding cut_prefix
cut_last sep [] = elim (cut_prefix sep []) [ none ↦ none | some rest ↦ some ([], rest) ]
cut_last sep (c ∷ s) = elim (cut_last sep s) [
  | some p ↦ some (c ∷ p.0, p.1)
  | none ↦ elim (cut_prefix sep (c ∷ s)) [ none ↦ none | some rest ↦ some ([], rest) ]
]

-- strings.Contains
unfoldable pub contains : Bytes → Bytes → Bool
unfolding cut_first
contains s sep = elim (cut_first sep s) [ none ↦ false | some p ↦ true ]

-- strings.Contains, and strings.IndexByte against -1, for one byte
abbrev pub has_byte : Bytes → ℕ → Bool
has_byte s b = any (λ c. c == b) s

abbrev pub onto_first : ℕ → List Bytes → List Bytes
onto_first c [] = (c ∷ []) ∷ []
onto_first c (p ∷ ps) = (c ∷ p) ∷ ps

-- strings.Split at one byte
unfoldable pub split : Bytes → ℕ → List Bytes
split [] sep = [] ∷ []
split (c ∷ s) sep = let rest = split s sep in if c == sep then [] ∷ rest else onto_first c rest

-- strings.Join
unfoldable pub join : List Bytes → Bytes → Bytes
join [] sep = []
join (p ∷ []) sep = p
join (p ∷ q ∷ ps) sep = p ++ (sep ++ join (q ∷ ps) sep)

-- strings.ReplaceAll of one byte
unfoldable pub replace_byte : ℕ → Bytes → Bytes → Bytes
replace_byte b new [] = []
replace_byte b new (c ∷ s) = (if c == b then new else c ∷ []) ++ replace_byte b new s

-- strings.TrimRight with a set of bytes
unfoldable pub trim_right : (ℕ → Bool) → Bytes → Bytes
trim_right cut [] = []
trim_right cut (c ∷ s) =
    let rest = trim_right cut s in if is_empty rest && cut c then [] else c ∷ rest
