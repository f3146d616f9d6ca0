-- ===== src/Report/Scan/Lines.antt =====
-- The lines that bufio.Scanner finds in an output of printed lines.
use field_cage.Base.{
  Bool, true, false, ltb, length, if◌then◌else◌, ◌==◌, Bool-cases, inl, inr, List, [], ◌∷◌, ◌++◌,
  none, All, all, map, ◌≡◌, refl, ap, ◌∙◌, arith,
}
use field_cage.Text.Bytes.{Bytes, codes, split, equal, cut_suffix, trim_suffix}
use field_cage.Text.Ascii.{is_text}
use field_cage.Report.Parse.{scan_buffer_max}
use field_cage.Report.Scan.{scan_lines, drop_last_empty, drop_return}

-- a printable ASCII text
abbrev pub IsText : Bytes → Type 0
IsText l = all is_text l ≡ true

-- what `fmt.Println` writes for lines
abbrev pub output : List Bytes → Bytes
output [] = []
output (l ∷ ls) = l ++ b'\n' ∷ output ls

split-line : (l rest : Bytes) → IsText l → split (l ++ b'\n' ∷ rest) b'\n' ≡ l ∷ split rest b'\n'
unfolding split
split-line [] rest h = refl
split-line (c ∷ l) rest h = ground (arith, split-line l rest)

split-filled : (s : Bytes) → (p : Bytes) × (ps : List Bytes) × (split s b'\n' ≡ p ∷ ps)
unfolding split
split-filled [] = ([], [], refl)
split-filled (c ∷ s) =
    let (p, ps, e) = split-filled s in
    elim (Bool-cases (c == b'\n')) [
      | inl h ↦ ([], split s b'\n', rw h refl)
      | inr h ↦ (c ∷ p, ps, rw (h, e) refl)
    ]

drop_last_empty-output :
    (ls : List Bytes) → All IsText ls → drop_last_empty (split (output ls) b'\n') ≡ ls
unfolding split drop_last_empty
drop_last_empty-output [] h = refl
drop_last_empty-output (l ∷ ls) h =
    let (p, ps, e) = split-filled (output ls) in
    let rest = rw e at (drop_last_empty-output ls h.1) in
    rw (split-line l (output ls) h.0, e) (ap (λ r. l ∷ r) rest)

cut_suffix-none : (s : Bytes) → IsText s → cut_suffix s (codes "\r") ≡ none
unfolding cut_suffix equal
cut_suffix-none [] h = refl
cut_suffix-none (c ∷ s) h = ground (arith, cut_suffix-none s)

if_same : (b : Bool) (s : Bytes) → (if b then s else s) ≡ s
if_same true s = refl
if_same false s = refl

drop_return-text : (s : Bytes) → IsText s → drop_return s ≡ s
unfolding drop_return trim_suffix
drop_return-text s h =
    let kept : trim_suffix s (codes "\r") ≡ s = rw (cut_suffix-none s h, trim_suffix) refl in
    rw kept (if_same (ltb (length s) scan_buffer_max) s)

map-drop_return : (ls : List Bytes) → All IsText ls → map drop_return ls ≡ ls
map-drop_return [] h = refl
map-drop_return (l ∷ ls) h =
    let a = drop_return-text l h.0 in let b = map-drop_return ls h.1 in rw (a, b) refl

-- The scanner finds the lines again that were printed, when they are printable ASCII.
pub scan_lines-output : (ls : List Bytes) → All IsText ls → scan_lines (output ls) ≡ ls
unfolding scan_lines
scan_lines-output ls h = ap (map drop_return) (drop_last_empty-output ls h) ∙ map-drop_return ls h
