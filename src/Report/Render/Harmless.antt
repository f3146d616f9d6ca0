-- ===== src/Report/Render/Harmless.antt =====
-- The cells of a raw CSV report do not begin like a formula.
use field_cage.Base.{
  Bool, true, not, append-nil, List, [], ◌∷◌, ◌++◌, All, map, append_assoc, ◌≡◌, refl, sym, subst,
  ◌∙◌, arith, all, Bool-cases, inl, inr,
}
use field_cage.Text.Bytes.{Bytes, is_empty}
use field_cage.Text.Number.{decimal}
use field_cage.Text.Decimal.{is_digit, decimal-digits}
use field_cage.Net.Ip.{Ip}
use field_cage.Net.Ip.Chars.{is_address_char, string-IsMade}
use field_cage.Report.Parse
use field_cage.Report.Parse.{Event, ip_string}
use field_cage.Report.Render.Escape.{csv_formula_guard, is_formula_start}
use field_cage.Report.Render.Csv.{
  RawCsv, new_raw_csv, csv_raw_header, csv_raw_row, with_header, write_event, close_raw,
}

-- a cell that a spreadsheet does not take for a formula
abbrev pub is_harmless : Bytes → Bool
is_harmless [] = true
is_harmless (c ∷ s) = not (is_formula_start c)

abbrev pub IsHarmless : Bytes → Type 0
IsHarmless s = is_harmless s ≡ true

guarded-IsHarmless : (s : Bytes) → IsHarmless (csv_formula_guard s)
unfolding csv_formula_guard is_formula_start
guarded-IsHarmless [] = refl
guarded-IsHarmless (c ∷ s) = elim (Bool-cases (is_formula_start c)) [
  | inl a ↦ rw (a, csv_formula_guard) refl
  | inr a ↦ rw (a, csv_formula_guard) (ground arith)
]

digits-IsHarmless : (s : Bytes) → all is_digit s ≡ true → IsHarmless s
unfolding is_formula_start
digits-IsHarmless [] h = refl
digits-IsHarmless (c ∷ s) h = ground arith

address-IsHarmless : (s : Bytes) → all is_address_char s ≡ true → IsHarmless s
unfolding is_formula_start
address-IsHarmless [] h = refl
address-IsHarmless (c ∷ s) h = ground arith

ip_string-IsHarmless : (ip : Ip) → IsHarmless (ip_string ip)
unfolding ip_string
ip_string-IsHarmless ip = elim (Bool-cases (is_empty ip)) [
  | inl a ↦ rw (a, ip_string) refl
  | inr a ↦ rw (a, ip_string) (address-IsHarmless _ (string-IsMade ip a))
]

csv_raw_row-IsHarmless : (ev : Event) → IsHarmless ev.verdict → All IsHarmless (csv_raw_row ev)
unfolding csv_raw_row
csv_raw_row-IsHarmless ev h = (
  h,
  (
    digits-IsHarmless (decimal ev.pid) (decimal-digits ev.pid),
    (
      digits-IsHarmless (decimal ev.tgid) (decimal-digits ev.tgid),
      (
        guarded-IsHarmless ev.comm,
        (
          guarded-IsHarmless (Parse.destination ev),
          (
            guarded-IsHarmless ev.domain,
            (
              ip_string-IsHarmless ev.ip,
              (digits-IsHarmless (decimal ev.port) (decimal-digits ev.port), tt),
            ),
          ),
        ),
      ),
    ),
  ),
)

-- the events of a log in their order
unfoldable pub write_events : RawCsv → List Event → RawCsv
unfolding write_event
write_events r [] = r
write_events r (ev ∷ evs) = write_events (write_event r ev) evs

-- behind the header, each event is a row
write_events-headed :
    (evs : List Event) (rows : List (List Bytes))
    → (close_raw (write_events (record { header = true; rows = rows }) evs)).rows
      ≡ rows ++ map csv_raw_row evs
unfolding write_events close_raw write_event with_header
write_events-headed [] rows = sym (append-nil rows)
write_events-headed (ev ∷ evs) rows =
    write_events-headed evs (rows ++ csv_raw_row ev ∷ [])
    ∙ append_assoc rows (csv_raw_row ev ∷ []) (map csv_raw_row evs)

map-IsHarmless :
    (evs : List Event)
    → All (λ (ev : Event). IsHarmless ev.verdict) evs
    → All (All IsHarmless) (map csv_raw_row evs)
map-IsHarmless [] h = tt
map-IsHarmless (ev ∷ evs) h = (csv_raw_row-IsHarmless ev h.0, map-IsHarmless evs h.1)

-- the rows of a report that was closed
abbrev pub closed_rows : List Event → List (List Bytes)
closed_rows evs = (close_raw (write_events new_raw_csv evs)).rows

closed_rows-headed : (evs : List Event) → closed_rows evs ≡ csv_raw_header ∷ map csv_raw_row evs
unfolding write_events close_raw write_event with_header
closed_rows-headed [] = refl
closed_rows-headed (ev ∷ evs) = write_events-headed evs (csv_raw_header ∷ csv_raw_row ev ∷ [])

header-IsHarmless : All IsHarmless csv_raw_header
unfolding is_formula_start
header-IsHarmless = (refl, (refl, (refl, (refl, (refl, (refl, (refl, (refl, tt))))))))

-- A raw CSV report is the header, once, and a row for each event in order, whether there are events
-- or not; and no cell begins like a formula, whatever the names and the address, if no verdict does.
pub write_events-IsHarmless :
    (evs : List Event)
    → All (λ (ev : Event). IsHarmless ev.verdict) evs
    → (closed_rows evs ≡ csv_raw_header ∷ map csv_raw_row evs)
      × All (All IsHarmless) (closed_rows evs)
write_events-IsHarmless evs h =
    let same = closed_rows-headed evs in
    (same, subst (All (All IsHarmless)) (sym same) (header-IsHarmless, map-IsHarmless evs h))
