-- ===== src/Report/Render/Rows.antt =====
-- `limitRows` and `processList`.
use field_cage.Base.{ℕ, ◌-◌, ◌||◌, List, ◌++◌, ◌==◌, leb, ltb, if◌then◌else◌, length, take}
use field_cage.Text.Bytes.{Bytes, codes, is_empty, join}
use field_cage.Text.Number.{decimal}
use field_cage.Report.Summary.Order.{DestStat}

-- The rows to show, and how many are left out; a limit of 0 is none.
pub record Limited : Type 0 where
  pub shown : List DestStat
  pub omitted : ℕ

unfoldable pub limit_rows : List DestStat → ℕ → Limited
limit_rows rows top =
    if top == 0 || leb (length rows) top
    then record { shown = rows; omitted = 0 }
    else record { shown = take top rows; omitted = length rows - top }

-- the processes with a mark for the dropped ones
unfoldable pub list_processes : Bytes → DestStat → Bytes
list_processes sep d =
    let names = join d.processes sep in
    if ltb 0 d.more_processes
    then (if is_empty names then names else names ++ sep)
      ++ (codes "+" ++ (decimal d.more_processes ++ codes " more"))
    else names

-- `processList`
unfoldable pub process_list : DestStat → Bytes
unfolding list_processes
process_list d = let s = list_processes (codes ",") d in if is_empty s then codes "-" else s
