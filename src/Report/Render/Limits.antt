-- ===== src/Report/Render/Limits.antt =====
-- What a limit on the rows shows and leaves out.
use field_cage.Base.{
  ℕ, zero, suc, ◌-◌, ◌≤◌, ◌||◌, List, [], ◌∷◌, ◌++◌, ◌==◌, leb, length, take, drop, ◌≡◌, ◌⊎◌, refl,
  arith, Bool-cases, inl, inr, append-nil,
}
use field_cage.Report.Summary.Order.{DestStat}
use field_cage.Report.Render.Rows.{Limited, limit_rows}

-- The rows are split at the limit.
pub record Splits (rows : List DestStat) (top : ℕ) (l : Limited) : Type 0 where
  pub rest : List DestStat
  pub joined : l.shown ++ rest ≡ rows
  pub omitted : length rest ≡ l.omitted
  pub within_top : (top ≡ 0) ⊎ (length l.shown ≤ top)

take-drop : (n : ℕ) (xs : List DestStat) → take n xs ++ drop n xs ≡ xs
take-drop zero xs = refl
take-drop (suc n) [] = refl
take-drop (suc n) (x ∷ xs) = cc (take-drop n xs)

length-drop : (n : ℕ) (xs : List DestStat) → length (drop n xs) ≡ length xs - n
length-drop zero xs = omega arith
length-drop (suc n) [] = omega arith
length-drop (suc n) (x ∷ xs) = omega (arith, length-drop n xs)

length-take : (n : ℕ) (xs : List DestStat) → length (take n xs) ≤ n
length-take zero xs = omega arith
length-take (suc n) [] = omega arith
length-take (suc n) (x ∷ xs) = omega (arith, length-take n xs)

-- The rows that are shown begin the list, no more than the limit if there is one, and the number that
-- is omitted is that of the rest.
pub limit_rows-Splits : (rows : List DestStat) (top : ℕ) → Splits rows top (limit_rows rows top)
unfolding limit_rows
limit_rows-Splits rows top = elim (Bool-cases (top == 0 || leb (length rows) top)) [
  | inl a ↦
      rw (a, limit_rows)
        (record { rest = []; joined = append-nil rows; omitted = refl; within_top = ground arith })
  | inr a ↦
      rw (a, limit_rows)
        (record {
          rest = drop top rows;
          joined = take-drop top rows;
          omitted = length-drop top rows;
          within_top = inr (length-take top rows);
        })
]
