-- ===== src/Base/Slots.antt =====
-- The slots of a Go slice: reading one, and storing into one.
use Prim.Native.Nat.{ℕ, zero, suc, ◌<◌}
use mathlib.Core.Path.{◌≡◌, refl, ap}
use mathlib.Core.Logic.{◌⊎◌, inl, inr}
use mathlib.Core.Bool.{false}
use mathlib.Core.Option.{Option, none, some}
use mathlib.Core.List.{List, [], ◌∷◌, ◌++◌, map}
use native.Mathlib.Omega.{arith}
use field_cage.Base.Tests.{◌==◌}
use field_cage.Base.Lists.{length, All, Any}

module _ {ℓ} {A : Type ℓ} where
  abbrev pub get_elem? : List A → ℕ → Option A
  get_elem? [] i = none
  get_elem? (x ∷ xs) zero = some x
  get_elem? (x ∷ xs) (suc i) = get_elem? xs i

  abbrev pub store_at : ℕ → A → List A → List A
  store_at i a [] = []
  store_at zero a (x ∷ xs) = a ∷ xs
  store_at (suc i) a (x ∷ xs) = x ∷ store_at i a xs

  pub length-store_at : (i : ℕ) (a : A) (xs : List A) → length (store_at i a xs) ≡ length xs
  length-store_at i a [] = refl
  length-store_at zero a (x ∷ xs) = refl
  length-store_at (suc i) a (x ∷ xs) = ap suc (length-store_at i a xs)

  -- the slot itself holds what was stored
  pub get_elem?-store_at :
      (i : ℕ) (a : A) (xs : List A) → i < length xs → get_elem? (store_at i a xs) i ≡ some a
  get_elem?-store_at i a [] h = absurd (omega (arith, h))
  get_elem?-store_at zero a (x ∷ xs) h = refl
  get_elem?-store_at (suc i) a (x ∷ xs) h = get_elem?-store_at i a xs (omega (arith, h))

  -- the others hold what they held
  pub get_elem?-store_at_other :
      (i j : ℕ) (a : A) (xs : List A)
      → (i == j) ≡ false
      → get_elem? (store_at i a xs) j ≡ get_elem? xs j
  get_elem?-store_at_other i j a [] h = refl
  get_elem?-store_at_other zero zero a (x ∷ xs) h = absurd (ground arith)
  get_elem?-store_at_other zero (suc j) a (x ∷ xs) h = refl
  get_elem?-store_at_other (suc i) zero a (x ∷ xs) h = refl
  get_elem?-store_at_other (suc i) (suc j) a (x ∷ xs) h =
      get_elem?-store_at_other i j a xs (ground arith)

  pub get_elem?_lt : (xs : List A) (i : ℕ) (a : A) → get_elem? xs i ≡ some a → i < length xs
  get_elem?_lt [] i a h = absurd (ground arith)
  get_elem?_lt (x ∷ xs) zero a h = omega arith
  get_elem?_lt (x ∷ xs) (suc i) a h = omega (arith, get_elem?_lt xs i a h)

  -- lists with the same slots are the same
  pub eq_of_get_elem? : (xs ys : List A) → ((i : ℕ) → get_elem? xs i ≡ get_elem? ys i) → xs ≡ ys
  eq_of_get_elem? [] [] h = refl
  eq_of_get_elem? [] (y ∷ ys) h = let e = h 0 in absurd (ground arith)
  eq_of_get_elem? (x ∷ xs) [] h = let e = h 0 in absurd (ground arith)
  eq_of_get_elem? (x ∷ xs) (y ∷ ys) h =
      let head = h 0 in let tail = eq_of_get_elem? xs ys (λ i. h (suc i)) in ground arith

module _ {ℓ κ} {A : Type ℓ} {B : Type κ} (f : A → B) where
  pub get_elem?-map :
      (xs : List A) (i : ℕ) (a : A) → get_elem? xs i ≡ some a → get_elem? (map f xs) i ≡ some (f a)
  get_elem?-map [] i a h = absurd (ground arith)
  get_elem?-map (x ∷ xs) zero a h = let e : x ≡ a = ground arith in ap (λ y. some (f y)) e
  get_elem?-map (x ∷ xs) (suc i) a h = get_elem?-map xs i a h

module _ {ℓ κ} {A : Type ℓ} (P : A → Type κ) where
  -- an element in the middle, and the others
  pub All-middle :
      (xs : List A) (a : A) (ys : List A) → All P (xs ++ a ∷ ys) → P a × All P (xs ++ ys)
  All-middle [] a ys h = h
  All-middle (x ∷ xs) a ys (p, h) = let (here, rest) = All-middle xs a ys h in (here, (p, rest))

module _ {ℓ} {A : Type ℓ} (P : A → Type 0) where
  pub Any-middle :
      (xs : List A) (a : A) (ys : List A) → Any P (xs ++ a ∷ ys) → P a ⊎ Any P (xs ++ ys)
  Any-middle [] a ys h = h
  Any-middle (x ∷ xs) a ys (inl p) = inr (inl p)
  Any-middle (x ∷ xs) a ys (inr h) = elim (Any-middle xs a ys h) [
    | inl p ↦ inl p
    | inr q ↦ inr (inr q)
  ]
