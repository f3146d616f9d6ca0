-- ===== src/Policy/Errors.antt =====
-- When `newEngine` succeeds, and what it refuses.
use field_cage.Base.{
  true, List, [], ◌∷◌, ◌++◌, ◌≡◌, ◌⊎◌, ◌↔◌, refl, ap, arith, Bool-cases, inl, inr, ok, err,
  Result-cases, All,
}
use field_cage.Text.Bytes.{Bytes, equal}
use field_cage.Text.Equal.{equal_iff}
use field_cage.Text.Space.{trim_space}
use field_cage.Text.Case.{Tables}
use field_cage.Policy.Engine.{Config, Engine, Mode, audit, block}
use field_cage.Policy.Build.{
  PolicyError, invalid_mode, Built, add_entry, add_entries, empty_engine, is_mode, new_engine,
}
use field_cage.Policy.Judge.{IsEntry, IsMode, quoted, add_entry-Judges}

-- The entries up to the first one that is malformed, which an error quotes.
pub record StopsAt (raws : List Bytes) (x : PolicyError) : Type 0 where
  pub before : List Bytes
  pub raw : Bytes
  pub after : List Bytes
  pub splits : raws ≡ before ++ raw ∷ after
  pub all_good : All IsEntry before
  pub is_bad : ¬ IsEntry raw
  pub quotes : quoted x ≡ trim_space raw

module _ (t : Tables) where
  -- what the loop returns
  abbrev Outcome : List Bytes → Built → Type 0
  Outcome raws (ok e) = All IsEntry raws
  Outcome raws (err x) = StopsAt raws x

  cons-Outcome :
      (raw : Bytes) (raws : List Bytes) (r : Built)
      → IsEntry raw
      → Outcome raws r
      → Outcome (raw ∷ raws) r
  cons-Outcome raw raws (ok e) g h = (g, h)
  cons-Outcome raw raws (err x) g h = record {
    before = raw ∷ h.before;
    raw = h.raw;
    after = h.after;
    splits = ap (◌∷◌ raw) h.splits;
    all_good = (g, h.all_good);
    is_bad = h.is_bad;
    quotes = h.quotes;
  }

  add_entries-Outcome : (raws : List Bytes) (e : Engine) → Outcome raws (add_entries t e raws)
  unfolding add_entries
  add_entries-Outcome [] e = tt
  add_entries-Outcome (raw ∷ raws) e = elim (Result-cases (add_entry t e raw)) [
    | inl (e', s) ↦
        rw (s, add_entries)
          (cons-Outcome raw raws (add_entries t e' raws) (rw s at (add_entry-Judges t e raw))
            (add_entries-Outcome raws e'))
    | inr (x, s) ↦
        let (bad, same) = rw s at (add_entry-Judges t e raw) in
        rw (s, add_entries)
          (record {
            before = [];
            raw = raw;
            after = raws;
            splits = refl;
            all_good = tt;
            is_bad = bad;
            quotes = same;
          })
  ]

is_mode_iff : (m : Mode) → (is_mode m ≡ true) ↔ IsMode m
unfolding is_mode equal
is_mode_iff [] = (λ _. inr (inr refl), λ _. refl)
is_mode_iff (c ∷ m) = ground (arith, equal_iff (c ∷ m) audit, equal_iff (c ∷ m) block)

loop-Outcome :
    (t : Tables) (raws : List Bytes) (e : Engine) (r : Built)
    → add_entries t e raws ≡ r
    → Outcome t raws r
loop-Outcome t raws e r h = rw h at (add_entries-Outcome t raws e)

-- A policy that is refused has an invalid mode, which the error quotes, or a first malformed entry,
-- which the error quotes without the spaces around it.
pub new_engine_refuses :
    (t : Tables) (cfg : Config) (x : PolicyError)
    → new_engine t cfg ≡ err x
    → (¬ IsMode cfg.mode × (x ≡ invalid_mode cfg.mode)) ⊎ StopsAt cfg.allowlist x
unfolding new_engine
new_engine_refuses t cfg x h = elim (Bool-cases (is_mode cfg.mode)) [
  | inl m ↦ inr (loop-Outcome t cfg.allowlist (empty_engine cfg) (err x) (ground arith))
  | inr m ↦ inl (λ g. ground (arith, (is_mode_iff cfg.mode).1 g), ground arith)
]

built-IsEntry :
    (t : Tables) (cfg : Config) (e : Engine)
    → new_engine t cfg ≡ ok e
    → IsMode cfg.mode × All IsEntry cfg.allowlist
unfolding new_engine
built-IsEntry t cfg e h = elim (Bool-cases (is_mode cfg.mode)) [
  | inl m ↦ (
    (is_mode_iff cfg.mode).0 m,
    loop-Outcome t cfg.allowlist (empty_engine cfg) (ok e) (ground arith),
  )
  | inr m ↦ absurd (ground arith)
]

All-middle : (P : Bytes → Type 0) (xs ys : List Bytes) (y : Bytes) → All P (xs ++ y ∷ ys) → P y
All-middle P [] ys y h = h.0
All-middle P (x ∷ xs) ys y h = All-middle P xs ys y h.1

not-StopsAt : (raws : List Bytes) (x : PolicyError) → All IsEntry raws → StopsAt raws x → ⊥
not-StopsAt raws x good s =
    s.is_bad (All-middle IsEntry s.before s.after s.raw (rw s.splits at good))

-- An engine is built exactly from the configurations with a mode of the policy language, or none,
-- and well-formed entries only.
pub new_engine_iff :
    (t : Tables) (cfg : Config)
    → ((e : Engine) × (new_engine t cfg ≡ ok e)) ↔ (IsMode cfg.mode × All IsEntry cfg.allowlist)
new_engine_iff t cfg = (λ h. built-IsEntry t cfg h.0 h.1, build)
  where
    refuted :
        (x : PolicyError)
        → IsMode cfg.mode × All IsEntry cfg.allowlist
        → (¬ IsMode cfg.mode × (x ≡ invalid_mode cfg.mode)) ⊎ StopsAt cfg.allowlist x
        → ⊥
    refuted x good (inl bad) = bad.0 good.0
    refuted x good (inr s) = not-StopsAt cfg.allowlist x good.1 s

    build : IsMode cfg.mode × All IsEntry cfg.allowlist → (e : Engine) × (new_engine t cfg ≡ ok e)
    build good = elim (Result-cases (new_engine t cfg)) [
      | inl found ↦ found
      | inr (x, h) ↦ absurd (refuted x good (new_engine_refuses t cfg x h))
    ]
