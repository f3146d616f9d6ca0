-- ===== src/Policy/Wildcards.antt =====
-- How broad a wildcard can be.
use field_cage.Base.{
  ◌≤◌, true, false, List, [], ◌∷◌, ◌++◌, any, length, ltb, ◌≡◌, ◌⊎◌, refl, arith, Bool-cases,
  Option-cases, inl, inr, ok, Result-cases, All, All-append,
}
use field_cage.Text.Bytes.{Bytes, codes, is_empty, has_byte, has_suffix, cut_prefix, split}
use field_cage.Text.Equal.{has_suffix_sound}
use field_cage.Text.Count.{count, count-append, length-split, count-to_lower}
use field_cage.Text.Space.{trim_space}
use field_cage.Text.Case.{Tables, to_lower}
use field_cage.Net.Parse.{parse_ip}
use field_cage.Policy.Engine.{Config, Engine, has_key}
use field_cage.Policy.Build.{
  add_suffix, add_wildcard, add_name, add_plain, add_host, add_trimmed, add_entry, add_entries,
  add_ip, host_of, empty_engine, new_engine,
}
use field_cage.Policy.Decide.{matches_wildcard, is_allowed_domain}

-- A stored suffix has two dots: the leading one, and one between two labels.
abbrev IsNarrow : Bytes → Type 0
IsNarrow w = 2 ≤ count b'.' w

-- A step leaves the wildcards, or stores one more narrow suffix.
abbrev Grows : Engine → Engine → Type 0
Grows e e' =
    (e'.wildcards ≡ e.wildcards)
    ⊎ ((w : Bytes) × IsNarrow w × (e'.wildcards ≡ e.wildcards ++ w ∷ []))

module _ (t : Tables) (e e' : Engine) (entry : Bytes) where
  suffix-IsNarrow :
      (suffix : Bytes)
      → ltb (length (split suffix b'.')) 2 ≡ false
      → IsNarrow (codes "." ++ to_lower t suffix)
  suffix-IsNarrow suffix h =
      ground (arith, length-split suffix b'.', count-to_lower t b'.' suffix (inl refl))

  add_suffix-Grows : (suffix : Bytes) → add_suffix t e entry suffix ≡ ok e' → Grows e e'
  unfolding add_suffix
  add_suffix-Grows suffix h = elim (Bool-cases (ltb (length (split suffix b'.')) 2)) [
    | inl broad ↦ absurd (ground arith)
    | inr fits ↦ inr (codes "." ++ to_lower t suffix, suffix-IsNarrow suffix fits, ground arith)
  ]

  add_wildcard-Grows : (host : Bytes) → add_wildcard t e entry host ≡ ok e' → Grows e e'
  unfolding add_wildcard
  add_wildcard-Grows host h = elim (Option-cases (cut_prefix (codes "*.") host)) [
    | inl p ↦ absurd (ground arith)
    | inr (suffix, p) ↦ add_suffix-Grows suffix (ground arith)
  ]

  add_plain-Grows : (host : Bytes) → add_plain t e entry host ≡ ok e' → Grows e e'
  unfolding add_plain add_name add_ip
  add_plain-Grows host h = inl (ground arith)

  add_host-Grows : (host : Bytes) → add_host t e entry host ≡ ok e' → Grows e e'
  unfolding add_host
  add_host-Grows host h = elim (Bool-cases (is_empty host)) [
    | inl a ↦ inl (ground arith)
    | inr a ↦ elim (Bool-cases (has_byte host b'*')) [
      | inl b ↦ add_wildcard-Grows host (ground arith)
      | inr b ↦ add_plain-Grows host (ground arith)
    ]
  ]

module _ (t : Tables) where
  add_entry-Grows : (e e' : Engine) (raw : Bytes) → add_entry t e raw ≡ ok e' → Grows e e'
  unfolding add_entry add_trimmed add_ip
  add_entry-Grows e e' raw h = elim (Option-cases (parse_ip (trim_space raw))) [
    | inr (a, p) ↦ inl (ground arith)
    | inl p ↦ add_host-Grows t e e' (trim_space raw) (host_of (trim_space raw)) (ground arith)
  ]

  grown : (e e' : Engine) → Grows e e' → All IsNarrow e.wildcards → All IsNarrow e'.wildcards
  grown e e' (inl same) h = rw same h
  grown e e' (inr (w, n, more)) h = rw more (All-append IsNarrow e.wildcards (w ∷ []) h (n, tt))

  add_entries-IsNarrow :
      (raws : List Bytes) (e e' : Engine)
      → All IsNarrow e.wildcards
      → add_entries t e raws ≡ ok e'
      → All IsNarrow e'.wildcards
  unfolding add_entries
  add_entries-IsNarrow [] e e' n h = let same : e ≡ e' = ground arith in rw (← same) n
  add_entries-IsNarrow (raw ∷ raws) e e' n h = elim (Result-cases (add_entry t e raw)) [
    | inl (e₁, s) ↦
        add_entries-IsNarrow raws e₁ e' (grown e e₁ (add_entry-Grows e e₁ raw s) n) (ground arith)
    | inr (x, s) ↦ absurd (ground arith)
  ]

  pub new_engine-IsNarrow :
      (cfg : Config) (e : Engine) → new_engine t cfg ≡ ok e → All IsNarrow e.wildcards
  unfolding new_engine
  new_engine-IsNarrow cfg e h =
      add_entries-IsNarrow cfg.allowlist (empty_engine cfg) e tt (ground arith)

  narrow_match :
      (ws : List Bytes) (d : Bytes)
      → All IsNarrow ws
      → any (λ w. has_suffix d w) ws ≡ true
      → 2 ≤ count b'.' d
  narrow_match [] d n h = absurd (ground arith)
  narrow_match (w ∷ ws) d n h = elim (Bool-cases (has_suffix d w)) [
    | inl here ↦
        let (q, same) = has_suffix_sound d w here in
        rw same (omega (arith, n.0, count-append b'.' q w))
    | inr there ↦ narrow_match ws d n.1 (ground arith)
  ]

  -- A domain that is allowed, and is not listed exactly, has at least two dots: no wildcard reaches
  -- a top-level or a second-level domain.
  pub allowed-dots :
      (cfg : Config) (e : Engine) (domain : Bytes)
      → new_engine t cfg ≡ ok e
      → is_allowed_domain t e domain ≡ true
      → has_key e.domains (to_lower t domain) ≡ false
      → 2 ≤ count b'.' domain
  unfolding is_allowed_domain matches_wildcard
  allowed-dots cfg e domain built allowed unlisted =
      let found : any (λ w. has_suffix (to_lower t domain) w) e.wildcards ≡ true = ground arith in
      rw (count-to_lower t b'.' domain (inl refl)) at
        (narrow_match e.wildcards (to_lower t domain) (new_engine-IsNarrow cfg e built) found)
