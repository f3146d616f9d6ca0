-- ===== src/Policy/Judge.antt =====
-- Which entries are well-formed, and what each branch of the loop of `newEngine` says of its entry.
use field_cage.Base.{
  ◌≤◌, Bool, true, false, ltb, [], ◌∷◌, ◌++◌, Option, none, if◌then◌else◌, any, ◌≡◌, ◌≢◌, ◌⊎◌, refl,
  ap, arith, Bool-cases, Option-cases, inl, inr, ok, err, length,
}
use field_cage.Text.Bytes.{Bytes, codes, is_empty, has_byte, cut_prefix, split}
use field_cage.Text.Equal.{cut_prefix_sound, cut_prefix-append}
use field_cage.Text.Space.{trim_space}
use field_cage.Text.Case.{Tables}
use field_cage.Net.Parse.{parse_ip}
use field_cage.Net.Cidr.{parse_cidr}
use field_cage.Policy.Engine.{Engine, Mode, audit, block}
use field_cage.Policy.Build.{
  PolicyError, invalid_mode, unsupported_wildcard, malformed_wildcard, too_broad, empty_label,
  malformed_entry, Built, host_of, add_suffix, add_wildcard, add_name, add_plain, add_host,
  add_trimmed, add_entry,
}

-- A wildcard names at least a second-level domain, with no empty label.
pub record IsWildcard (host : Bytes) : Type 0 where
  pub suffix : Bytes
  pub splits : host ≡ codes "*." ++ suffix
  pub one_star : has_byte suffix b'*' ≡ false
  pub no_colon : has_byte suffix b':' ≡ false
  pub two_labels : 2 ≤ length (split suffix b'.')
  pub no_empty : any is_empty (split suffix b'.') ≡ false

-- A host with no `*` is an address, a network, or a name with no colon.
abbrev pub IsPlain : Bytes → Type 0
IsPlain host =
    (has_byte host b'*' ≡ false)
    × ((parse_ip host ≢ none) ⊎ (parse_cidr host ≢ none) ⊎ (has_byte host b':' ≡ false))

abbrev pub IsHost : Bytes → Type 0
IsHost host = (host ≡ []) ⊎ IsWildcard host ⊎ IsPlain host

-- An entry as the policy language has it, with the spaces around it taken off.
abbrev pub IsEntry : Bytes → Type 0
IsEntry raw = (parse_ip (trim_space raw) ≢ none) ⊎ IsHost (host_of (trim_space raw))

abbrev pub IsMode : Mode → Type 0
IsMode m = (m ≡ audit) ⊎ (m ≡ block) ⊎ (m ≡ [])

-- the entry that an error quotes
abbrev pub quoted : PolicyError → Bytes
quoted (invalid_mode m) = m
quoted (unsupported_wildcard s) = s
quoted (malformed_wildcard s) = s
quoted (too_broad s) = s
quoted (empty_label s) = s
quoted (malformed_entry s) = s

-- What a step of the loop returns for an entry that is well-formed exactly if `G`.
abbrev pub Judges : Bytes → Type 0 → Built → Type 0
Judges entry G (ok e) = G
Judges entry G (err x) = (G → ⊥) × (quoted x ≡ entry)

suffix-eq :
    {host : Bytes} (suffix : Bytes)
    → host ≡ codes "*." ++ suffix
    → (w : IsWildcard host) → w.suffix ≡ suffix
suffix-eq suffix same w = cc (w.splits, same)

module _ (t : Tables) (e : Engine) (entry : Bytes) where
  add_suffix-Judges :
      (host suffix : Bytes)
      → host ≡ codes "*." ++ suffix
      → Judges entry (IsWildcard host) (add_suffix t e entry suffix)
  unfolding add_suffix
  add_suffix-Judges host suffix same = elim (Bool-cases (has_byte suffix b'*')) [
    | inl a ↦ rw a (λ w. ground (arith, w.one_star, suffix-eq suffix same w), refl)
    | inr a ↦ elim (Bool-cases (has_byte suffix b':')) [
      | inl b ↦ rw (a, b) (λ w. ground (arith, w.no_colon, suffix-eq suffix same w), refl)
      | inr b ↦ elim (Bool-cases (ltb (length (split suffix b'.')) 2)) [
        | inl c ↦ rw (a, b, c) (λ w. ground (arith, w.two_labels, suffix-eq suffix same w), refl)
        | inr c ↦ elim (Bool-cases (any is_empty (split suffix b'.'))) [
          | inl d ↦ rw (a, b, c, d) (λ w. ground (arith, w.no_empty, suffix-eq suffix same w), refl)
          | inr d ↦
              rw (a, b, c, d)
                (record {
                  suffix = suffix;
                  splits = same;
                  one_star = a;
                  no_colon = b;
                  two_labels = ground arith;
                  no_empty = d;
                })
        ]
      ]
    ]
  ]

  not-wildcard : (host : Bytes) → cut_prefix (codes "*.") host ≡ none → IsWildcard host → ⊥
  not-wildcard host n w =
      ground (arith, ap (cut_prefix (codes "*.")) w.splits, cut_prefix-append (codes "*.") w.suffix)

  add_wildcard-Judges :
      (host : Bytes) → Judges entry (IsWildcard host) (add_wildcard t e entry host)
  unfolding add_wildcard
  add_wildcard-Judges host = elim (Option-cases (cut_prefix (codes "*.") host)) [
    | inl p ↦ rw (p, add_wildcard) (not-wildcard host p, refl)
    | inr (suffix, p) ↦
        rw (p, add_wildcard)
          (add_suffix-Judges host suffix (cut_prefix_sound (codes "*.") host suffix p))
  ]

  add_plain-Judges :
      (host : Bytes)
      → has_byte host b'*' ≡ false
      → Judges entry (IsPlain host) (add_plain t e entry host)
  unfolding add_plain add_name
  add_plain-Judges host star = elim (Option-cases (parse_ip host)) [
    | inr (a, p) ↦ rw (p, add_plain) (star, inl (λ q. cc))
    | inl p ↦ elim (Option-cases (parse_cidr host)) [
      | inr (n, q) ↦ rw (p, add_plain, q) (star, inr (inl (λ r. cc)))
      | inl q ↦ elim (Bool-cases (has_byte host b':')) [
        | inl c ↦ rw (p, add_plain, q, c) (λ h. ground arith, refl)
        | inr c ↦ rw (p, add_plain, q, c) (star, inr (inr refl))
      ]
    ]
  ]

-- two descriptions of the same entries are judged alike
Judges-map :
    (entry : Bytes) {G H : Type 0} (r : Built)
    → (G → H)
    → (H → G)
    → Judges entry G r
    → Judges entry H r
Judges-map entry (ok e) f g h = f h
Judges-map entry (err x) f g h = (λ k. h.0 (g k), h.1)

Judges-if :
    (entry : Bytes) (G : Type 0) (b : Bool) (r s : Built)
    → (b ≡ true → Judges entry G r)
    → (b ≡ false → Judges entry G s)
    → Judges entry G (if b then r else s)
Judges-if entry G true r s f g = f refl
Judges-if entry G false r s f g = g refl

empty-eq : (host : Bytes) → is_empty host ≡ true → host ≡ []
empty-eq [] h = refl
empty-eq (c ∷ s) h = cc

wildcard-star : (host : Bytes) → IsWildcard host → has_byte host b'*' ≡ true
wildcard-star host w = rw w.splits

from_IsWildcard :
    (host : Bytes)
    → is_empty host ≡ false
    → has_byte host b'*' ≡ true
    → IsHost host
    → IsWildcard host
from_IsWildcard host e star (inl h) = absurd (ground (arith, ap is_empty h))
from_IsWildcard host e star (inr (inl w)) = w
from_IsWildcard host e star (inr (inr p)) = absurd (ground (arith, p.0))

from_IsPlain :
    (host : Bytes) → is_empty host ≡ false → has_byte host b'*' ≡ false → IsHost host → IsPlain host
from_IsPlain host e star (inl h) = absurd (ground (arith, ap is_empty h))
from_IsPlain host e star (inr (inl w)) = absurd (ground (arith, wildcard-star host w))
from_IsPlain host e star (inr (inr p)) = p

module _ (t : Tables) (e : Engine) where
  add_host-Judges : (entry host : Bytes) → Judges entry (IsHost host) (add_host t e entry host)
  unfolding add_host
  add_host-Judges entry host =
      Judges-if entry (IsHost host) (is_empty host) (ok e) _ (λ a. inl (empty-eq host a))
        λ a.
          Judges-if entry (IsHost host) (has_byte host b'*') (add_wildcard t e entry host)
            (add_plain t e entry host)
            (λ b.
              Judges-map entry (add_wildcard t e entry host) (λ w. inr (inl w))
                (from_IsWildcard host a b) (add_wildcard-Judges t e entry host))
            (λ b.
              Judges-map entry (add_plain t e entry host) (λ p. inr (inr p)) (from_IsPlain host a b)
                (add_plain-Judges t e entry host b))

  -- one round of the loop judges its entry
  pub add_entry-Judges : (raw : Bytes) → Judges (trim_space raw) (IsEntry raw) (add_entry t e raw)
  unfolding add_entry add_trimmed
  add_entry-Judges raw = elim (Option-cases (parse_ip (trim_space raw))) [
    | inr (a, p) ↦ rw (p, add_trimmed) (inl (λ q. cc))
    | inl p ↦
        rw (p, add_trimmed)
          (Judges-map (trim_space raw) (add_host t e (trim_space raw) (host_of (trim_space raw)))
            (λ h. inr h) (λ h. host_left h)
            (add_host-Judges (trim_space raw) (host_of (trim_space raw))))
  ]
    where
      host_left : {G : Type 0} → (◌≢◌ {A = Option Bytes} none none ⊎ G) → G
      host_left (inl n) = absurd (n refl)
      host_left (inr h) = h
