-- ===== src/Policy/Refine.antt =====
-- The engine against the meaning of its entries.
use field_cage.Base.{
  Bool, true, ◌||◌, List, [], ◌∷◌, ◌++◌, some, any, ◌≡◌, arith, Bool-cases, Option-cases, inl, inr,
  ok, Result-cases,
}
use field_cage.Text.Bytes.{Bytes, codes, equal, has_byte, has_suffix, cut_prefix}
use field_cage.Text.Equal.{equal_iff, cut_prefix_sound}
use field_cage.Text.Space.{trim_space}
use field_cage.Text.Case.{Tables, to_lower}
use field_cage.Net.Ip
use field_cage.Net.Ip.{Ip}
use field_cage.Net.Parse.{parse_ip}
use field_cage.Net.Cidr.{IpNet, parse_cidr, net_contains}
use field_cage.Policy.Engine.{Config, Engine, has_key, add_key, put_ip, ip_keys}
use field_cage.Policy.Build.{
  add_ip, host_of, add_suffix, add_wildcard, add_name, add_plain, add_host, add_trimmed, add_entry,
  add_entries, empty_engine, new_engine,
}
use field_cage.Policy.Decide.{matches_wildcard, is_allowed_domain, allows_ip, allow}
use field_cage.Policy.Spec.{
  is_address, is_inside, is_named, is_below, covers_plain, covers_host, covers,
}

any-concat {ℓ} :
    {A : Type ℓ} (p : A → Bool) (xs : List A) (x : A) → any p (xs ++ x ∷ []) ≡ any p xs || p x
any-concat p [] x = ground arith
any-concat p (y ∷ xs) x = ground (arith, any-concat p xs x)

pub has_key-add_key :
    (k j : Bytes) (ks : List Bytes) → has_key (add_key k ks) j ≡ has_key ks j || equal k j
unfolding add_key
has_key-add_key k j ks = elim (Bool-cases (has_key ks k)) [
  | inl old ↦ rw old (known ks old)
  | inr new ↦ rw new (unfold has_key in any-concat (λ i. equal i j) ks k)
]
  where
    known : (ks : List Bytes) → has_key ks k ≡ true → has_key ks j ≡ has_key ks j || equal k j
    known [] h = unfold has_key in ground arith
    known (i ∷ ks) h =
        unfold has_key in ground (arith, equal_iff i k, equal_iff i j, equal_iff k j, known ks)

has_key-put_ip :
    (k j : Bytes) (v : Ip) (m : List (Bytes × Ip))
    → has_key (ip_keys (put_ip k v m)) j ≡ has_key (ip_keys m) j || equal k j
unfolding has_key put_ip
has_key-put_ip k j v [] = ground arith
has_key-put_ip k j v ((i, w) ∷ m) =
    ground (arith, equal_iff i k, equal_iff i j, equal_iff k j, has_key-put_ip k j v m)

module _ (t : Tables) (domain : Bytes) (ip : Ip) where
  -- the engine `e'` allows what `e` allows, and what `c` says of the destination
  abbrev Adds : Engine → Engine → Bool → Type 0
  Adds e e' c = allow t e' domain ip ≡ (allow t e domain ip || c)

  allow-add_ip : (e : Engine) (a : Ip) → Adds e (add_ip e a) (is_address a ip)
  unfolding allow allows_ip is_allowed_domain matches_wildcard add_ip is_address
  allow-add_ip e a = ground (arith, has_key-put_ip (Ip.string a) (Ip.string ip) a e.allowed_ip)

  allow-add_cidr :
      (e : Engine) (n : IpNet) → Adds e (record e { cidrs = e.cidrs ++ n ∷ [] }) (is_inside n ip)
  unfolding allow allows_ip is_allowed_domain matches_wildcard is_inside
  allow-add_cidr e n = ground (arith, any-concat (λ m. net_contains m ip) e.cidrs n)

  allow-add_domain :
      (e : Engine) (host : Bytes)
      → Adds e (record e { domains = add_key (to_lower t host) e.domains }) (is_named t host domain)
  unfolding allow allows_ip is_allowed_domain matches_wildcard is_named
  allow-add_domain e host =
      ground (arith, has_key-add_key (to_lower t host) (to_lower t domain) e.domains)

  allow-add_suffix :
      (e : Engine) (suffix : Bytes)
      → Adds e
          (record e { wildcards = e.wildcards ++ (codes "." ++ to_lower t suffix) ∷ [] })
          (is_below t suffix domain)
  unfolding allow allows_ip is_allowed_domain matches_wildcard is_below
  allow-add_suffix e suffix = ground (
    arith,
    any-concat (λ w. has_suffix (to_lower t domain) w) e.wildcards (codes "." ++ to_lower t suffix),
  )

  -- one round of the loop, from its last branch to its first
  add_suffix-Adds :
      (e e' : Engine) (entry suffix : Bytes)
      → add_suffix t e entry suffix ≡ ok e'
      → Adds e e' (is_below t suffix domain)
  unfolding add_suffix
  add_suffix-Adds e e' entry suffix h = ground (arith, allow-add_suffix e suffix)

  add_name-Adds :
      (e e' : Engine) (entry host : Bytes)
      → add_name t e entry host ≡ ok e'
      → Adds e e' (is_named t host domain)
  unfolding add_name
  add_name-Adds e e' entry host h = ground (arith, allow-add_domain e host)

  add_plain-Adds :
      (e e' : Engine) (entry host : Bytes)
      → add_plain t e entry host ≡ ok e'
      → Adds e e' (covers_plain t host domain ip)
  unfolding add_plain covers_plain
  add_plain-Adds e e' entry host h = elim (Option-cases (parse_ip host)) [
    | inr (a, p) ↦ ground (arith, allow-add_ip e a)
    | inl p ↦ elim (Option-cases (parse_cidr host)) [
      | inr (n, q) ↦ ground (arith, allow-add_cidr e n)
      | inl q ↦ ground (arith, add_name-Adds e e' entry host)
    ]
  ]

  -- a host that begins with `*.` holds a `*`, so it is never read as a plain one
  starred :
      (host suffix : Bytes) → cut_prefix (codes "*.") host ≡ some suffix → has_byte host b'*' ≡ true
  starred host suffix h = rw (cut_prefix_sound (codes "*.") host suffix h)

  add_host-Adds :
      (e e' : Engine) (entry host : Bytes)
      → add_host t e entry host ≡ ok e'
      → Adds e e' (covers_host t host domain ip)
  unfolding add_host add_wildcard covers_host
  add_host-Adds e e' entry host h = elim (Option-cases (cut_prefix (codes "*.") host)) [
    | inr (suffix, p) ↦ ground (arith, starred host suffix p, add_suffix-Adds e e' entry suffix)
    | inl p ↦ ground (arith, add_plain-Adds e e' entry host)
  ]

  add_entry-Adds :
      (e e' : Engine) (raw : Bytes) → add_entry t e raw ≡ ok e' → Adds e e' (covers t raw domain ip)
  unfolding add_entry add_trimmed covers
  add_entry-Adds e e' raw h = elim (Option-cases (parse_ip (trim_space raw))) [
    | inr (a, p) ↦ ground (arith, allow-add_ip e a)
    | inl p ↦ ground (arith, add_host-Adds e e' (trim_space raw) (host_of (trim_space raw)))
  ]

  add_entries-Adds :
      (raws : List Bytes) (e e' : Engine)
      → add_entries t e raws ≡ ok e'
      → Adds e e' (any (λ raw. covers t raw domain ip) raws)
  unfolding add_entries
  add_entries-Adds [] e e' h = ground arith
  add_entries-Adds (raw ∷ raws) e e' h = elim (Result-cases (add_entry t e raw)) [
    | inl (e₁, s) ↦ ground (arith, add_entry-Adds e e₁ raw s, add_entries-Adds raws e₁ e')
    | inr (x, s) ↦ ground arith
  ]

-- An engine that was built allows a destination exactly when an entry of its allowlist covers it,
-- whatever the domain and the address: the maps and the lists of the engine lose nothing and add
-- nothing.
pub allow-covers :
    (t : Tables) (cfg : Config) (e : Engine) (domain : Bytes) (ip : Ip)
    → new_engine t cfg ≡ ok e
    → allow t e domain ip ≡ any (λ raw. covers t raw domain ip) cfg.allowlist
unfolding new_engine allow allows_ip is_allowed_domain matches_wildcard has_key
allow-covers t cfg e domain ip h =
    ground (arith, add_entries-Adds t domain ip cfg.allowlist (empty_engine cfg) e)
