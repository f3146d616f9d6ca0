-- ===== src/Agent/Reach.antt =====
-- What seeding opens, for whatever a kernel check says of a destination.
use field_cage.Base.{
  Bool, false, ◌||◌, List, [], ◌∷◌, Option, none, some, any, ◌≡◌, refl, arith, Option-cases, inl,
  inr,
}
use field_cage.Text.Bytes.{Bytes}
use field_cage.Net.Ip.{Ip}
use field_cage.Net.Cidr.{IpNet}
use field_cage.Policy.Engine.{Engine}
use field_cage.Policy.Decide.{domains, ips, cidrs}
use field_cage.Ebpf.Maps.{KernelMaps}
use field_cage.Ebpf.Watcher.{Block, allow_ip, allow_cidr}
use field_cage.Agent.Seed.{
  Warning, Seeded, attempt, seed_dns, seed_ips, seed_cidrs, seed_result, seed_domains,
  seed_allowlist, ip_failed, cidr_failed, resolved_ip_failed,
}

-- What the writes to the maps open for a destination: `opens` says whether the kernel permits it, and
-- `host` and `net` whether the entry of an address or of a network is about it.
pub record Reach (lib : KernelMaps) : Type 0 where
  pub opens : Block lib → Bool
  pub host : Ip → Bool
  pub net : IpNet → Bool
  pub host_law :
      (b b' : Block lib) (ip : Ip) → allow_ip lib b ip ≡ some b' → opens b' ≡ (opens b || host ip)
  pub net_law :
      (b b' : Block lib) (n : IpNet) → allow_cidr lib b n ≡ some b' → opens b' ≡ (opens b || net n)

-- a domain whose lookup answered with the destination
unfoldable pub is_resolved : (Bytes → Option (List Ip)) → (Ip → Bool) → Bytes → Bool
is_resolved resolve host d = elim (resolve d) [ none ↦ false | some found ↦ any host found ]

module _ (lib : KernelMaps) (reach : Reach lib) where
  open reach use {opens, host, net, host_law, net_law}

  -- A step that warned of nothing has opened what `c` says.
  abbrev Adds : Seeded lib → Seeded lib → Bool → Type 0
  Adds s s' c = s'.warnings ≡ [] → (s.warnings ≡ []) × (opens s'.block ≡ (opens s.block || c))

  none-Adds : (s : Seeded lib) → Adds s s false
  none-Adds s h = (h, ground arith)

  then-Adds :
      (s s' s'' : Seeded lib) (c d : Bool) → Adds s s' c → Adds s' s'' d → Adds s s'' (c || d)
  then-Adds s s' s'' c d f g h =
      let (mid, second) = g h in let (start, first) = f mid in (start, ground arith)

  attempt-Adds :
      (w : Warning) (s : Seeded lib) (r : Option (Block lib)) (c : Bool)
      → ((b : Block lib) → r ≡ some b → opens b ≡ (opens s.block || c))
      → Adds s (attempt lib w s r) c
  unfolding attempt
  attempt-Adds w s none c f h = absurd (ground arith)
  attempt-Adds w s (some b) c f h = (h, f b refl)

  seed_ips-Adds :
      (w : Ip → Warning) (found : List Ip) (s : Seeded lib)
      → Adds s (seed_ips lib w found s) (any host found)
  unfolding seed_ips
  seed_ips-Adds w [] s = none-Adds s
  seed_ips-Adds w (ip ∷ rest) s =
      let next = attempt lib (w ip) s (allow_ip lib s.block ip) in
      then-Adds s next (seed_ips lib w rest next) (host ip) _
        (attempt-Adds (w ip) s (allow_ip lib s.block ip) _ (λ b e. host_law s.block b ip e))
        (seed_ips-Adds w rest next)

  seed_cidrs-Adds : (ns : List IpNet) (s : Seeded lib) → Adds s (seed_cidrs lib ns s) (any net ns)
  unfolding seed_cidrs
  seed_cidrs-Adds [] s = none-Adds s
  seed_cidrs-Adds (n ∷ rest) s =
      let next = attempt lib (cidr_failed n) s (allow_cidr lib s.block n) in
      then-Adds s next (seed_cidrs lib rest next) (net n) _
        (attempt-Adds (cidr_failed n) s (allow_cidr lib s.block n) _ (λ b e. net_law s.block b n e))
        (seed_cidrs-Adds rest next)

  module _ (resolve : Bytes → Option (List Ip)) where
    seed_result-Adds :
        (d : Bytes) (s : Seeded lib)
        → Adds s (seed_result lib d (resolve d) s) (is_resolved resolve host d)
    unfolding seed_result is_resolved
    seed_result-Adds d s = elim (Option-cases (resolve d)) [
      | inl p ↦ rw (p, is_resolved) (λ h. absurd (ground arith))
      | inr (found, p) ↦ rw (p, is_resolved) (seed_ips-Adds (resolved_ip_failed d) found s)
    ]

    seed_domains-Adds :
        (ds : List Bytes) (s : Seeded lib)
        → Adds s (seed_domains lib resolve ds s) (any (is_resolved resolve host) ds)
    unfolding seed_domains
    seed_domains-Adds [] s = none-Adds s
    seed_domains-Adds (d ∷ ds) s =
        let next = seed_result lib d (resolve d) s in
        then-Adds s next (seed_domains lib resolve ds next) (is_resolved resolve host d) _
          (seed_result-Adds d s) (seed_domains-Adds ds next)

  -- After a seeding without warnings, the maps open what they did with the first write, and what the
  -- policy and its domains are about.
  pub seed_allowlist-opens :
      (resolve : Bytes → Option (List Ip)) (e : Engine) (b : Block lib)
      → (seed_allowlist lib resolve e b).warnings ≡ []
      → ((seed_dns lib e.allow_all_dns (record { block = b; warnings = [] })).warnings ≡ [])
        × (opens (seed_allowlist lib resolve e b).block ≡ (
            opens (seed_dns lib e.allow_all_dns (record { block = b; warnings = [] })).block
            || any host (ips e)
            || any net (cidrs e)
            || any (is_resolved resolve host) (domains e)))
  unfolding seed_allowlist
  seed_allowlist-opens resolve e b h =
      let s₀ = seed_dns lib e.allow_all_dns (record { block = b; warnings = [] }) in
      let s₁ = seed_ips lib ip_failed (ips e) s₀ in
      let s₂ = seed_cidrs lib (cidrs e) s₁ in
      let (w₂, third) = seed_domains-Adds resolve (domains e) s₂ h in
      let (w₁, second) = seed_cidrs-Adds (cidrs e) s₁ w₂ in
      let (w₀, first) = seed_ips-Adds ip_failed (ips e) s₀ w₁ in
      (w₀, ground (arith, first, second, third))
