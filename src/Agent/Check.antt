-- ===== src/Agent/Check.antt =====
-- A check of the kernel for one destination, and what a single write of the agent can make it permit.
use field_cage.Base.{
  ℕ, Bool, true, false, ◌||◌, ◌&&◌, not, List, [], ◌∷◌, ◌++◌, Option, none, some, ◌==◌, any, map,
  ◌≡◌, ◌⊎◌, refl, ap, arith, Option-cases, Bool-cases, inl, inr,
}
use field_cage.Text.Bytes.{Bytes}
use field_cage.Net.Ip.{Ip, is_loopback}
use field_cage.Net.Cidr.{IpNet}
use field_cage.Policy.Engine.{Engine}
use field_cage.Policy.Decide.{domains, ips, cidrs}
use field_cage.Ebpf.Maps.{KernelMaps, BlockMaps}
use field_cage.Ebpf.Watcher.{
  Block, Seeding, allow_resolver, set_allow_all_dns, seed_one, seed_from, seed_resolvers,
}
use field_cage.Agent.Reach.{Reach, is_resolved}
use field_cage.Agent.Seed.{Warning, Seeded, ip_failed, attempt, seed_dns}
use field_cage.Agent.Start.{fresh_block}
use field_cage.Agent.Steps.{
  Write, configure, open_ip, open_net, give_up, lookup_writes, domain_writes, writes, perform,
}

-- Beside the reach of the writes: the port of the destination, whether it is a loopback address, and
-- whether it is a given nameserver. The laws say what opens the destination for DNS.
pub record Check (lib : KernelMaps) : Type 0 where
  pub reach : Reach lib
  pub dport : ℕ
  pub loopback : Bool
  pub server : Ip → Bool
  pub dns_law :
      (a b : Block lib) (enabled : Bool)
      → set_allow_all_dns lib a enabled ≡ some b
      → reach.opens b ≡ true
      → (reach.opens a ≡ true) ⊎ ((dport == 53 && enabled) ≡ true)
  pub server_law :
      (a b : Block lib) (ip : Ip)
      → allow_resolver lib a ip ≡ some b
      → reach.opens b ≡ true
      → (reach.opens a ≡ true) ⊎ ((dport == 53 && server ip) ≡ true)

module _ (lib : KernelMaps) (check : Check lib) where
  open check use {reach, dport, server, dns_law, server_law}
  open reach use {opens, host, net, host_law, net_law}

  -- a write that is about the destination
  abbrev pub reaches : Write → Bool
  reaches (configure enabled) = dport == 53 && enabled
  reaches (open_ip w ip) = host ip
  reaches (open_net n) = net n
  reaches (give_up d) = false

  any-append : (xs ys : List Write) → any reaches (xs ++ ys) ≡ (any reaches xs || any reaches ys)
  any-append [] ys = refl
  any-append (x ∷ xs) ys = ground (arith, any-append xs ys)

  any-addresses :
      (w : Ip → Warning) (found : List Ip)
      → any reaches (map (λ ip. open_ip (w ip) ip) found) ≡ any host found
  any-addresses w [] = refl
  any-addresses w (ip ∷ found) = ap (λ b. host ip || b) (any-addresses w found)

  any-nets : (ns : List IpNet) → any reaches (map open_net ns) ≡ any net ns
  any-nets [] = refl
  any-nets (n ∷ ns) = ap (λ b. net n || b) (any-nets ns)

  module _ (resolve : Bytes → Option (List Ip)) where
    any-lookup :
        (d : Bytes) → any reaches (lookup_writes d (resolve d)) ≡ is_resolved resolve host d
    unfolding lookup_writes is_resolved
    any-lookup d = elim (Option-cases (resolve d)) [
      | inl p ↦ rw (p, is_resolved) refl
      | inr (found, p) ↦ rw (p, is_resolved) (any-addresses _ found)
    ]

    any-domains :
        (ds : List Bytes)
        → any reaches (domain_writes resolve ds) ≡ any (is_resolved resolve host) ds
    unfolding domain_writes
    any-domains [] = refl
    any-domains (d ∷ ds) = ground (
      arith,
      any-append (lookup_writes d (resolve d)) (domain_writes resolve ds),
      any-lookup d,
      any-domains ds,
    )

    -- what the policy and its domains are about
    abbrev pub is_listed : Engine → Bool
    is_listed e =
        any host (ips e) || any net (cidrs e) || any (is_resolved resolve host) (domains e)

    pub any-writes :
        (e : Engine)
        → any reaches (writes resolve e) ≡ ((dport == 53 && e.allow_all_dns) || is_listed e)
    unfolding writes
    any-writes e =
        let hosts = map (λ ip. open_ip (ip_failed ip) ip) (ips e) in
        let nets = map open_net (cidrs e) in
        let names = domain_writes resolve (domains e) in
        ground (
          arith,
          any-append hosts (nets ++ names),
          any-append nets names,
          any-addresses ip_failed (ips e),
          any-nets (cidrs e),
          any-domains (domains e),
        )

  -- A write that fails changes no map.
  attempt-opened :
      (w : Warning) (s : Seeded lib) (r : Option (Block lib)) (c : Bool)
      → ((b : Block lib) → r ≡ some b → opens b ≡ true → (opens s.block ≡ true) ⊎ (c ≡ true))
      → opens (attempt lib w s r).block ≡ true
      → (opens s.block ≡ true) ⊎ (c ≡ true)
  unfolding attempt
  attempt-opened w s none c f h = inl h
  attempt-opened w s (some b) c f h = f b refl h

  or-cases : (a b c : Bool) → a ≡ (b || c) → a ≡ true → (b ≡ true) ⊎ (c ≡ true)
  or-cases a b c e h = ground arith

  -- A write opens a destination only if it is about it.
  pub perform-opened :
      (w : Write) (s : Seeded lib)
      → opens (perform lib w s).block ≡ true
      → (opens s.block ≡ true) ⊎ (reaches w ≡ true)
  unfolding perform seed_dns
  perform-opened (configure enabled) s h =
      attempt-opened _ s _ _ (λ b p g. dns_law s.block b enabled p g) h
  perform-opened (open_ip w ip) s h =
      attempt-opened _ s _ _ (λ b p g. or-cases _ _ _ (host_law s.block b ip p) g) h
  perform-opened (open_net n) s h =
      attempt-opened _ s _ _ (λ b p g. or-cases _ _ _ (net_law s.block b n p) g) h
  perform-opened (give_up d) s h = inl h

  -- a nameserver that is seeded, and is the destination
  abbrev pub is_served : Ip → Bool
  is_served ip = not (is_loopback ip) && server ip

  seed_one-opened :
      (s : Seeding lib) (ip : Ip)
      → opens (seed_one lib s ip).state ≡ true
      → (opens s.state ≡ true) ⊎ ((dport == 53 && is_served ip) ≡ true)
  unfolding seed_one
  seed_one-opened s ip h = elim (Bool-cases (is_loopback ip)) [
    | inl a ↦ inl (rw (a, seed_one) at h)
    | inr a ↦ elim (Option-cases (allow_resolver lib s.state ip)) [
      | inl p ↦ inl (rw (a, p, seed_one) at h)
      | inr (b, p) ↦ elim (server_law s.state b ip p (rw (a, p, seed_one) at h)) [
        | inl before ↦ inl before
        | inr now ↦ inr (ground arith)
      ]
    ]
  ]

  seed_from-opened :
      (s : Seeding lib) (ips : List Ip)
      → opens (seed_from lib s ips).state ≡ true
      → (opens s.state ≡ true) ⊎ ((dport == 53 && any is_served ips) ≡ true)
  unfolding seed_from
  seed_from-opened s [] h = inl h
  seed_from-opened s (ip ∷ ips) h = elim (seed_from-opened (seed_one lib s ip) ips h) [
    | inr later ↦ inr (ground arith)
    | inl now ↦ elim (seed_one-opened s ip now) [
      | inl before ↦ inl before
      | inr first ↦ inr (ground arith)
    ]
  ]

  -- New maps with nameservers open what they did without, and DNS to the nameservers.
  pub fresh-opened :
      (m : BlockMaps lib) (ips : List Ip)
      → opens (fresh_block lib m true ips) ≡ true
      → (opens (some m) ≡ true) ⊎ ((dport == 53 && any is_served ips) ≡ true)
  unfolding fresh_block seed_resolvers
  fresh-opened m ips h = seed_from-opened (record { state = some m; seeded = 0; failed = [] }) ips h
