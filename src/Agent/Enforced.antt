-- ===== src/Agent/Enforced.antt =====
-- What a watcher that was made enforces, and what the seeding of the nameservers keeps.
use field_cage.Base.{
  Bool, true, false, ◌&&◌, not, List, [], ◌∷◌, ◌++◌, ◌∙◌, Option, none, some, ◌≡◌, refl, arith,
  Option-cases, Bool-cases, inl, inr, Result, ok, err,
}
use field_cage.Net.Ip.{Ip, is_loopback}
use field_cage.Ebpf.Maps.{KernelMaps, BlockMaps}
use field_cage.Ebpf.Watcher.{
  Block, Seeding, allow_resolver, put_resolver, with_resolvers, with_resolvers6, seed_one,
  seed_from, seed_resolvers,
}
use field_cage.Ebpf.Resources.{
  Kernel, Attempt, Opening, Watcher, new_watcher, with_dns, open_all, new_dns_watcher,
}
use field_cage.Ebpf.Dns.{is_block}
use field_cage.Agent.Start.{fresh_block}

module _ (k : Kernel) (with_block : Bool) where
  -- a watcher enforces as it was asked to, and then it reads DNS
  with_dns-enforces :
      (r : Result Opening Opening) (dns : Attempt) (w : Watcher)
      → with_dns k with_block r dns ≡ ok w
      → (w.block ≡ with_block) × ((with_block && not w.dns) ≡ false)
  with_dns-enforces (err s) dns w h = absurd (ground arith)
  with_dns-enforces (ok s) dns w h = elim (Bool-cases (not dns.succeeds && with_block)) [
    | inl e ↦ absurd (ground arith)
    | inr e ↦
        let made : Watcher = record {
          block = with_block;
          dns = dns.succeeds;
          log = s.log ++ dns.log;
        } in
        let same : made ≡ w = ground arith in rw (← same) (refl, ground arith)
  ]

  pub new_watcher-enforces :
      (w : Watcher)
      → new_watcher k with_block ≡ ok w
      → (w.block ≡ with_block) × ((with_block && not w.dns) ≡ false)
  unfolding new_watcher
  new_watcher-enforces w h = with_dns-enforces (open_all k with_block) (new_dns_watcher k) w h

module _ (lib : KernelMaps) where
  -- the writes of resolvers keep block state
  with_resolvers-is_block :
      (m : BlockMaps lib) (b : Block lib) (x : Option (KernelMaps.HashSet lib))
      → with_resolvers lib m x ≡ some b
      → is_block lib b ≡ true
  with_resolvers-is_block m b none h = absurd (ground arith)
  with_resolvers-is_block m b (some u) h =
      let same : some (record m { dns_resolvers = u }) ≡ b = ground arith in rw (← same) refl

  with_resolvers6-is_block :
      (m : BlockMaps lib) (b : Block lib) (x : Option (KernelMaps.HashSet lib))
      → with_resolvers6 lib m x ≡ some b
      → is_block lib b ≡ true
  with_resolvers6-is_block m b none h = absurd (ground arith)
  with_resolvers6-is_block m b (some u) h =
      let same : some (record m { dns_resolvers6 = u }) ≡ b = ground arith in rw (← same) refl

  put_resolver-is_block :
      (m : BlockMaps lib) (ip : Ip) (b : Block lib)
      → put_resolver lib m ip ≡ some b
      → is_block lib b ≡ true
  unfolding put_resolver
  put_resolver-is_block m ip b h =
      ground (arith, with_resolvers-is_block m b, with_resolvers6-is_block m b)

  allow_resolver-is_block :
      (a : Block lib) (ip : Ip) (b : Block lib)
      → allow_resolver lib a ip ≡ some b
      → is_block lib b ≡ is_block lib a
  unfolding allow_resolver
  allow_resolver-is_block none ip b h = let same : none ≡ b = ground arith in rw (← same) refl
  allow_resolver-is_block (some m) ip b h = ground (arith, put_resolver-is_block m ip b)

  seed_one-is_block :
      (s : Seeding lib) (ip : Ip) → is_block lib (seed_one lib s ip).state ≡ is_block lib s.state
  unfolding seed_one
  seed_one-is_block s ip = elim (Bool-cases (is_loopback ip)) [
    | inl a ↦ rw (a, seed_one) refl
    | inr a ↦ elim (Option-cases (allow_resolver lib s.state ip)) [
      | inl p ↦ rw (a, p, seed_one) refl
      | inr (b, p) ↦ rw (a, p, seed_one) (allow_resolver-is_block s.state ip b p)
    ]
  ]

  seed_from-is_block :
      (s : Seeding lib) (ips : List Ip)
      → is_block lib (seed_from lib s ips).state ≡ is_block lib s.state
  unfolding seed_from
  seed_from-is_block s [] = refl
  seed_from-is_block s (ip ∷ ips) =
      seed_from-is_block (seed_one lib s ip) ips ∙ seed_one-is_block s ip

  pub fresh_block-is_block :
      (m : BlockMaps lib) (with_block : Bool) (ips : List Ip)
      → is_block lib (fresh_block lib m with_block ips) ≡ with_block
  unfolding fresh_block seed_resolvers
  fresh_block-is_block m false ips = refl
  fresh_block-is_block m true ips =
      seed_from-is_block (record { state = some m; seeded = 0; failed = [] }) ips
