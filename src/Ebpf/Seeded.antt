-- ===== src/Ebpf/Seeded.antt =====
-- The resolvers that the maps hold after the seeding.
use field_cage.Base.{
  ℕ, Bool, true, false, ◌||◌, ◌&&◌, not, List, [], ◌∷◌, Option, none, some, any, ◌≡◌, refl, ◌∙◌,
  arith, Option-cases, Bool-cases, inl, inr,
}
use field_cage.Text.Bytes.{Bytes, equal, is_empty}
use field_cage.Net.Ip.{Ip, to4, to16, is_loopback}
use field_cage.Ebpf.Maps.{KernelMaps, BlockMaps}
use field_cage.Ebpf.Watcher.{
  Block, Seeding, allow_resolver, put_resolver, with_resolvers, with_resolvers6, seed_one,
  seed_from, seed_resolvers,
}
use field_cage.Ebpf.Permits.{is_same}

-- an address that is seeded, and that is the destination
unfoldable pub is_seeded : Bytes → Ip → Bool
is_seeded daddr ip = not (is_loopback ip) && is_same ip daddr

module _ (lib : KernelMaps) (daddr : Bytes) where
  -- The maps with more IPv4 resolvers, and nothing else changed that the IPv4 check reads.
  pub record Extends (m m' : BlockMaps lib) (c : Bool) : Type 0 where
    pub members :
        lib.has_member m'.dns_resolvers daddr ≡ (lib.has_member m.dns_resolvers daddr || c)
    pub same_ips : m'.allowed_ips ≡ m.allowed_ips
    pub same_config : m'.config ≡ m.config

  abbrev pub Leaves : BlockMaps lib → Block lib → Bool → Type 0
  Leaves m none c = ⊥
  Leaves m (some m') c = Extends m m' c

  none-Extends : (m : BlockMaps lib) → Extends m m false
  none-Extends m = record { members = ground arith; same_ips = refl; same_config = refl }

  then-Extends :
      (m m' : BlockMaps lib) (b : Block lib) (c d : Bool)
      → Extends m m' c
      → Leaves m' b d
      → Leaves m b (c || d)
  then-Extends m m' none c d h g = absurd g
  then-Extends m m' (some m'') c d h g = record {
    members = ground (arith, h.members, g.members);
    same_ips = g.same_ips ∙ h.same_ips;
    same_config = g.same_config ∙ h.same_config;
  }

  with_resolvers-Extends :
      (m : BlockMaps lib) (b : Block lib) (k : Bytes) (x : Option (KernelMaps.HashSet lib))
      → lib.put_member k m.dns_resolvers ≡ x
      → with_resolvers lib m x ≡ some b
      → Leaves m b (equal k daddr)
  with_resolvers-Extends m b k none e h = absurd (ground arith)
  with_resolvers-Extends m b k (some u) e h =
      let same : some (record m { dns_resolvers = u }) ≡ b = ground arith in
      rw (← same) (record {
        members = lib.has_member-put_member k m.dns_resolvers u daddr e;
        same_ips = refl;
        same_config = refl;
      })

  with_resolvers6-Extends :
      (m : BlockMaps lib) (b : Block lib) (x : Option (KernelMaps.HashSet lib))
      → with_resolvers6 lib m x ≡ some b
      → Leaves m b false
  with_resolvers6-Extends m b none h = absurd (ground arith)
  with_resolvers6-Extends m b (some u) h =
      let same : some (record m { dns_resolvers6 = u }) ≡ b = ground arith in
      rw (← same) (record { members = ground arith; same_ips = refl; same_config = refl })

  put_resolver-Extends :
      (m : BlockMaps lib) (b : Block lib) (ip : Ip)
      → put_resolver lib m ip ≡ some b
      → Leaves m b (is_same ip daddr)
  unfolding put_resolver is_same
  put_resolver-Extends m b ip h = elim (Option-cases (to4 ip)) [
    | inr (ip4, p) ↦
        rw (p, is_same)
          (with_resolvers-Extends m b ip4 (lib.put_member ip4 m.dns_resolvers) refl
            (rw (p, put_resolver) at h))
    | inl p ↦ elim (Option-cases (to16 ip)) [
      | inr (ip16, q) ↦
          rw (p, is_same)
            (with_resolvers6-Extends m b (lib.put_member ip16 m.dns_resolvers6)
              (rw (p, q, put_resolver) at h))
      | inl q ↦
          let same : some m ≡ b = ground arith in rw (p, is_same) (rw (← same) (none-Extends m))
    ]
  ]

  -- no address is a slice without bytes
  nil-is_same : (ip : Ip) → is_empty ip ≡ true → is_same ip daddr ≡ false
  unfolding is_same to4
  nil-is_same [] h = refl
  nil-is_same (c ∷ ip) h = absurd (ground arith)

  pub allow_resolver-Extends :
      (m : BlockMaps lib) (b : Block lib) (ip : Ip)
      → allow_resolver lib (some m) ip ≡ some b
      → Leaves m b (is_same ip daddr)
  unfolding allow_resolver
  allow_resolver-Extends m b ip h = elim (Bool-cases (is_empty ip)) [
    | inl e ↦
        let same : some m ≡ b = ground arith in rw (nil-is_same ip e) (rw (← same) (none-Extends m))
    | inr e ↦ put_resolver-Extends m b ip (rw e at h)
  ]

  seed_one-Extends :
      (m : BlockMaps lib) (n : ℕ) (failed : List Ip) (ip : Ip)
      → (seed_one lib (record { state = some m; seeded = n; failed = failed }) ip).failed ≡ []
      → (failed ≡ [])
        × Leaves m
            (seed_one lib (record { state = some m; seeded = n; failed = failed }) ip).state
            (is_seeded daddr ip)
  unfolding seed_one is_seeded
  seed_one-Extends m n failed ip h = elim (Bool-cases (is_loopback ip)) [
    | inl a ↦ rw (a, seed_one, is_seeded) (rw (a, seed_one) at h, none-Extends m)
    | inr a ↦ elim (Option-cases (allow_resolver lib (some m) ip)) [
      | inl p ↦ absurd (ground arith)
      | inr (b, p) ↦
          rw (a, p, seed_one, is_seeded) (rw (a, p, seed_one) at h, allow_resolver-Extends m b ip p)
    ]
  ]

  seed_one-failed : (ip : Ip) (s : Seeding lib) → (seed_one lib s ip).failed ≡ [] → s.failed ≡ []
  unfolding seed_one
  seed_one-failed ip s h = elim (Bool-cases (is_loopback ip)) [
    | inl a ↦ rw (a, seed_one) at h
    | inr a ↦ elim (Option-cases (allow_resolver lib s.state ip)) [
      | inl p ↦ absurd (ground arith)
      | inr (b, p) ↦ rw (a, p, seed_one) at h
    ]
  ]

  seed_from-failed :
      (ips : List Ip) (s : Seeding lib) → (seed_from lib s ips).failed ≡ [] → s.failed ≡ []
  unfolding seed_from
  seed_from-failed [] s h = h
  seed_from-failed (ip ∷ ips) s h =
      seed_one-failed ip s (seed_from-failed ips (seed_one lib s ip) h)

  -- the maps that the first resolver left, and the rest of the list
  seed_rest-Extends :
      (m : BlockMaps lib) (failed : List Ip) (ip : Ip) (ips : List Ip)
      → ((m' : BlockMaps lib) (k : ℕ) (f : List Ip)
          → (seed_from lib (record { state = some m'; seeded = k; failed = f }) ips).failed ≡ []
          → (f ≡ [])
            × Leaves m'
                (seed_from lib (record { state = some m'; seeded = k; failed = f }) ips).state
                (any (is_seeded daddr) ips))
      → (b : Block lib) (k : ℕ) (f : List Ip)
      → (seed_from lib (record { state = b; seeded = k; failed = f }) ips).failed ≡ []
      → (f ≡ [] → (failed ≡ []) × Leaves m b (is_seeded daddr ip))
      → (failed ≡ [])
        × Leaves m
            (seed_from lib (record { state = b; seeded = k; failed = f }) ips).state
            (is_seeded daddr ip || any (is_seeded daddr) ips)
  seed_rest-Extends m failed ip ips later none k f g first =
      absurd (first (seed_from-failed ips (record { state = none; seeded = k; failed = f }) g)).1
  seed_rest-Extends m failed ip ips later (some m') k f g first =
      let (mid, second) = later m' k f g in
      let (start, here) = first mid in (start, then-Extends m m' _ _ _ here second)

  seed_from-Extends :
      (ips : List Ip) (m : BlockMaps lib) (n : ℕ) (failed : List Ip)
      → (seed_from lib (record { state = some m; seeded = n; failed = failed }) ips).failed ≡ []
      → (failed ≡ [])
        × Leaves m
            (seed_from lib (record { state = some m; seeded = n; failed = failed }) ips).state
            (any (is_seeded daddr) ips)
  unfolding seed_from
  seed_from-Extends [] m n failed h = (h, none-Extends m)
  seed_from-Extends (ip ∷ ips) m n failed h =
      let s = seed_one lib (record { state = some m; seeded = n; failed = failed }) ip in
      seed_rest-Extends m failed ip ips (λ m' k f g. seed_from-Extends ips m' k f g) s.state
        s.seeded s.failed h (seed_one-Extends m n failed ip)

  -- When no resolver failed, the maps hold as IPv4 resolvers those that they held, and the addresses
  -- of the list that are not loopback addresses; the allowlist and the configuration are unchanged.
  pub seed_resolvers-Extends :
      (m : BlockMaps lib) (ips : List Ip)
      → (seed_resolvers lib (some m) ips).failed ≡ []
      → (m' : BlockMaps lib) × ((seed_resolvers lib (some m) ips).state ≡ some m')
        × Extends m m' (any (is_seeded daddr) ips)
  unfolding seed_resolvers
  seed_resolvers-Extends m ips h =
      found (seed_resolvers lib (some m) ips).state refl (seed_from-Extends ips m 0 [] h).1
    where
      found :
          (b : Block lib)
          → (seed_resolvers lib (some m) ips).state ≡ b
          → Leaves m b (any (is_seeded daddr) ips)
          → (m' : BlockMaps lib) × ((seed_resolvers lib (some m) ips).state ≡ some m')
            × Extends m m' (any (is_seeded daddr) ips)
      found none e l = absurd l
      found (some m') e l = (m', e, l)
