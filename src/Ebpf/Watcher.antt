-- ===== src/Ebpf/Watcher.antt =====
-- The operations of `Watcher` that write the enforcement maps (internal/ebpf/loader.go).
use field_cage.Base.{ℕ, ◌+◌, Bool, List, [], ◌∷◌, Option, none, some, if◌then◌else◌}
use field_cage.Text.Bytes.{is_empty}
use field_cage.Net.Ip.{Ip, to4, to16, is_loopback}
use field_cage.Net.Cidr.{IpNet}
use field_cage.Ebpf.Maps.{KernelMaps, BlockMaps}

module _ (lib : KernelMaps) where
  open lib use {Trie, HashSet, Slot, put_prefix, put_member, put_slot}

  -- `w.blockObjs`, which is nil in audit mode
  abbrev pub Block : Type 0
  Block = Option (BlockMaps lib)

  abbrev pub with_ips : BlockMaps lib → Option Trie → Option Block
  with_ips m none = none
  with_ips m (some t) = some (some (record m { allowed_ips = t }))

  abbrev pub with_ips6 : BlockMaps lib → Option Trie → Option Block
  with_ips6 m none = none
  with_ips6 m (some t) = some (some (record m { allowed_ips6 = t }))

  abbrev pub with_resolvers : BlockMaps lib → Option HashSet → Option Block
  with_resolvers m none = none
  with_resolvers m (some s) = some (some (record m { dns_resolvers = s }))

  abbrev pub with_resolvers6 : BlockMaps lib → Option HashSet → Option Block
  with_resolvers6 m none = none
  with_resolvers6 m (some s) = some (some (record m { dns_resolvers6 = s }))

  -- an address under a prefix of each of its two widths
  unfoldable pub put_address : BlockMaps lib → Ip → ℕ → ℕ → Option Block
  put_address m ip len4 len6 = elim (to4 ip) [
    | some ip4 ↦ with_ips m (put_prefix 32 (record { prefixlen = len4; addr = ip4 }) m.allowed_ips)
    | none ↦ elim (to16 ip) [
      | some ip16 ↦
          with_ips6 m (put_prefix 128 (record { prefixlen = len6; addr = ip16 }) m.allowed_ips6)
      | none ↦ some (some m)
    ]
  ]

  -- `AllowIP`; `none` is an error, which changes no map
  unfoldable pub allow_ip : Block → Ip → Option Block
  unfolding put_address
  allow_ip none ip = some none
  allow_ip (some m) ip = if is_empty ip then some (some m) else put_address m ip 32 128

  -- `AllowCIDR`
  unfoldable pub allow_cidr : Block → IpNet → Option Block
  unfolding put_address
  allow_cidr none n = some none
  allow_cidr (some m) n = put_address m n.ip n.ones n.ones

  unfoldable pub put_resolver : BlockMaps lib → Ip → Option Block
  put_resolver m ip = elim (to4 ip) [
    | some ip4 ↦ with_resolvers m (put_member ip4 m.dns_resolvers)
    | none ↦ elim (to16 ip) [
      | some ip16 ↦ with_resolvers6 m (put_member ip16 m.dns_resolvers6)
      | none ↦ some (some m)
    ]
  ]

  -- `AllowResolver`
  unfoldable pub allow_resolver : Block → Ip → Option Block
  unfolding put_resolver
  allow_resolver none ip = some none
  allow_resolver (some m) ip = if is_empty ip then some (some m) else put_resolver m ip

  abbrev pub with_config : BlockMaps lib → Option Slot → Option Block
  with_config m none = none
  with_config m (some c) = some (some (record m { config = c }))

  -- `SetAllowAllDNS`
  unfoldable pub set_allow_all_dns : Block → Bool → Option Block
  set_allow_all_dns none enabled = some none
  set_allow_all_dns (some m) enabled = with_config m (put_slot enabled m.config)

  -- What `seedResolvers` leaves: the maps, the number of seeded resolvers, and those that failed.
  pub record Seeding : Type 0 where
    pub state : Block
    pub seeded : ℕ
    pub failed : List Ip

  unfoldable pub seed_one : Seeding → Ip → Seeding
  unfolding is_loopback allow_resolver
  seed_one s ip = if is_loopback ip then s else elim (allow_resolver s.state ip) [
    | none ↦ record s { failed = ip ∷ s.failed }
    | some b ↦ record s { state = b; seeded = s.seeded + 1 }
  ]

  unfoldable pub seed_from : Seeding → List Ip → Seeding
  unfolding seed_one
  seed_from s [] = s
  seed_from s (ip ∷ ips) = seed_from (seed_one s ip) ips

  unfoldable pub seed_resolvers : Block → List Ip → Seeding
  unfolding seed_from
  seed_resolvers b ips = seed_from (record { state = b; seeded = 0; failed = [] }) ips
