-- ===== src/Agent/Unopened.antt =====
-- A network that the policy allows and the seeding cannot write (internal/policy/policy.go and
-- internal/ebpf/loader.go).
use field_cage.Base.{
  ℕ, ◌-◌, ◌<◌, ◌==◌, true, false, List, [], ◌∷◌, Option, none, some, length, ◌≡◌, refl, ◌∙◌, arith,
}
use field_cage.Text.Bytes.{Bytes, is_empty}
use field_cage.Text.Case.{Tables}
use field_cage.Net.Ip.{Ip, to4, first_is}
use field_cage.Net.Cidr.{IpNet, net_contains, same_prefix}
use field_cage.Policy.Engine.{Mode, Engine, has_key}
use field_cage.Policy.Decide.{allow, allows_ip}
use field_cage.Ebpf.Maps.{KernelMaps, BlockMaps}
use field_cage.Ebpf.Kernel.{check_ipv4}
use field_cage.Ebpf.Watcher.{set_allow_all_dns, with_config}
use field_cage.Ebpf.Permits.{permits}
use field_cage.Ebpf.Mapped.{mapped-contains, mapped-refused}
use field_cage.Agent.Seed.{
  Warning, set_dns_failed, attempt, seed_dns, seed_ips, seed_cidrs, seed_domains, seed_allowlist,
}

-- a policy of one network
abbrev pub only : Mode → IpNet → Engine
only mode n = record {
  mode = mode;
  domains = [];
  wildcards = [];
  allowed_ip = [];
  cidrs = n ∷ [];
  allow_all_dns = false;
}

-- a network of IPv4-mapped addresses that holds a destination
pub record IsMappedNet (n : IpNet) (ip4 daddr : Ip) : Type 0 where
  pub bits : n.bits ≡ 128
  pub mapped : to4 n.ip ≡ some ip4
  pub size : length ip4 ≡ 4
  pub long : 32 < n.ones
  pub address_size : length daddr ≡ 4
  pub holds : same_prefix (n.ones - 96) ip4 daddr ≡ true

filled : (s : Bytes) → length s ≡ 4 → is_empty s ≡ false
filled [] h = absurd (omega (arith, h))
filled (c ∷ s) h = refl

module _ (n : IpNet) (ip4 daddr : Ip) (h : IsMappedNet n ip4 daddr) where
  contained : net_contains n daddr ≡ true
  contained = mapped-contains n ip4 daddr h.bits h.mapped h.size h.address_size ∙ h.holds

  allowed : (t : Tables) (mode : Mode) (domain : Bytes) → allow t (only mode n) domain daddr ≡ true
  unfolding allow allows_ip has_key
  allowed t mode domain =
      let some_bytes = filled daddr h.address_size in ground (arith, some_bytes, contained)

  module _ (lib : KernelMaps) where
    -- nothing is written for the network
    unwritten :
        (m : BlockMaps lib) (ws : List Warning)
        → (seed_cidrs lib (n ∷ []) (record { block = some m; warnings = ws })).block ≡ some m
    unfolding seed_cidrs attempt
    unwritten m ws = rw (mapped-refused lib m n ip4 h.mapped h.long) refl

    -- the seeding of the DNS rule leaves the addresses
    denied_behind :
        (m : BlockMaps lib) (dport : ℕ) (x : Option (KernelMaps.Slot lib))
        → first_is 127 daddr ≡ false
        → (dport == 53) ≡ false
        → lib.has_prefix_of m.allowed_ips daddr ≡ false
        → permits lib
            (seed_cidrs lib (n ∷ []) (
              attempt lib set_dns_failed
                (record { block = some m; warnings = [] })
                (with_config lib m x))).block
            daddr
            dport
          ≡ false
    unfolding check_ipv4 attempt
    denied_behind m dport none l p e = rw (unwritten m (set_dns_failed ∷ [])) (ground arith)
    denied_behind m dport (some c) l p e =
        rw (unwritten (record m { config = c }) []) (ground arith)

    -- When a policy is one network of IPv4-mapped addresses whose mask is longer than 32 bits, it allows
    -- each IPv4 destination in it; but behind the seeding of maps that do not hold the destination, the
    -- kernel denies it, unless it is a loopback address or the port is that of DNS.
    pub seed_allowlist-mapped_net :
        (t : Tables) (mode : Mode) (domain : Bytes) (dport : ℕ) (m : BlockMaps lib)
        (resolve : Bytes → Option (List Ip))
        → first_is 127 daddr ≡ false
        → (dport == 53) ≡ false
        → lib.has_prefix_of m.allowed_ips daddr ≡ false
        → (allow t (only mode n) domain daddr ≡ true)
          × (permits lib (seed_allowlist lib resolve (only mode n) (some m)).block daddr dport
              ≡ false)
    unfolding seed_allowlist seed_domains seed_ips seed_dns set_allow_all_dns
    seed_allowlist-mapped_net t mode domain dport m resolve l p e =
        (allowed t mode domain, denied_behind m dport (lib.put_slot false m.config) l p e)
