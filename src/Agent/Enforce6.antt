-- ===== src/Agent/Enforce6.antt =====
-- What the seeded maps permit of IPv6.
use field_cage.Base.{
  ℕ, Bool, ◌||◌, ◌&&◌, List, [], Option, none, some, ◌==◌, any, ◌≡◌, arith, Option-cases, inl, inr,
}
use field_cage.Text.Bytes.{Bytes, equal, cut_prefix}
use field_cage.Net.Ip.{Ip, mapped_prefix, loopback6}
use field_cage.Net.Cidr.{IpNet}
use field_cage.Policy.Engine.{Engine}
use field_cage.Policy.Decide.{domains, ips, cidrs}
use field_cage.Ebpf.Maps.{KernelMaps, BlockMaps}
use field_cage.Ebpf.Kernel.{check_native6}
use field_cage.Ebpf.Watcher.{set_allow_all_dns}
use field_cage.Ebpf.Permits6.{is_under6, permits6, native-check, allow_ip-Opens6, allow_cidr-Opens6}
use field_cage.Agent.Reach.{Reach, is_resolved, seed_allowlist-opens}
use field_cage.Agent.Seed.{attempt, seed_dns, seed_allowlist}

module _ (lib : KernelMaps) (daddr : Bytes) (dport : ℕ)
    (native : cut_prefix mapped_prefix daddr ≡ none) where
  abbrev pub reach6 : Reach lib
  reach6 = record {
    opens = λ b. permits6 lib b daddr dport;
    host = λ ip. is_under6 128 ip daddr;
    net = λ n. is_under6 n.ones n.ip daddr;
    host_law = allow_ip-Opens6 lib daddr dport native;
    net_law = allow_cidr-Opens6 lib daddr dport native;
  }

  -- the IPv6 check with the configuration that the agent writes first
  seed_dns-permits6 :
      (m : BlockMaps lib) (enabled : Bool)
      → (seed_dns lib enabled (record { block = some m; warnings = [] })).warnings ≡ []
      → permits6 lib
          (seed_dns lib enabled (record { block = some m; warnings = [] })).block
          daddr
          dport
        ≡ (equal daddr loopback6
            || (dport == 53 && (enabled || lib.has_member m.dns_resolvers6 daddr))
            || lib.has_prefix_of m.allowed_ips6 daddr)
  unfolding seed_dns set_allow_all_dns check_native6 attempt
  seed_dns-permits6 m enabled h = elim (Option-cases (lib.put_slot enabled m.config)) [
    | inl p ↦ absurd (ground arith)
    | inr (c, p) ↦ ground (
      arith,
      lib.slot_is_set-put_slot enabled m.config c p,
      native-check lib daddr dport native (record m { config = c }),
    )
  ]

  -- When the agent seeds the maps without a warning, the kernel permits an IPv6 destination that is
  -- not IPv4-mapped exactly when it is the loopback address, is DNS (to any server if the policy says
  -- so, or to a resolver of the maps), lies in the maps already, is an address of the policy or in
  -- one of its networks, or is an address that one of its domains resolved to.
  pub seed_allowlist-permits6 :
      (resolve : Bytes → Option (List Ip)) (e : Engine) (m : BlockMaps lib)
      → (seed_allowlist lib resolve e (some m)).warnings ≡ []
      → permits6 lib (seed_allowlist lib resolve e (some m)).block daddr dport ≡ (
          equal daddr loopback6
          || (dport == 53 && (e.allow_all_dns || lib.has_member m.dns_resolvers6 daddr))
          || lib.has_prefix_of m.allowed_ips6 daddr
          || any (λ ip. is_under6 128 ip daddr) (ips e)
          || any (λ (n : IpNet). is_under6 n.ones n.ip daddr) (cidrs e)
          || any (is_resolved resolve (λ ip. is_under6 128 ip daddr)) (domains e))
  seed_allowlist-permits6 resolve e m h =
      let (quiet, opened) = seed_allowlist-opens lib reach6 resolve e (some m) h in
      ground (arith, opened, seed_dns-permits6 m e.allow_all_dns quiet)
