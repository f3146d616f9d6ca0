-- ===== src/Agent/Enforce.antt =====
-- What the seeded maps permit of IPv4.
use field_cage.Base.{
  ℕ, Bool, ◌||◌, ◌&&◌, List, [], Option, some, ◌==◌, any, ◌≡◌, arith, Option-cases, inl, inr,
}
use field_cage.Text.Bytes.{Bytes}
use field_cage.Net.Ip.{Ip, first_is}
use field_cage.Net.Cidr.{IpNet}
use field_cage.Policy.Engine.{Engine}
use field_cage.Policy.Decide.{domains, ips, cidrs}
use field_cage.Ebpf.Maps.{KernelMaps, BlockMaps}
use field_cage.Ebpf.Kernel.{check_ipv4}
use field_cage.Ebpf.Watcher.{set_allow_all_dns}
use field_cage.Ebpf.Permits.{is_under, permits, allow_ip-Opens, allow_cidr-Opens}
use field_cage.Agent.Reach.{Reach, is_resolved, seed_allowlist-opens}
use field_cage.Agent.Seed.{attempt, seed_dns, seed_allowlist}

module _ (lib : KernelMaps) (daddr : Bytes) (dport : ℕ) where
  abbrev pub reach4 : Reach lib
  reach4 = record {
    opens = λ b. permits lib b daddr dport;
    host = λ ip. is_under 32 ip daddr;
    net = λ n. is_under n.ones n.ip daddr;
    host_law = allow_ip-Opens lib daddr dport;
    net_law = allow_cidr-Opens lib daddr dport;
  }

  -- the IPv4 check with the configuration that the agent writes first
  seed_dns-permits :
      (m : BlockMaps lib) (enabled : Bool)
      → (seed_dns lib enabled (record { block = some m; warnings = [] })).warnings ≡ []
      → permits lib
          (seed_dns lib enabled (record { block = some m; warnings = [] })).block
          daddr
          dport
        ≡ (first_is 127 daddr
            || (dport == 53 && (enabled || lib.has_member m.dns_resolvers daddr))
            || lib.has_prefix_of m.allowed_ips daddr)
  unfolding seed_dns set_allow_all_dns check_ipv4 attempt
  seed_dns-permits m enabled h = elim (Option-cases (lib.put_slot enabled m.config)) [
    | inl p ↦ absurd (ground arith)
    | inr (c, p) ↦ ground (arith, lib.slot_is_set-put_slot enabled m.config c p)
  ]

  -- When the agent seeds the maps without a warning, the kernel permits an IPv4 destination exactly
  -- when it is a loopback address, is DNS (to any server if the policy says so, or to a resolver of
  -- the maps), lies in the maps already, is an address of the policy or in one of its networks, or is
  -- an address that one of its domains resolved to.
  pub seed_allowlist-permits :
      (resolve : Bytes → Option (List Ip)) (e : Engine) (m : BlockMaps lib)
      → (seed_allowlist lib resolve e (some m)).warnings ≡ []
      → permits lib (seed_allowlist lib resolve e (some m)).block daddr dport ≡ (
          first_is 127 daddr
          || (dport == 53 && (e.allow_all_dns || lib.has_member m.dns_resolvers daddr))
          || lib.has_prefix_of m.allowed_ips daddr
          || any (λ ip. is_under 32 ip daddr) (ips e)
          || any (λ (n : IpNet). is_under n.ones n.ip daddr) (cidrs e)
          || any (is_resolved resolve (λ ip. is_under 32 ip daddr)) (domains e))
  seed_allowlist-permits resolve e m h =
      let (quiet, opened) = seed_allowlist-opens lib reach4 resolve e (some m) h in
      ground (arith, opened, seed_dns-permits m e.allow_all_dns quiet)
