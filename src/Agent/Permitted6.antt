-- ===== src/Agent/Permitted6.antt =====
-- Why the kernel permits an IPv6 destination, whatever the agent does at the same time.
use field_cage.Base.{
  ℕ, Bool, true, false, ◌&&◌, List, Option, none, some, ◌==◌, ◌≡◌, ◌⊎◌, refl, arith, Option-cases,
  Bool-cases, inl, inr, ok,
}
use field_cage.Text.Bytes.{Bytes, equal, cut_prefix, is_empty}
use field_cage.Net.Ip.{Ip, to4, to16, mapped_prefix, loopback6}
use field_cage.Policy.Engine.{Engine, block}
use field_cage.Ebpf.Maps.{KernelMaps, BlockMaps}
use field_cage.Ebpf.Kernel.{check_native6}
use field_cage.Ebpf.Watcher.{
  Block, allow_resolver, put_resolver, set_allow_all_dns, with_config, with_resolvers,
  with_resolvers6,
}
use field_cage.Ebpf.Dns.{Parser}
use field_cage.Ebpf.Permits6.{is_same6, permits6, native-check}
use field_cage.Agent.Enforce6.{reach6}
use field_cage.Agent.Start.{World, Setup, start}
use field_cage.Agent.Steps.{Agent, agent_of, Reach}
use field_cage.Agent.Check.{Check}
use field_cage.Agent.Grounds.{Grounds, opened-Grounds}

module _ (lib : KernelMaps) (daddr : Bytes) (dport : ℕ)
    (native : cut_prefix mapped_prefix daddr ≡ none) where
  -- what a write of a configuration or of a nameserver can open
  abbrev pub Opened : Block lib → Block lib → Bool → Type 0
  Opened a b c =
      permits6 lib b daddr dport ≡ true
      → (permits6 lib a daddr dport ≡ true) ⊎ ((dport == 53 && c) ≡ true)

  with_config-opened6 :
      (m : BlockMaps lib) (enabled : Bool) (b : Block lib) (x : Option (KernelMaps.Slot lib))
      → lib.put_slot enabled m.config ≡ x
      → with_config lib m x ≡ some b
      → Opened (some m) b enabled
  unfolding check_native6
  with_config-opened6 m enabled b none e p h = absurd (ground arith)
  with_config-opened6 m enabled b (some u) e p h =
      let after = record m { config = u } in
      let same : some after ≡ b = ground arith in
      let now = rw (← same) at h in
      ground (
        arith,
        lib.slot_is_set-put_slot enabled m.config u e,
        native-check lib daddr dport native m,
        native-check lib daddr dport native after,
      )

  pub set_dns-opened6 :
      (a b : Block lib) (enabled : Bool)
      → set_allow_all_dns lib a enabled ≡ some b
      → Opened a b enabled
  unfolding set_allow_all_dns
  set_dns-opened6 none b enabled p h = inl refl
  set_dns-opened6 (some m) b enabled p h =
      with_config-opened6 m enabled b (lib.put_slot enabled m.config) refl p h

  with_resolvers-opened6 :
      (m : BlockMaps lib) (b : Block lib) (x : Option (KernelMaps.HashSet lib))
      → with_resolvers lib m x ≡ some b
      → Opened (some m) b false
  unfolding check_native6
  with_resolvers-opened6 m b none p h = absurd (ground arith)
  with_resolvers-opened6 m b (some u) p h =
      let after = record m { dns_resolvers = u } in
      let same : some after ≡ b = ground arith in
      let now = rw (← same) at h in
      ground
        (arith, native-check lib daddr dport native m, native-check lib daddr dport native after)

  with_resolvers6-opened6 :
      (m : BlockMaps lib) (b : Block lib) (k : Bytes) (x : Option (KernelMaps.HashSet lib))
      → lib.put_member k m.dns_resolvers6 ≡ x
      → with_resolvers6 lib m x ≡ some b
      → Opened (some m) b (equal k daddr)
  unfolding check_native6
  with_resolvers6-opened6 m b k none e p h = absurd (ground arith)
  with_resolvers6-opened6 m b k (some u) e p h =
      let after = record m { dns_resolvers6 = u } in
      let same : some after ≡ b = ground arith in
      let now = rw (← same) at h in
      ground (
        arith,
        lib.has_member-put_member k m.dns_resolvers6 u daddr e,
        native-check lib daddr dport native m,
        native-check lib daddr dport native after,
      )

  put_resolver-opened6 :
      (m : BlockMaps lib) (b : Block lib) (ip : Ip)
      → put_resolver lib m ip ≡ some b
      → Opened (some m) b (is_same6 ip daddr)
  unfolding put_resolver is_same6
  put_resolver-opened6 m b ip p = elim (Option-cases (to4 ip)) [
    | inr (ip4, q) ↦
        rw (q, is_same6)
          (with_resolvers-opened6 m b (lib.put_member ip4 m.dns_resolvers)
            (rw (q, put_resolver) at p))
    | inl q ↦ elim (Option-cases (to16 ip)) [
      | inr (ip16, r) ↦
          rw (q, r, is_same6)
            (with_resolvers6-opened6 m b ip16 (lib.put_member ip16 m.dns_resolvers6) refl
              (rw (q, r, put_resolver) at p))
      | inl r ↦ let same : some m ≡ b = ground arith in rw (← same) (λ h. inl h)
    ]
  ]

  pub allow_resolver-opened6 :
      (a b : Block lib) (ip : Ip)
      → allow_resolver lib a ip ≡ some b
      → Opened a b (is_same6 ip daddr)
  unfolding allow_resolver
  allow_resolver-opened6 none b ip p = λ h. inl refl
  allow_resolver-opened6 (some m) b ip p = elim (Bool-cases (is_empty ip)) [
    | inl e ↦ let same : some m ≡ b = ground arith in rw (← same) (λ h. inl h)
    | inr e ↦ put_resolver-opened6 m b ip (rw (e, allow_resolver) at p)
  ]

  abbrev pub check6 : Check lib
  check6 = record {
    reach = reach6 lib daddr dport native;
    dport = dport;
    loopback = equal daddr loopback6;
    server = λ ip. is_same6 ip daddr;
    dns_law = set_dns-opened6;
    server_law = allow_resolver-opened6;
  }

  -- maps that the kernel has just made
  pub record IsFresh6 (m : BlockMaps lib) : Type 0 where
    pub no_ips : lib.has_prefix_of m.allowed_ips6 daddr ≡ false
    pub no_resolvers : lib.has_member m.dns_resolvers6 daddr ≡ false
    pub restricted : lib.slot_is_set m.config ≡ false

  fresh-loopback6 :
      (m : BlockMaps lib)
      → IsFresh6 m
      → permits6 lib (some m) daddr dport ≡ true
      → equal daddr loopback6 ≡ true
  unfolding check_native6
  fresh-loopback6 m f h =
      ground (arith, f.no_ips, f.no_resolvers, f.restricted, native-check lib daddr dport native m)

  -- When the agent has started in block mode with a policy, and its maps were made empty, then
  -- whatever the seeding, the DNS watcher and the reader of events have done since, in any order,
  -- an IPv6 destination that is not IPv4-mapped and that the kernel permits is the loopback
  -- address, is DNS (to any server if the policy says so, or to a nameserver of the host), is
  -- listed by the policy or an address that one of its domains resolved to, or a DNS response so
  -- far justifies it: it came from a nameserver of the host or from a loopback address, and it
  -- answers a domain that the policy allows with this address.
  pub permitted-Grounds6 :
      (resolve : Bytes → Option (List Ip)) (e : Engine) (w : World) (dns : Parser) (self : ℕ)
      (s : Setup lib) (m : BlockMaps lib) (path flag : Bytes) (a : Agent lib)
      → IsFresh6 m
      → start lib w m path flag ≡ ok s
      → equal s.mode block ≡ true
      → s.engine ≡ some e
      → Reach lib dns self s (agent_of lib resolve s) a
      → permits6 lib a.block daddr dport ≡ true
      → Grounds lib check6 resolve e dns s a
  permitted-Grounds6 resolve e w dns self s m path flag a f started blocks has r h =
      opened-Grounds lib check6 resolve e dns s w self m path flag a (fresh-loopback6 m f) started
        blocks has r h
