-- ===== src/Agent/Permitted.antt =====
-- Why the kernel permits an IPv4 destination, whatever the agent does at the same time.
use field_cage.Base.{
  ℕ, Bool, true, false, ◌&&◌, List, Option, none, some, ◌==◌, ◌≡◌, ◌⊎◌, refl, ap, arith, inl, ok,
}
use field_cage.Text.Bytes.{Bytes, equal}
use field_cage.Net.Ip.{Ip, first_is}
use field_cage.Policy.Engine.{Engine, block}
use field_cage.Ebpf.Maps.{KernelMaps, BlockMaps}
use field_cage.Ebpf.Kernel.{check_ipv4}
use field_cage.Ebpf.Watcher.{Block, allow_resolver, set_allow_all_dns, with_config}
use field_cage.Ebpf.Dns.{Parser}
use field_cage.Ebpf.Permits.{is_same, permits}
use field_cage.Ebpf.Seeded.{Extends, Leaves, allow_resolver-Extends}
use field_cage.Agent.Enforce.{reach4}
use field_cage.Agent.Start.{World, Setup, start}
use field_cage.Agent.Steps.{Agent, agent_of, Reach}
use field_cage.Agent.Check.{Check}
use field_cage.Agent.Grounds.{Grounds, opened-Grounds}

module _ (lib : KernelMaps) (daddr : Bytes) (dport : ℕ) where
  with_config-opened :
      (m : BlockMaps lib) (enabled : Bool) (b : Block lib) (x : Option (KernelMaps.Slot lib))
      → lib.put_slot enabled m.config ≡ x
      → with_config lib m x ≡ some b
      → permits lib b daddr dport ≡ true
      → (permits lib (some m) daddr dport ≡ true) ⊎ ((dport == 53 && enabled) ≡ true)
  unfolding check_ipv4
  with_config-opened m enabled b none e p h = absurd (ground arith)
  with_config-opened m enabled b (some u) e p h =
      let same : some (record m { config = u }) ≡ b = ground arith in
      let now = rw (← same) at h in ground (arith, lib.slot_is_set-put_slot enabled m.config u e)

  pub set_dns-opened :
      (a b : Block lib) (enabled : Bool)
      → set_allow_all_dns lib a enabled ≡ some b
      → permits lib b daddr dport ≡ true
      → (permits lib a daddr dport ≡ true) ⊎ ((dport == 53 && enabled) ≡ true)
  unfolding set_allow_all_dns
  set_dns-opened none b enabled p h = inl refl
  set_dns-opened (some m) b enabled p h =
      with_config-opened m enabled b (lib.put_slot enabled m.config) refl p h

  -- Seeding a nameserver opens it for DNS.
  Extends-opened :
      (m m' : BlockMaps lib) (c : Bool)
      → Extends lib daddr m m' c
      → permits lib (some m') daddr dport ≡ true
      → (permits lib (some m) daddr dport ≡ true) ⊎ ((dport == 53 && c) ≡ true)
  unfolding check_ipv4
  Extends-opened m m' c x h =
      let same_ips = ap (λ t. lib.has_prefix_of t daddr) x.same_ips in
      let same_config = ap lib.slot_is_set x.same_config in
      ground (arith, x.members, same_ips, same_config)

  Leaves-opened :
      (m : BlockMaps lib) (b : Block lib) (c : Bool)
      → Leaves lib daddr m b c
      → permits lib b daddr dport ≡ true
      → (permits lib (some m) daddr dport ≡ true) ⊎ ((dport == 53 && c) ≡ true)
  Leaves-opened m none c x h = absurd x
  Leaves-opened m (some m') c x h = Extends-opened m m' c x h

  pub allow_resolver-opened :
      (a b : Block lib) (ip : Ip)
      → allow_resolver lib a ip ≡ some b
      → permits lib b daddr dport ≡ true
      → (permits lib a daddr dport ≡ true) ⊎ ((dport == 53 && is_same ip daddr) ≡ true)
  allow_resolver-opened none b ip p h = inl refl
  allow_resolver-opened (some m) b ip p h =
      Leaves-opened m b _ (allow_resolver-Extends lib daddr m b ip p) h

  abbrev pub check4 : Check lib
  check4 = record {
    reach = reach4 lib daddr dport;
    dport = dport;
    loopback = first_is 127 daddr;
    server = λ ip. is_same ip daddr;
    dns_law = set_dns-opened;
    server_law = allow_resolver-opened;
  }

  -- maps that the kernel has just made
  pub record IsFresh (m : BlockMaps lib) : Type 0 where
    pub no_ips : lib.has_prefix_of m.allowed_ips daddr ≡ false
    pub no_resolvers : lib.has_member m.dns_resolvers daddr ≡ false
    pub restricted : lib.slot_is_set m.config ≡ false

  fresh-loopback :
      (m : BlockMaps lib)
      → IsFresh m
      → permits lib (some m) daddr dport ≡ true
      → first_is 127 daddr ≡ true
  unfolding check_ipv4
  fresh-loopback m f h = ground (arith, f.no_ips, f.no_resolvers, f.restricted)

  -- When the agent has started in block mode with a policy, and its maps were made empty, then
  -- whatever the seeding, the DNS watcher and the reader of events have done since, in any order, an
  -- IPv4 destination that the kernel permits is a loopback address, is DNS (to any server if the
  -- policy says so, or to a nameserver of the host), is listed by the policy or an address that one
  -- of its domains resolved to, or a DNS response so far justifies it: it came from a nameserver of
  -- the host or from a loopback address, and it answers a domain that the policy allows with this
  -- address.
  pub permitted-Grounds :
      (resolve : Bytes → Option (List Ip)) (e : Engine) (w : World) (dns : Parser) (self : ℕ)
      (s : Setup lib) (m : BlockMaps lib) (path flag : Bytes) (a : Agent lib)
      → IsFresh m
      → start lib w m path flag ≡ ok s
      → equal s.mode block ≡ true
      → s.engine ≡ some e
      → Reach lib dns self s (agent_of lib resolve s) a
      → permits lib a.block daddr dport ≡ true
      → Grounds lib check4 resolve e dns s a
  permitted-Grounds resolve e w dns self s m path flag a f started blocks has r h =
      opened-Grounds lib check4 resolve e dns s w self m path flag a (fresh-loopback m f) started
        blocks has r h
