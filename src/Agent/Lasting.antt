-- ===== src/Agent/Lasting.antt =====
-- What the kernel permits of an IPv4 destination once the agent has nothing left to write for it.
use field_cage.Base.{ℕ, Bool, true, ◌||◌, List, [], Option, none, some, any, Any, ◌≡◌, refl, arith}
use field_cage.Text.Bytes.{Bytes}
use field_cage.Net.Ip.{Ip}
use field_cage.Net.Cidr.{IpNet}
use field_cage.Policy.Engine.{Engine}
use field_cage.Policy.Decide.{domains, ips, cidrs}
use field_cage.Ebpf.Maps.{KernelMaps, BlockMaps}
use field_cage.Ebpf.Kernel.{check_ipv4}
use field_cage.Ebpf.Watcher.{Block, set_allow_all_dns, with_config}
use field_cage.Ebpf.Dns.{Parser}
use field_cage.Ebpf.Permits.{is_under, permits}
use field_cage.Agent.Reach.{is_resolved}
use field_cage.Agent.Start.{Setup}
use field_cage.Agent.Steps.{Agent, agent_of, Reach}
use field_cage.Agent.Permitted.{check4}
use field_cage.Agent.Complete.{IsLasting, IsHeard}
use field_cage.Agent.Opened.{listed-opened}
use field_cage.Agent.Heard.{heard-opened}

module _ (lib : KernelMaps) (daddr : Bytes) where
  with_config-keeps :
      (m : BlockMaps lib) (b : Block lib) (x : Option (KernelMaps.Slot lib))
      → with_config lib m x ≡ some b
      → permits lib (some m) daddr 0 ≡ true
      → permits lib b daddr 0 ≡ true
  unfolding check_ipv4
  with_config-keeps m b none p h = absurd (ground arith)
  with_config-keeps m b (some u) p h =
      let same : some (record m { config = u }) ≡ b = ground arith in rw (← same) (ground arith)

  set_dns-keeps :
      (a b : Block lib) (enabled : Bool)
      → set_allow_all_dns lib a enabled ≡ some b
      → permits lib a daddr 0 ≡ true
      → permits lib b daddr 0 ≡ true
  unfolding set_allow_all_dns
  set_dns-keeps none b enabled p h = let same : none ≡ b = ground arith in rw (← same) refl
  set_dns-keeps (some m) b enabled p h = with_config-keeps m b (lib.put_slot enabled m.config) p h

  -- port 0 is not the port of DNS, so its check is that of the address
  lasting4 : IsLasting lib (check4 lib daddr 0)
  lasting4 = record { keeps = set_dns-keeps; loose = refl; other_port = refl }

  any_port :
      (b : Block lib) (dport : ℕ) → permits lib b daddr 0 ≡ true → permits lib b daddr dport ≡ true
  unfolding check_ipv4
  any_port none dport h = refl
  any_port (some m) dport h = ground arith

  module _ (dport : ℕ) (dns : Parser) (self : ℕ) (s : Setup lib)
      (resolve : Bytes → Option (List Ip)) (a : Agent lib) where
    -- Whatever the order in which the seeding, the DNS watcher and the reader of events have run, once
    -- the seeding of a policy has nothing left to write and has warned of nothing, the kernel permits
    -- every IPv4 destination that is an address of the policy, lies in one of its networks, or is an
    -- address that one of its domains resolved to, on every port.
    pub listed-permitted :
        (e : Engine)
        → s.engine ≡ some e
        → s.seeding ≡ true
        → Reach lib dns self s (agent_of lib resolve s) a
        → a.todo ≡ []
        → a.warnings ≡ []
        → (any (λ ip. is_under 32 ip daddr) (ips e)
            || any (λ (n : IpNet). is_under n.ones n.ip daddr) (cidrs e)
            || any (is_resolved resolve (λ ip. is_under 32 ip daddr)) (domains e))
          ≡ true
        → permits lib a.block daddr dport ≡ true
    listed-permitted e has seeding r done quiet listed = any_port a.block dport (
        listed-opened lib (check4 lib daddr 0) lasting4 dns self s resolve e a has seeding r done
          quiet listed)

    -- Whatever the order in which the parts have run, once the DNS watcher has no address in hand and
    -- no write of its own has failed, the kernel permits, on every port, every IPv4 destination that a
    -- record so far answers for: the record is whole and from a nameserver of the host or a loopback
    -- address, and its response gives the destination for a domain that the policy allows.
    pub heard-permitted :
        Reach lib dns self s (agent_of lib resolve s) a
        → a.pending ≡ []
        → a.failed ≡ []
        → Any (IsHeard dns s.watch (λ ip. is_under 32 ip daddr)) a.received
        → permits lib a.block daddr dport ≡ true
    heard-permitted r idle clean heard =
        any_port a.block dport
          (heard-opened lib (check4 lib daddr 0) lasting4 dns self s resolve a r idle clean heard)
