-- ===== src/Tests/Witnesses/Enforcement.antt =====
-- Instances of the theorems on the seeded maps.
use field_cage.Base.{
  true, ◌||◌, ◌&&◌, List, [], ◌∷◌, ◌++◌, Option, none, some, ◌==◌, any, ◌≡◌, ◌⊎◌, refl, arith,
  replicate, false,
}
use field_cage.Text.Bytes.{Bytes, equal, cut_prefix}
use field_cage.Net.Ip.{Ip, mapped_prefix, is_loopback, loopback6, first_is, to4, to16}
use field_cage.Net.Cidr.{IpNet, same_prefix}
use field_cage.Policy.Decide.{domains, ips, cidrs}
use field_cage.Ebpf.Kernel.{check_ipv4}
use field_cage.Ebpf.Watcher.{
  allow_ip, allow_cidr, seed_resolvers, set_allow_all_dns, allow_resolver,
}
use field_cage.Ebpf.Permits.{permits, is_under}
use field_cage.Ebpf.Seeded.{Extends, is_seeded, seed_resolvers-Extends}
use field_cage.Agent.Unopened.{only, seed_allowlist-mapped_net}
use field_cage.Policy.Decide.{allow}
use field_cage.Policy.Engine.{block}
use field_cage.Agent.Exempt.{dns_exempt_for}
use field_cage.Agent.Seed.{seed_allowlist}
use field_cage.Agent.Enforce.{seed_allowlist-permits}
use field_cage.Agent.Reach.{is_resolved}
use field_cage.Agent.Agree.{permitted_dns-skip}
use field_cage.Report.Verdict.{verdict_for, skip_dns}
use field_cage.Ebpf.Permits6.{is_under6, permits6}
use field_cage.Agent.Enforce6.{seed_allowlist-permits6}
use field_cage.Tests.Samples.{plain_tables, remote}
use field_cage.Tests.PolicyRuns.{the_engine}
use field_cage.Tests.Doubles.{list_maps, empty_maps}

abbrev resolve : Bytes → Option (List Ip)
resolve d = some ((140 ∷ 82 ∷ 112 ∷ 4 ∷ []) ∷ [])

seeded_quietly : (seed_allowlist list_maps resolve the_engine (some empty_maps)).warnings ≡ []
unfolding seed_allowlist allow_ip allow_cidr set_allow_all_dns to4 to16
seeded_quietly = refl

seed_allowlist-permits_example :
    permits list_maps
      (seed_allowlist list_maps resolve the_engine (some empty_maps)).block
      remote
      443
    ≡ (first_is 127 remote
        || ((443 == 53)
            && (the_engine.allow_all_dns || list_maps.has_member empty_maps.dns_resolvers remote))
        || list_maps.has_prefix_of empty_maps.allowed_ips remote
        || any (λ ip. is_under 32 ip remote) (ips the_engine)
        || any (λ (n : IpNet). is_under n.ones n.ip remote) (cidrs the_engine)
        || any (is_resolved resolve (λ ip. is_under 32 ip remote)) (domains the_engine))
seed_allowlist-permits_example =
    seed_allowlist-permits list_maps remote 443 resolve the_engine empty_maps seeded_quietly

abbrev server : Ip
server = 8 ∷ 8 ∷ 8 ∷ 8 ∷ []

abbrev servers : List Ip
servers = (mapped_prefix ++ 127 ∷ 0 ∷ 0 ∷ 53 ∷ []) ∷ (mapped_prefix ++ server) ∷ []

servers_seeded : (seed_resolvers list_maps (some empty_maps) servers).failed ≡ []
unfolding seed_resolvers is_loopback allow_resolver to4 equal
servers_seeded = refl

seed_resolvers-Extends_example :
    (m' : _) × ((seed_resolvers list_maps (some empty_maps) servers).state ≡ some m')
    × Extends list_maps server empty_maps m' (any (is_seeded server) servers)
seed_resolvers-Extends_example =
    seed_resolvers-Extends list_maps server empty_maps servers servers_seeded

both_seeded :
    (seed_allowlist list_maps resolve the_engine
      (seed_resolvers list_maps (some empty_maps) servers).state).warnings
    ≡ []
unfolding seed_allowlist allow_ip allow_cidr set_allow_all_dns to4 to16 seed_resolvers is_loopback
    allow_resolver equal
both_seeded = refl

server_permitted :
    permits list_maps
      (seed_allowlist list_maps resolve the_engine
        (seed_resolvers list_maps (some empty_maps) servers).state).block
      server
      53
    ≡ true
unfolding seed_allowlist allow_ip allow_cidr set_allow_all_dns to4 to16 seed_resolvers is_loopback
    allow_resolver equal check_ipv4
server_permitted = refl

permitted_dns-skip_example :
    (verdict_for 53 server [] none (dns_exempt_for (some the_engine) servers) ≡ skip_dns)
    ⊎ (permits list_maps
          (seed_allowlist list_maps resolve the_engine
            (seed_resolvers list_maps (some empty_maps) servers).state).block
          server
          443
        ≡ true)
permitted_dns-skip_example =
    permitted_dns-skip list_maps empty_maps servers resolve the_engine server [] none 443 refl refl
      servers_seeded both_seeded server_permitted

-- the network ::ffff:10.0.0.0/104
abbrev mapped_net : IpNet
mapped_net = record { ip = mapped_prefix ++ 10 ∷ 0 ∷ 0 ∷ 0 ∷ []; ones = 104; bits = 128 }

seed_allowlist-mapped_net_example :
    (allow plain_tables (only block mapped_net) [] remote ≡ true)
    × (permits list_maps
          (seed_allowlist list_maps resolve (only block mapped_net) (some empty_maps)).block
          remote
          443
        ≡ false)
unfolding to4 cut_prefix same_prefix
seed_allowlist-mapped_net_example =
    seed_allowlist-mapped_net mapped_net (10 ∷ 0 ∷ 0 ∷ 0 ∷ []) remote
      (record {
        bits = refl;
        mapped = refl;
        size = refl;
        long = omega arith;
        address_size = refl;
        holds = refl;
      })
      list_maps plain_tables block [] 443 empty_maps resolve refl refl refl

abbrev remote6 : Ip
remote6 = 0x20 ∷ 1 ∷ 0x0d ∷ 0xb8 ∷ (replicate 11 0 ++ 7 ∷ [])

seed_allowlist-permits6_example :
    permits6 list_maps
      (seed_allowlist list_maps resolve the_engine (some empty_maps)).block
      remote6
      443
    ≡ (equal remote6 loopback6
        || ((443 == 53)
            && (the_engine.allow_all_dns || list_maps.has_member empty_maps.dns_resolvers6 remote6))
        || list_maps.has_prefix_of empty_maps.allowed_ips6 remote6
        || any (λ ip. is_under6 128 ip remote6) (ips the_engine)
        || any (λ (n : IpNet). is_under6 n.ones n.ip remote6) (cidrs the_engine)
        || any (is_resolved resolve (λ ip. is_under6 128 ip remote6)) (domains the_engine))
unfolding cut_prefix
seed_allowlist-permits6_example =
    seed_allowlist-permits6 list_maps remote6 443 refl resolve the_engine empty_maps seeded_quietly
