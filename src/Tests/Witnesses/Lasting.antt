-- ===== src/Tests/Witnesses/Lasting.antt =====
-- Instances of the theorems on what is open once the agent has written it.
use field_cage.Base.{true, List, [], ◌∷◌, ◌≡◌, refl, inl}
use field_cage.Text.Bytes.{Bytes, equal, cut_prefix, trim_suffix}
use field_cage.Net.Ip.{string, is_loopback, to4, to16}
use field_cage.Policy.Engine.{has_key}
use field_cage.Net.Cidr.{same_prefix}
use field_cage.Ebpf.Watcher.{seed_resolvers, allow_resolver, allow_ip, set_allow_all_dns}
use field_cage.Ebpf.Permits.{permits}
use field_cage.Ebpf.Maps.{covers_key}
use field_cage.Agent.Start.{setup_of, fresh_block}
use field_cage.Agent.Steps.{
  Agent, Write, seed, receive, record_next, receive_record, record_address, writes, perform,
  seed_next, agent_of, Reach, here, next,
}
use field_cage.Agent.Seed.{seed_dns, attempt}
use field_cage.Tests.Samples.{github}
use field_cage.Tests.PolicyRuns.{the_engine}
use field_cage.Tests.Doubles.{list_maps, list_parser}
use field_cage.Ebpf.Permits.{is_under}
use field_cage.Ebpf.Resolvers.{is_trusted_source}
use field_cage.Policy.Decide.{is_allowed_domain}
use field_cage.Text.Case.{to_lower}
use field_cage.Ebpf.Event.{little_endian}
use field_cage.Ebpf.Dns.{parse_dns_response}
use field_cage.Ebpf.Watcher.{allow_cidr}
use field_cage.Tests.Witnesses.Running.{setup, resolve, agent, listed}
use field_cage.Agent.Complete.{IsHeard}
use field_cage.Agent.Lasting.{listed-permitted, heard-permitted}

-- the agent behind all its writes
abbrev seed_all : List Write → Agent list_maps → Agent list_maps
seed_all [] a = a
seed_all (v ∷ vs) a = seed_all vs (seed_next list_maps v vs a)

seed_all-Reach :
    (vs : List Write) (a : Agent list_maps)
    → a.todo ≡ vs
    → Reach list_maps list_parser 7 setup agent a
    → Reach list_maps list_parser 7 setup agent (seed_all vs a)
unfolding seed_next
seed_all-Reach [] a q r = r
seed_all-Reach (v ∷ vs) a q r =
    seed_all-Reach vs (seed_next list_maps v vs a) refl (next r (seed a v vs q))

seed_all-done : (vs : List Write) (a : Agent list_maps) → a.todo ≡ vs → (seed_all vs a).todo ≡ []
unfolding seed_next
seed_all-done [] a q = q
seed_all-done (v ∷ vs) a q = seed_all-done vs (seed_next list_maps v vs a) refl

abbrev seeded : Agent list_maps
seeded = seed_all (writes resolve the_engine) agent

seeded-quiet : seeded.warnings ≡ []
unfolding seed_next agent_of setup_of writes perform fresh_block seed_resolvers allow_resolver
    is_loopback allow_ip to4 cut_prefix equal set_allow_all_dns seed_dns attempt allow_cidr to16
seeded-quiet = refl

planned : agent.todo ≡ writes resolve the_engine
unfolding agent_of setup_of equal
planned = refl

listed-permitted_example : permits list_maps seeded.block listed 8080 ≡ true
unfolding setup_of equal to4 cut_prefix covers_key same_prefix is_under
listed-permitted_example =
    listed-permitted list_maps listed 8080 list_parser 7 setup resolve seeded the_engine refl refl
      (seed_all-Reach (writes resolve the_engine) agent planned here)
      (seed_all-done (writes resolve the_engine) agent planned) seeded-quiet refl

-- a record from the nameserver, whose response answers github.com with its address
abbrev raw : Bytes
raw = 4 ∷ 0 ∷ 0 ∷ 0 ∷ 8 ∷ 8 ∷ 8 ∷ 8 ∷ github

abbrev received : Agent list_maps
received = receive list_maps list_parser setup.watch raw agent

abbrev recorded : Agent list_maps
recorded = record_next list_maps github [] received

heard : IsHeard list_parser setup.watch (λ ip. is_under 32 ip github) raw
unfolding little_endian parse_dns_response trim_suffix is_trusted_source is_loopback has_key
    setup_of string is_allowed_domain to_lower is_under covers_key same_prefix
heard = record {
  long = refl;
  whole = refl;
  named = refl;
  justifies = record { trusted = refl; allowed = refl; answered = refl };
}

recorded-Reach : Reach list_maps list_parser 7 setup agent recorded
unfolding agent_of receive little_endian parse_dns_response trim_suffix
recorded-Reach =
    next (next here (receive_record agent raw refl)) (record_address received github [] refl)

heard-permitted_example : permits list_maps recorded.block github 443 ≡ true
unfolding record_next receive little_endian parse_dns_response trim_suffix agent_of setup_of
    seed_resolvers is_allowed_domain has_key to_lower is_trusted_source string allow_ip
heard-permitted_example =
    heard-permitted list_maps github 443 list_parser 7 setup resolve recorded recorded-Reach refl
      refl (inl heard)
