-- ===== src/Tests/Witnesses/Running.antt =====
-- Instances of the theorems on the agent as a whole.
use field_cage.Base.{
  true, false, drop, replicate, none, List, [], ◌∷◌, some, ◌++◌, Option, ◌≡◌, refl, ap, ok,
}
use field_cage.Text.Bytes.{
  Bytes, codes, equal, split, cut_prefix, has_prefix, trim_prefix, trim_suffix, cut_first,
}
use field_cage.Net.Ip.{Ip, mapped_prefix, string, is_loopback, to4, to16}
use field_cage.Policy.Engine.{block, has_key}
use field_cage.Text.Space.{trim_space, fields}
use field_cage.Net.Parse.{parse_ip}
use field_cage.Net.Cidr.{same_prefix}
use field_cage.Policy.Load.{decoded, load_file, decoded_engine, checked}
use field_cage.Ebpf.Resources.{
  Watcher, new_watcher, acquire, connect_objects, enter_tracepoint, exit_tracepoint, event_reader,
  block_objects, link4, link6, send4, send6, dns_objects, dns_socket, dns_reader,
}
use field_cage.Ebpf.Replay.{replay}
use field_cage.Ebpf.Watcher.{seed_resolvers, allow_resolver, allow_ip, set_allow_all_dns}
use field_cage.Ebpf.Permits.{permits}
use field_cage.Ebpf.Permits6.{permits6}
use field_cage.Ebpf.Kernel.{check_ipv4, check_ipv6, check_native6}
use field_cage.Ebpf.Maps.{covers_key}
use field_cage.Ebpf.Resolvers.{resolvers_from}
use field_cage.Agent.Start.{
  World, Setup, start, start_engine, start_mode, discover, loaded, load_engine, setup_of,
  fresh_block,
}
use field_cage.Agent.Mode.{resolve_mode}
use field_cage.Agent.Started.{IsReady, start-IsReady}
use field_cage.Agent.Command.{Surroundings}
use field_cage.Agent.Main.{FlagParsers, report_arguments, main, main_undone}
use field_cage.Agent.Steps.{
  Agent, Write, Step, seed, configure, open_ip, writes, perform, seed_next, agent_of, here, next,
}
use field_cage.Agent.Seed.{ip_failed, seed_dns, attempt}
use field_cage.Agent.Grounds.{Grounds}
use field_cage.Agent.Permitted.{IsFresh, check4, permitted-Grounds}
use field_cage.Agent.Permitted6.{IsFresh6, check6, permitted-Grounds6}
use field_cage.Tests.Samples.{plain_tables, sample, github}
use field_cage.Tests.PolicyRuns.{the_engine, builds}
use field_cage.Tests.Doubles.{list_maps, empty_maps, list_parser}

abbrev policy_path : Bytes
policy_path = codes "policy.yaml"

-- each file names one nameserver; the policy decodes to the sample
abbrev pub world : World
world = record {
  read_file = λ path. some (codes "nameserver 8.8.8.8");
  decode = λ content. decoded sample;
  tables = plain_tables;
  kernel = record { removes_memlock = true; grants = λ r. true; attaches_filter = true };
}

abbrev pub servers : List Ip
servers = (mapped_prefix ++ 8 ∷ 8 ∷ 8 ∷ 8 ∷ []) ∷ []

abbrev pub watcher : Watcher
watcher = record {
  block = true;
  dns = true;
  log =
      acquire connect_objects
      ∷ acquire enter_tracepoint
      ∷ acquire exit_tracepoint
      ∷ acquire event_reader
      ∷ acquire block_objects
      ∷ acquire link4
      ∷ acquire link6
      ∷ acquire send4
      ∷ acquire send6
      ∷ acquire dns_objects
      ∷ acquire dns_socket
      ∷ acquire dns_reader
      ∷ [];
}

abbrev pub setup : Setup list_maps
setup = setup_of list_maps world empty_maps (some the_engine) block servers watcher

loads : load_engine world policy_path ≡ ok (some the_engine)
unfolding load_engine load_file decoded_engine
loads = ap (λ r. loaded (checked r)) builds

finds : discover world (some the_engine) ≡ servers
unfolding discover resolvers_from trim_space fields parse_ip string is_loopback to4 cut_prefix equal
    has_key split has_prefix trim_prefix trim_suffix cut_first
finds = refl

opens : new_watcher world.kernel (equal block block) ≡ ok watcher
unfolding new_watcher equal
opens = refl

resolves : resolve_mode [] (some the_engine) ≡ ok block
unfolding resolve_mode equal
resolves = refl

starts : start list_maps world empty_maps policy_path [] ≡ ok setup
unfolding start start_engine start_mode
starts = rw (loads, resolves, finds, opens) refl

start-IsReady_example : IsReady list_maps world empty_maps [] setup
start-IsReady_example = start-IsReady list_maps world empty_maps policy_path [] setup starts

abbrev surroundings : Surroundings
surroundings = record { open_file = λ p. none; stdin = []; getenv = λ n. [] }

abbrev parsers : FlagParsers
parsers = record {
  report_flags = λ args. none;
  agent_flags =
      λ args. ok (record { config_path = policy_path; mode_flag = []; show_version = false });
}

abbrev call : List Bytes
call = codes "field-cage" ∷ codes "--config" ∷ policy_path ∷ []

main_undone_example :
    (replay (main list_maps world empty_maps surroundings parsers true call).actions [] ≡ some [])
    × ((rest : List Bytes)
        → report_arguments call ≡ some rest
        → (main list_maps world empty_maps surroundings parsers true call).actions ≡ [])
main_undone_example = main_undone list_maps world empty_maps surroundings parsers true call

abbrev pub resolve : Bytes → Option (List Ip)
resolve d = some (github ∷ [])

abbrev pub agent : Agent list_maps
agent = agent_of list_maps resolve setup

abbrev pub listed : Ip
listed = 1 ∷ 2 ∷ 3 ∷ 4 ∷ []

fresh : IsFresh list_maps listed 443 empty_maps
fresh = record { no_ips = refl; no_resolvers = refl; restricted = refl }

-- the agent behind its first two writes, the second of which is the address 1.2.3.4
abbrev configured : Agent list_maps
configured = seed_next list_maps (configure false) (drop 1 (writes resolve the_engine)) agent

abbrev entry : Write
entry = open_ip (ip_failed (mapped_prefix ++ listed)) (mapped_prefix ++ listed)

abbrev opened : Agent list_maps
opened = seed_next list_maps entry (drop 2 (writes resolve the_engine)) configured

configures : Step list_maps list_parser 7 setup agent configured
unfolding agent_of setup_of writes equal
configures = seed agent (configure false) (drop 1 (writes resolve the_engine)) refl

writes_entry : Step list_maps list_parser 7 setup configured opened
unfolding seed_next writes
writes_entry = seed configured entry (drop 2 (writes resolve the_engine)) refl

is_permitted : permits list_maps opened.block listed 443 ≡ true
unfolding seed_next agent_of setup_of perform fresh_block seed_resolvers allow_resolver is_loopback
    allow_ip to4 cut_prefix equal check_ipv4 set_allow_all_dns seed_dns attempt covers_key
    same_prefix
is_permitted = refl

permitted-Grounds_example :
    Grounds list_maps (check4 list_maps listed 443) resolve the_engine list_parser setup opened
unfolding setup_of equal
permitted-Grounds_example =
    permitted-Grounds list_maps listed 443 resolve the_engine world list_parser 7 setup empty_maps
      policy_path [] opened fresh starts refl refl (next (next here configures) writes_entry)
      is_permitted

abbrev listed6 : Ip
listed6 = 0x20 ∷ 1 ∷ 0x0d ∷ 0xb8 ∷ (replicate 11 0 ++ 1 ∷ [])

native : cut_prefix mapped_prefix listed6 ≡ none
unfolding cut_prefix
native = refl

fresh6 : IsFresh6 list_maps listed6 443 native empty_maps
fresh6 = record { no_ips = refl; no_resolvers = refl; restricted = refl }

-- the second address of the policy
abbrev entry6 : Write
entry6 = open_ip (ip_failed listed6) listed6

abbrev opened6 : Agent list_maps
opened6 = seed_next list_maps entry6 (drop 3 (writes resolve the_engine)) opened

writes_entry6 : Step list_maps list_parser 7 setup opened opened6
unfolding seed_next writes
writes_entry6 = seed opened entry6 (drop 3 (writes resolve the_engine)) refl

is_permitted6 : permits6 list_maps opened6.block listed6 443 ≡ true
unfolding seed_next agent_of setup_of perform fresh_block seed_resolvers allow_resolver is_loopback
    allow_ip to4 to16 cut_prefix equal check_ipv4 check_ipv6 check_native6 set_allow_all_dns
    seed_dns attempt covers_key same_prefix
is_permitted6 = refl

permitted-Grounds6_example :
    Grounds list_maps
      (check6 list_maps listed6 443 native)
      resolve
      the_engine
      list_parser
      setup
      opened6
unfolding setup_of equal
permitted-Grounds6_example =
    permitted-Grounds6 list_maps listed6 443 native resolve the_engine world list_parser 7 setup
      empty_maps policy_path [] opened6 fresh6 starts refl refl
      (next (next (next here configures) writes_entry) writes_entry6) is_permitted6
