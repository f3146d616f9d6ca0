-- ===== src/Tests/Witnesses/Watching.antt =====
-- Instances of the theorems on the DNS watcher, the events and the resources of the watcher.
use field_cage.Base.{
  true, ◌||◌, ◌&&◌, List, [], ◌∷◌, ◌++◌, none, some, any, all, Any, ◌≡◌, ◌⊎◌, refl, arith,
  replicate, if◌then◌else◌, take, false,
}
use field_cage.Text.Bytes.{Bytes, codes, equal, trim_suffix}
use field_cage.Net.Ip.{Ip, string, is_loopback, to4}
use field_cage.Net.Cidr.{same_prefix}
use field_cage.Policy.Engine.{has_key}
use field_cage.Ebpf.Kernel.{check_ipv4}
use field_cage.Ebpf.Watcher.{allow_ip}
use field_cage.Ebpf.Permits.{permits, is_under}
use field_cage.Ebpf.Event.{Event, parse_event, little_endian}
use field_cage.Ebpf.Resolvers.{parse_resolv_conf, resolvers_from, is_trusted_source}
use field_cage.Ebpf.Distinct.{texts, is_distinct, resolvers_from-distinct}
use field_cage.Ebpf.Cache.{lookup}
use field_cage.Ebpf.Cached.{lookup-record_ips}
use field_cage.Ebpf.Maps.{covers_key}
use field_cage.Ebpf.Dns.{
  record_ip, observe, parse_dns_response, State, Watch, all_answers, record_ips, run,
}
use field_cage.Ebpf.Answers.{all_answers-total}
use field_cage.Ebpf.Trust.{Justifies, run-justified}
use field_cage.Ebpf.Shape.{IsShaped, parse_event-IsShaped}
use field_cage.Ebpf.Wire.{wire, IsWired, parse_event-wire}
use field_cage.Tests.Samples.{remote, github}
use field_cage.Tests.Doubles.{list_maps, empty_maps, list_parser}

abbrev start : State list_maps
start = record { cache = []; block = some empty_maps; failed = [] }

abbrev watch : Watch
watch = record { is_allowed = some (λ d. true); trusted = codes "8.8.8.8" ∷ [] }

abbrev packet : Bytes
packet = 4 ∷ 0 ∷ 0 ∷ 0 ∷ 8 ∷ 8 ∷ 8 ∷ 8 ∷ 140 ∷ 82 ∷ 112 ∷ 4 ∷ []

opened :
    permits list_maps (run list_maps list_parser watch start (packet ∷ [])).block github 443 ≡ true
unfolding run observe parse_dns_response is_trusted_source string to4 allow_ip check_ipv4
    is_loopback equal has_key little_endian trim_suffix record_ip covers_key same_prefix
opened = refl

run-justified_example :
    (permits list_maps start.block github 443 ≡ true)
    ⊎ Any (Justifies list_parser watch (λ ip. is_under 32 ip github)) (packet ∷ [])
run-justified_example =
    run-justified list_maps github 443 list_parser watch start (packet ∷ []) opened

lookup-record_ips_example :
    lookup (record_ips list_maps true (codes "github.com") start (github ∷ [])).cache github ≡ (
      if any (λ ip. equal (string ip) (string github)) (github ∷ [])
      then codes "github.com"
      else lookup start.cache github)
lookup-record_ips_example =
    lookup-record_ips list_maps true (codes "github.com") start (github ∷ []) github

all_answers-total_example :
    (found : List Ip) × (all_answers list_parser (github ∷ remote ∷ []) ≡ some found)
all_answers-total_example = all_answers-total list_parser (github ∷ remote ∷ [])

abbrev etc : Bytes
etc = codes "nameserver 127.0.0.53\nsearch lan\n"

abbrev systemd : Bytes
systemd = codes "# servers\nnameserver 8.8.8.8\nnameserver 8.8.8.8\n"

resolvers_from-distinct_example :
    (is_distinct (texts (resolvers_from etc systemd)) ≡ true)
    × (has_key (texts (resolvers_from etc systemd)) (codes "8.8.8.8")
        ≡ has_key (texts (parse_resolv_conf etc)) (codes "8.8.8.8")
          || all is_loopback (parse_resolv_conf etc)
            && has_key (texts (parse_resolv_conf systemd)) (codes "8.8.8.8"))
resolvers_from-distinct_example = resolvers_from-distinct etc systemd (codes "8.8.8.8")

abbrev raw_event : Bytes
raw_event =
    1
    ∷ 2
    ∷ 0
    ∷ 0
    ∷ 1
    ∷ 2
    ∷ 0
    ∷ 0
    ∷ 187
    ∷ 1
    ∷ 2
    ∷ 0
    ∷ 140
    ∷ 82
    ∷ 112
    ∷ 4
    ∷ (replicate 12 0 ++ (codes "curl" ++ replicate 24 0))

abbrev event : Event
event = record {
  pid = 513;
  tgid = 513;
  dport = 443;
  daddr = github;
  comm = codes "curl";
  domain = [];
}

event_parsed : parse_event raw_event ≡ some event
unfolding parse_event
event_parsed = refl

parse_event-IsShaped_example : IsShaped event
parse_event-IsShaped_example = parse_event-IsShaped raw_event event (ground arith) event_parsed

-- padding and time
abbrev rest : Bytes
rest = replicate 12 0

wired : IsWired event false rest
wired = record {
  pid_fits = omega arith;
  tgid_fits = omega arith;
  port_fits = omega arith;
  address_fits = refl;
  name_fits = omega arith;
  name_filled = refl;
  no_domain = refl;
  rest_fits = refl;
}

parse_event-wire_example :
    (parse_event (wire event 2 rest) ≡ some event)
    × (parse_event (take 52 (wire event 2 rest)) ≡ none)
parse_event-wire_example = parse_event-wire event false rest wired 52 (omega arith)
