-- ===== src/Agent/Steps.antt =====
-- What the agent does at the same time once it has started (cmd/agent/main.go and
-- internal/ebpf/dns_watcher.go), as a step relation: `seedAllowlist` writes the maps, the loop of the
-- DNS watcher takes a record and then its addresses one by one, and the goroutine of `run` reads
-- events. Each step is one write to a map, or one record of a ring buffer.
use field_cage.Base.{
  ℕ, ◌+◌, ◌-◌, Bool, true, false, ◌||◌, List, [], ◌∷◌, ◌++◌, Option, none, some, ◌==◌, ltb,
  if◌then◌else◌, length, map, ◌≡◌, arith,
}
use field_cage.Text.Bytes.{Bytes, is_empty}
use field_cage.Net.Ip.{Ip}
use field_cage.Net.Cidr.{IpNet}
use field_cage.Policy.Engine.{Engine}
use field_cage.Policy.Decide.{domains, ips, cidrs}
use field_cage.Ebpf.Maps.{KernelMaps}
use field_cage.Ebpf.Watcher.{Block, allow_ip, allow_cidr}
use field_cage.Ebpf.Event.{Event, little_endian, slice, parse_event}
use field_cage.Ebpf.Cache.{DnsCache, empty_cache, lookup}
use field_cage.Ebpf.Dns
use field_cage.Ebpf.Dns.{Parser, Response, Watch, parse_dns_response, may_allow}
use field_cage.Report.Verdict.{line_string}
use field_cage.Agent.Seed.{
  Warning, Seeded, attempt, seed_dns, ip_failed, cidr_failed, resolve_failed, resolved_ip_failed,
}
use field_cage.Agent.Loop.{line_of}
use field_cage.Agent.Start.{Setup}

-- What `seedAllowlist` has still to do: one call each, or the report of a failed lookup.
pub data Write : Type 0 where
  configure : Bool → Write
  open_ip : Warning → Ip → Write
  open_net : IpNet → Write
  give_up : Bytes → Write

unfoldable pub lookup_writes : Bytes → Option (List Ip) → List Write
lookup_writes d none = give_up d ∷ []
lookup_writes d (some found) = map (λ ip. open_ip (resolved_ip_failed d ip) ip) found

unfoldable pub domain_writes : (Bytes → Option (List Ip)) → List Bytes → List Write
unfolding lookup_writes
domain_writes resolve [] = []
domain_writes resolve (d ∷ ds) = lookup_writes d (resolve d) ++ domain_writes resolve ds

-- the calls of `seedAllowlist` in their order
unfoldable pub writes : (Bytes → Option (List Ip)) → Engine → List Write
unfolding domain_writes
writes resolve e =
    configure e.allow_all_dns
    ∷ (map (λ ip. open_ip (ip_failed ip) ip) (ips e)
        ++ (map open_net (cidrs e) ++ domain_writes resolve (domains e)))

module _ (lib : KernelMaps) where
  unfoldable pub perform : Write → Seeded lib → Seeded lib
  unfolding attempt seed_dns
  perform (configure enabled) s = seed_dns lib enabled s
  perform (open_ip w ip) s = attempt lib w s (allow_ip lib s.block ip)
  perform (open_net n) s = attempt lib (cidr_failed n) s (allow_cidr lib s.block n)
  perform (give_up d) s = record s { warnings = resolve_failed d ∷ s.warnings }

  -- The state that the three share. `pending` are the addresses of the response in hand, and
  -- `received` the records of the DNS watcher so far, the last one first.
  pub record Agent : Type 0 where
    pub block : Block lib
    pub warnings : List Warning
    pub todo : List Write
    pub cache : DnsCache
    pub failed : List Ip
    pub may : Bool
    pub domain : Bytes
    pub pending : List Ip
    pub received : List Bytes
    pub malformed : ℕ
    pub printed : List Bytes

  abbrev seed_todo : (Bytes → Option (List Ip)) → Bool → Option Engine → List Write
  seed_todo resolve seeding none = []
  seed_todo resolve seeding (some e) = if seeding then writes resolve e else []

  pub seed_todo-writes :
      (resolve : Bytes → Option (List Ip)) (e : Engine) (seeding : Bool) (engine : Option Engine)
      → seeding ≡ true
      → engine ≡ some e
      → seed_todo resolve seeding engine ≡ writes resolve e
  seed_todo-writes resolve e seeding engine on has = ground arith

  -- the agent behind its start
  unfoldable pub agent_of : (Bytes → Option (List Ip)) → Setup lib → Agent
  unfolding writes
  agent_of resolve s = record {
    block = s.maps;
    warnings = [];
    todo = seed_todo resolve s.seeding s.engine;
    cache = empty_cache;
    failed = [];
    may = false;
    domain = [];
    pending = [];
    received = [];
    malformed = 0;
    printed = [];
  }

  -- the next call of `seedAllowlist`
  unfoldable pub seed_next : Write → List Write → Agent → Agent
  unfolding perform
  seed_next w ws a =
      let s = perform w (record { block = a.block; warnings = a.warnings }) in
      record a { block = s.block; warnings = s.warnings; todo = ws }

  abbrev pub dns_state : Agent → Dns.State lib
  dns_state a = record { cache = a.cache; block = a.block; failed = a.failed }

  abbrev take_response : Watch → Agent → Ip → Response → Agent
  take_response w a src r = if is_empty r.domain then a else record a {
    may = may_allow lib w (dns_state a) src r.domain;
    domain = r.domain;
    pending = r.ips;
  }

  -- the next record of the DNS watcher, up to its loop over the addresses
  unfoldable pub receive : Parser → Watch → Bytes → Agent → Agent
  unfolding may_allow
  receive dns w raw a =
      let size = little_endian (slice 0 4 raw) in
      let b = record a { received = raw ∷ a.received } in
      if ltb (length raw) 8
      then b
      else if size == 0 || ltb (length raw - 8) size
      then b
      else take_response w b (slice 4 4 raw) (parse_dns_response dns (slice 8 size raw))

  -- the next address of the response
  unfoldable pub record_next : Ip → List Ip → Agent → Agent
  unfolding Dns.record_ip
  record_next ip rest a =
      let s = Dns.record_ip lib a.may a.domain (dns_state a) ip in
      record a { cache = s.cache; block = s.block; failed = s.failed; pending = rest }

  abbrev print_event : (Event → Bytes) → Option Event → Agent → Agent
  print_event line none a = record a { malformed = a.malformed + 1 }
  print_event line (some ev) a = record a {
    printed = line (record ev { domain = lookup a.cache ev.daddr }) ∷ a.printed;
  }

  -- the next record of the events
  unfoldable pub read_next : ℕ → Setup lib → Bytes → Agent → Agent
  unfolding lookup parse_event line_of
  read_next self s raw a =
      print_event (λ ev. line_string (line_of self s.allower s.exempt ev)) (parse_event raw) a

  module _ (dns : Parser) (self : ℕ) (s : Setup lib) where
    pub data Step : Agent → Agent → Type 0 where
      seed : (a : Agent) (w : Write) (ws : List Write) → a.todo ≡ w ∷ ws → Step a (seed_next w ws a)
      receive_record :
          (a : Agent) (raw : Bytes) → a.pending ≡ [] → Step a (receive dns s.watch raw a)
      record_address :
          (a : Agent) (ip : Ip) (rest : List Ip)
          → a.pending ≡ ip ∷ rest
          → Step a (record_next ip rest a)
      read_event : (a : Agent) (raw : Bytes) → Step a (read_next self s raw a)

    pub data Reach (a : Agent) : Agent → Type 0 where
      here : Reach a a
      next : {b c : Agent} → Reach a b → Step b c → Reach a c
