-- ===== src/Agent/Start.antt =====
-- `run` of cmd/agent/main.go up to its reading loop, with `NewWatcher` and `NewBlockWatcher` of
-- internal/ebpf/loader.go. The files, the YAML decoder and the kernel are parameters.
use field_cage.Base.{
  Bool, true, false, List, [], ◌++◌, Option, none, some, if◌then◌else◌, Result, ok, err,
}
use field_cage.Text.Bytes.{Bytes, equal, is_empty, codes}
use field_cage.Text.Case.{Tables}
use field_cage.Net.Ip.{Ip}
use field_cage.Policy.Engine.{Mode, block, Engine}
use field_cage.Policy.Decide.{allow, is_allowed_domain}
use field_cage.Policy.Load.{Decoding, LoadError, load_file}
use field_cage.Ebpf.Maps.{KernelMaps, BlockMaps}
use field_cage.Ebpf.Watcher.{Block, seed_resolvers}
use field_cage.Ebpf.Resolvers.{system_resolvers}
use field_cage.Ebpf.Resources.{Action, Kernel, Watcher, new_watcher, close}
use field_cage.Ebpf.Dns.{Watch, new_watch}
use field_cage.Report.Verdict.{Allower, DnsExempt}
use field_cage.Agent.Mode.{ModeError, resolve_mode}
use field_cage.Agent.Exempt.{dns_exempt_for}

-- What the agent meets: the files, the YAML decoder, the tables of Unicode and the kernel.
pub record World : Type 0 where
  pub read_file : Bytes → Option Bytes
  pub decode : Bytes → Decoding
  pub tables : Tables
  pub kernel : Kernel

pub data AgentError : Type 0 where
  load_failed : LoadError → AgentError
  mode_failed : ModeError → AgentError
  start_failed reader_failed : AgentError

-- An error, with the log of what the kernel granted and got back.
pub record Ended : Type 0 where
  pub error : AgentError
  pub log : List Action

abbrev pub ended : {A : Type 0} → AgentError → Result Ended A
ended e = err (record { error = e; log = [] })

-- `engine` and `err` of `LoadFile`; without a path no policy is loaded
abbrev pub loaded : Result LoadError Engine → Result Ended (Option Engine)
loaded (ok e) = ok (some e)
loaded (err x) = ended (load_failed x)

unfoldable pub load_engine : World → Bytes → Result Ended (Option Engine)
unfolding load_file
load_engine w path =
    if is_empty path then ok none else loaded (load_file w.read_file w.decode w.tables path)

-- the nameservers, which are looked for if a policy is loaded; an error leaves none
abbrev found_or_none : Option (List Ip) → List Ip
found_or_none none = []
found_or_none (some ips) = ips

unfoldable pub discover : World → Option Engine → List Ip
unfolding system_resolvers
discover w none = []
discover w (some e) = found_or_none (system_resolvers w.read_file)

-- `engine.IsAllowedDomain`, and the nil function without a policy
abbrev pub domain_test : Tables → Option Engine → Option (Bytes → Bool)
domain_test t none = none
domain_test t (some e) = some (is_allowed_domain t e)

-- the policy as an `Allower`, and the nil interface without one
unfoldable pub allower_of : Tables → Option Engine → Allower
allower_of t none = none
allower_of t (some e) = some (allow t e)

-- the label of the DNS policy in the message of block mode
unfoldable pub dns_label : Engine → Bytes
dns_label e =
    if e.allow_all_dns
    then codes "unrestricted (allow_all_dns)"
    else codes "restricted to trusted resolvers"

module _ (lib : KernelMaps) where
  -- What the agent has when it starts to read: `seeding` says that `seedAllowlist` is to run.
  pub record Setup : Type 0 where
    pub engine : Option Engine
    pub mode : Mode
    pub resolvers : List Ip
    pub watcher : Watcher
    pub watch : Watch
    pub maps : Block lib
    pub seeding : Bool
    pub allower : Allower
    pub exempt : DnsExempt

  -- the maps of a new watcher, with the nameservers in block mode
  unfoldable pub fresh_block : BlockMaps lib → Bool → List Ip → Block lib
  fresh_block m with_block resolvers =
      if with_block then (seed_resolvers lib (some m) resolvers).state else none

  -- what the watcher of a mode reads DNS with
  unfoldable pub watch_of : Tables → Option Engine → Bool → List Ip → Watch
  unfolding new_watch
  watch_of t engine with_block resolvers =
      if with_block
      then new_watch (domain_test t engine) true resolvers
      else new_watch none false []

  module _ (w : World) (m : BlockMaps lib) where
    unfoldable pub setup_of : Option Engine → Mode → List Ip → Watcher → Setup
    unfolding allower_of dns_exempt_for fresh_block watch_of
    setup_of engine mode resolvers watcher = record {
      engine = engine;
      mode = mode;
      resolvers = resolvers;
      watcher = watcher;
      watch = watch_of w.tables engine (equal mode block) resolvers;
      maps = fresh_block m (equal mode block) resolvers;
      seeding = equal mode block;
      allower = allower_of w.tables engine;
      exempt = dns_exempt_for engine resolvers;
    }

    abbrev pub started :
        Option Engine → Mode → List Ip → Result (List Action) Watcher → Result Ended Setup
    started engine mode resolvers (err log) = err (record { error = start_failed; log = log })
    started engine mode resolvers (ok watcher) = ok (setup_of engine mode resolvers watcher)

    unfoldable pub start_mode : Option Engine → Result ModeError Mode → Result Ended Setup
    unfolding new_watcher setup_of discover
    start_mode engine (err x) = ended (mode_failed x)
    start_mode engine (ok mode) =
        started engine mode (discover w engine) (new_watcher w.kernel (equal mode block))

    unfoldable pub start_engine : Bytes → Result Ended (Option Engine) → Result Ended Setup
    unfolding start_mode resolve_mode
    start_engine flag (err x) = err x
    start_engine flag (ok engine) = start_mode engine (resolve_mode flag engine)

    -- `run` up to its loop, for the values of `--config` and `--mode`
    unfoldable pub start : Bytes → Bytes → Result Ended Setup
    unfolding start_engine load_engine
    start path flag = start_engine flag (load_engine w path)

    abbrev pub finished : Bool → Result Ended Setup → Option AgentError × List Action
    finished signalled (err x) = (some x.error, x.log)
    finished signalled (ok s) =
        (if signalled then none else some reader_failed, s.watcher.log ++ close s.watcher)

    -- `run`, whose loop ends with a signal or an error of the reader; the watcher is closed
    unfoldable pub run : Bool → Bytes → Bytes → Option AgentError × List Action
    unfolding start close
    run signalled path flag = finished signalled (start path flag)
