-- ===== src/Agent/Started.antt =====
-- What holds when the agent has started, and when it has ended.
use field_cage.Base.{
  Bool, false, ◌&&◌, not, List, [], Option, none, some, ◌≡◌, refl, arith, Option-cases, Bool-cases,
  Result-cases, inl, inr, Result, ok, err,
}
use field_cage.Text.Bytes.{Bytes, equal, is_empty}
use field_cage.Net.Ip.{Ip}
use field_cage.Policy.Build.{Built, new_engine}
use field_cage.Policy.Engine.{Config, Mode, block, Engine}
use field_cage.Policy.Load.{
  Decoding, end_of_file, malformed, decoded, zero_config, checked, decoded_engine, load_file,
}
use field_cage.Ebpf.Maps.{KernelMaps, BlockMaps}
use field_cage.Ebpf.Resources.{Action, Watcher, new_watcher}
use field_cage.Ebpf.Replay.{replay}
use field_cage.Ebpf.Balance.{new_watcher_undone, close_undone}
use field_cage.Ebpf.Dns.{is_block}
use field_cage.Agent.Exempt.{dns_exempt_for}
use field_cage.Agent.Mode.{ModeError, resolve_mode}
use field_cage.Agent.Effective.{IsEffective, resolve_mode_iff}
use field_cage.Agent.Start.{
  World, Ended, Setup, load_engine, discover, fresh_block, watch_of, allower_of, loaded, setup_of,
  started, start_mode, start_engine, start, finished, run,
}
use field_cage.Agent.Enforced.{new_watcher-enforces, fresh_block-is_block}

module _ (lib : KernelMaps) where
  module _ (w : World) (m : BlockMaps lib) where
    -- a policy that was built from a configuration, if there is one
    abbrev pub IsBuilt : Option Engine → Type 0
    IsBuilt none = Unit
    IsBuilt (some e) = (cfg : Config) × (new_engine w.tables cfg ≡ ok e)

    checked-IsBuilt :
        (cfg : Config) (r : Built) (engine : Option Engine)
        → new_engine w.tables cfg ≡ r
        → loaded (checked r) ≡ ok engine
        → IsBuilt engine
    checked-IsBuilt cfg (err x) engine e h = absurd (ground arith)
    checked-IsBuilt cfg (ok b) engine e h =
        let same : some b ≡ engine = ground arith in rw (← same) (cfg, e)

    decoded-IsBuilt :
        (d : Decoding) (engine : Option Engine)
        → loaded (decoded_engine w.tables d) ≡ ok engine
        → IsBuilt engine
    unfolding decoded_engine
    decoded-IsBuilt end_of_file engine h =
        checked-IsBuilt zero_config (new_engine w.tables zero_config) engine refl h
    decoded-IsBuilt malformed engine h = absurd (ground arith)
    decoded-IsBuilt (decoded cfg) engine h =
        checked-IsBuilt cfg (new_engine w.tables cfg) engine refl h

    load_engine-IsBuilt :
        (path : Bytes) (engine : Option Engine) → load_engine w path ≡ ok engine → IsBuilt engine
    unfolding load_engine load_file
    load_engine-IsBuilt path engine h = elim (Bool-cases (is_empty path)) [
      | inl a ↦ let same : none ≡ engine = ground arith in rw (← same) tt
      | inr a ↦ elim (Option-cases (w.read_file path)) [
        | inl p ↦ absurd (ground arith)
        | inr (content, p) ↦
            decoded-IsBuilt (w.decode content) engine (rw (a, p, load_engine, load_file) at h)
      ]
    ]

    -- A setup whose mode is effective, with what the mode asks for.
    pub record IsReady (flag : Bytes) (s : Setup lib) : Type 0 where
      pub effective : IsEffective flag s.engine s.mode
      pub enforced : is_block lib s.maps ≡ equal s.mode block
      pub attached : s.watcher.block ≡ equal s.mode block
      pub listening : (equal s.mode block && not s.watcher.dns) ≡ false
      pub maps_fresh : s.maps ≡ fresh_block lib m (equal s.mode block) s.resolvers
      pub seeds : s.seeding ≡ equal s.mode block
      pub policy : IsBuilt s.engine
      pub watches : s.watch ≡ watch_of lib w.tables s.engine (equal s.mode block) s.resolvers
      pub judges : s.allower ≡ allower_of w.tables s.engine
      pub exempts : s.exempt ≡ dns_exempt_for s.engine s.resolvers

    started-IsReady :
        (flag : Bytes) (engine : Option Engine) (mode : Mode) (ips : List Ip)
        (r : Result (List Action) Watcher) (s : Setup lib)
        → IsBuilt engine
        → resolve_mode flag engine ≡ ok mode
        → new_watcher w.kernel (equal mode block) ≡ r
        → started lib w m engine mode ips r ≡ ok s
        → IsReady flag s
    unfolding setup_of
    started-IsReady flag engine mode ips (err log) s built e p h = absurd (ground arith)
    started-IsReady flag engine mode ips (ok watcher) s built e p h =
        let same : setup_of lib w m engine mode ips watcher ≡ s = ground arith in
        let (attached, listening) = new_watcher-enforces w.kernel (equal mode block) watcher p in
        rw (← same) (record {
          effective = (resolve_mode_iff flag engine mode).0 e;
          enforced = fresh_block-is_block lib m (equal mode block) ips;
          attached = attached;
          listening = listening;
          maps_fresh = refl;
          seeds = refl;
          policy = built;
          watches = refl;
          judges = refl;
          exempts = refl;
        })

    start_mode-IsReady :
        (flag : Bytes) (engine : Option Engine) (r : Result ModeError Mode) (s : Setup lib)
        → IsBuilt engine
        → resolve_mode flag engine ≡ r
        → start_mode lib w m engine r ≡ ok s
        → IsReady flag s
    unfolding start_mode
    start_mode-IsReady flag engine (err x) s built e h = absurd (ground arith)
    start_mode-IsReady flag engine (ok mode) s built e h =
        started-IsReady flag engine mode (discover w engine)
          (new_watcher w.kernel (equal mode block)) s built e refl h

    start_engine-IsReady :
        (path flag : Bytes) (r : Result Ended (Option Engine)) (s : Setup lib)
        → load_engine w path ≡ r
        → start_engine lib w m flag r ≡ ok s
        → IsReady flag s
    unfolding start_engine
    start_engine-IsReady path flag (err x) s e h = absurd (ground arith)
    start_engine-IsReady path flag (ok engine) s e h =
        start_mode-IsReady flag engine (resolve_mode flag engine) s
          (load_engine-IsBuilt path engine e) refl h

    -- When the agent starts, its policy, if any, was built from a configuration, and its mode is the
    -- effective one for its flag and this policy; the enforcement programs and their maps are there and
    -- are to be seeded exactly in block mode, and in block mode DNS is captured and the maps hold what
    -- the seeding of the nameservers left. The maps, the DNS watcher and the verdicts share the policy
    -- and the nameservers.
    pub start-IsReady :
        (path flag : Bytes) (s : Setup lib) → start lib w m path flag ≡ ok s → IsReady flag s
    unfolding start
    start-IsReady path flag s h = start_engine-IsReady path flag (load_engine w path) s refl h

    -- what the end of `run` leaves open
    abbrev Undone : Bool → Result Ended (Setup lib) → Type 0
    Undone signalled r = replay (finished lib w m signalled r).1 [] ≡ some []

    started-Undone :
        (signalled : Bool) (engine : Option Engine) (mode : Mode) (ips : List Ip)
        (r : Result (List Action) Watcher)
        → new_watcher w.kernel (equal mode block) ≡ r
        → Undone signalled (started lib w m engine mode ips r)
    unfolding setup_of
    started-Undone signalled engine mode ips (err log) p =
        new_watcher_undone w.kernel (equal mode block) log p
    started-Undone signalled engine mode ips (ok watcher) p =
        close_undone w.kernel (equal mode block) watcher p

    start_mode-Undone :
        (signalled : Bool) (engine : Option Engine) (r : Result ModeError Mode)
        → Undone signalled (start_mode lib w m engine r)
    unfolding start_mode
    start_mode-Undone signalled engine (err x) = refl
    start_mode-Undone signalled engine (ok mode) =
        started-Undone signalled engine mode (discover w engine)
          (new_watcher w.kernel (equal mode block)) refl

    load_engine-Undone :
        (signalled : Bool) (path flag : Bytes)
        → Undone signalled (start_engine lib w m flag (load_engine w path))
    unfolding start_engine load_engine
    load_engine-Undone signalled path flag = elim (Bool-cases (is_empty path)) [
      | inl a ↦ rw (a, load_engine) (start_mode-Undone signalled none (resolve_mode flag none))
      | inr a ↦ elim (Result-cases (load_file w.read_file w.decode w.tables path)) [
        | inl (e, p) ↦
            rw (a, p, load_engine)
              (start_mode-Undone signalled (some e) (resolve_mode flag (some e)))
        | inr (x, p) ↦ rw (a, p, load_engine) refl
      ]
    ]

    -- However the agent ends, by an error at any point of its start, a signal or an error of the
    -- reader, each resource that it acquired is released, the last acquired first.
    pub run_undone :
        (signalled : Bool) (path flag : Bytes)
        → replay (run lib w m signalled path flag).1 [] ≡ some []
    unfolding run start
    run_undone signalled path flag = load_engine-Undone signalled path flag
