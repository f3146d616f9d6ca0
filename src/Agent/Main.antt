-- ===== src/Agent/Main.antt =====
-- `main` of cmd/agent/main.go: the dispatch on the arguments, and the status of the exit. What the
-- package flag makes of the arguments is a parameter.
use field_cage.Base.{
  ℕ, Bool, List, [], ◌∷◌, Option, none, some, if◌then◌else◌, Result, ok, err, ◌≡◌, refl,
  Option-cases, Bool-cases, arith, inl, inr,
}
use field_cage.Text.Bytes.{Bytes, codes, equal}
use field_cage.Ebpf.Maps.{KernelMaps, BlockMaps}
use field_cage.Ebpf.Resources.{Action}
use field_cage.Ebpf.Replay.{replay}
use field_cage.Agent.Command.{Arguments, Surroundings, ReportError, Output, run_report}
use field_cage.Agent.Start.{World, AgentError, run}
use field_cage.Agent.Started.{run_undone}

-- `configPath`, `modeFlag` and `showVersion`
pub record Flags : Type 0 where
  pub config_path : Bytes
  pub mode_flag : Bytes
  pub show_version : Bool

-- The parsers of the two sets of flags, on the arguments that are theirs. `none` is an error of the
-- first; the second ends the process by itself with a status, 0 for a call for help and 2 for an
-- error.
pub record FlagParsers : Type 0 where
  pub report_flags : List Bytes → Option Arguments
  pub agent_flags : List Bytes → Result ℕ Flags

-- How the process ends: its status, what the kernel granted and got back, and what a report wrote.
pub record Exit : Type 0 where
  pub status : ℕ
  pub actions : List Action
  pub output : Option Output

-- the arguments behind `report`
unfoldable pub report_arguments : List Bytes → Option (List Bytes)
unfolding equal
report_arguments [] = none
report_arguments (program ∷ []) = none
report_arguments (program ∷ command ∷ rest) =
    if equal command (codes "report") then some rest else none

-- the arguments behind the name of the program
abbrev behind_program : List Bytes → List Bytes
behind_program [] = []
behind_program (program ∷ rest) = rest

abbrev report_exit : Result ReportError Output → Exit
report_exit (ok o) = record { status = 0; actions = []; output = some o }
report_exit (err e) = record { status = 1; actions = []; output = none }

-- the status of `run`
abbrev error_status : Option AgentError → ℕ
error_status none = 0
error_status (some e) = 1

abbrev agent_exit : Option AgentError × List Action → Exit
agent_exit (e, log) = record { status = error_status e; actions = log; output = none }

abbrev quiet_exit : ℕ → Exit
quiet_exit n = record { status = n; actions = []; output = none }

module _ (lib : KernelMaps) (w : World) (m : BlockMaps lib) (around : Surroundings)
    (flags : FlagParsers) (signalled : Bool) where
  unfoldable pub main_report : Option Arguments → Exit
  unfolding run_report
  main_report none = quiet_exit 1
  main_report (some a) = report_exit (run_report w.tables around a)

  unfoldable pub main_agent : Result ℕ Flags → Exit
  unfolding run
  main_agent (err status) = quiet_exit status
  main_agent (ok f) =
      if f.show_version
      then quiet_exit 0
      else agent_exit (run lib w m signalled f.config_path f.mode_flag)

  -- `main`, for the value of `os.Args`
  unfoldable pub main : List Bytes → Exit
  unfolding report_arguments main_report main_agent
  main args = elim (report_arguments args) [
    | some rest ↦ main_report (flags.report_flags rest)
    | none ↦ main_agent (flags.agent_flags (behind_program args))
  ]

  report_exit_quiet : (r : Result ReportError Output) → (report_exit r).actions ≡ []
  report_exit_quiet (ok o) = refl
  report_exit_quiet (err e) = refl

  main_report_quiet : (a : Option Arguments) → (main_report a).actions ≡ []
  unfolding main_report
  main_report_quiet none = refl
  main_report_quiet (some a) = report_exit_quiet (run_report w.tables around a)

  main_agent_undone : (f : Result ℕ Flags) → replay (main_agent f).actions [] ≡ some []
  unfolding main_agent
  main_agent_undone (err status) = refl
  main_agent_undone (ok f) = elim (Bool-cases f.show_version) [
    | inl a ↦ rw (a, main_agent) refl
    | inr a ↦ rw (a, main_agent) (run_undone lib w m signalled f.config_path f.mode_flag)
  ]

  -- Whatever the arguments, when the process ends it has given back every kernel resource that it
  -- acquired, the last one first; a report acquires none.
  pub main_undone :
      (args : List Bytes)
      → (replay (main args).actions [] ≡ some [])
        × ((rest : List Bytes) → report_arguments args ≡ some rest → (main args).actions ≡ [])
  unfolding main
  main_undone args = elim (Option-cases (report_arguments args)) [
    | inl p ↦ (
      rw (p, main) (main_agent_undone (flags.agent_flags (behind_program args))),
      λ rest q. absurd (ground arith),
    )
    | inr (rest, p) ↦
        let quiet = main_report_quiet (flags.report_flags rest) in
        (rw (p, main, quiet) refl, λ rest' q. rw (p, main) quiet)
  ]
