-- ===== src/Agent/Delivered.antt =====
-- The whole way of an event: from the output of the agent to what its report renders.
use field_cage.Base.{ℕ, List, [], ◌∷◌, All, none, map, ◌≡◌, refl, ap, ◌∙◌, ok}
use field_cage.Text.Bytes.{Bytes}
use field_cage.Text.Case.{Tables}
use field_cage.Ebpf.Event.{Event}
use field_cage.Report.Verdict.{Allower, DnsExempt}
use field_cage.Report.Parse
use field_cage.Report.Scan.{Outcome, scan_log, scan_lines}
use field_cage.Report.Scan.Lines.{IsText, output, scan_lines-output}
use field_cage.Report.Summary.{summary}
use field_cage.Report.Summary.Collect.{Collector, new_collector, add, add_all}
use field_cage.Report.Collected.{collect}
use field_cage.Report.Render.Format.{Renderer, Options, renderer_for}
use field_cage.Agent.Loop.{printed}
use field_cage.Agent.Readback.{reported, line_of-text}
use field_cage.Agent.Relay.{IsRelayed, fed, scan_log-printed}
use field_cage.Agent.Command.{
  Arguments, Surroundings, rendered, with_scan, finish, run_summary, run_report,
}
use field_cage.Agent.Reported.{IsProper, finish-renders, run_report-IsProper, IsProper-renders}

module _ (t : Tables) (self : ℕ) (allower : Allower) (exempt : DnsExempt) where
  printed-IsText :
      (evs : List Event) → All IsRelayed evs → All IsText (printed self allower exempt evs)
  unfolding printed
  printed-IsText [] h = tt
  printed-IsText (ev ∷ evs) h =
      let (a, b, c, d, e, q) = h.0.octets in
      (line_of-text t self allower exempt ev a b c d e q h.0.readable, printed-IsText evs h.1)

  -- the events as the report knows them
  abbrev pub all_reported : List Event → List Parse.Event
  all_reported evs = map (reported t self allower exempt) evs

  fed-add :
      (c : Collector) (evs : List Event)
      → fed t self allower exempt add c evs ≡ add_all c (all_reported evs)
  unfolding add_all
  fed-add c [] = refl
  fed-add c (ev ∷ evs) = fed-add (add c (reported t self allower exempt ev)) evs

  -- a scan without a mode and without a malformed line
  abbrev scanned_as : Collector → Outcome ⊥ Collector
  scanned_as c = record { progress = record { mode = []; malformed = 0; state = c }; error = none }

  module _ (a : Arguments) where
    -- the collector of a report on these events
    abbrev pub collected : List Event → Collector
    collected evs =
        with_scan a.mode
          (record { mode = []; malformed = 0; state = add_all new_collector (all_reported evs) })

    run_summary-output :
        (f : Bytes) (opts : Options) (r : Renderer) (evs : List Event)
        → renderer_for f ≡ ok r
        → All IsRelayed evs
        → run_summary t a f opts (scan_lines (output (printed self allower exempt evs)))
          ≡ ok (rendered r opts (summary (collected evs)))
    unfolding run_summary
    run_summary-output f opts r evs e h =
        let log = output (printed self allower exempt evs) in
        let scanned : scan_log t collect new_collector (scan_lines log)
            ≡ scanned_as (add_all new_collector (all_reported evs)) =
          ap (scan_log t collect new_collector)
            (scan_lines-output (printed self allower exempt evs) (printed-IsText evs h))
          ∙ scan_log-printed t self allower exempt add new_collector evs h
          ∙ ap scanned_as (fed-add new_collector evs) in
        ap (λ o. finish t f opts o.error (summary (with_scan a.mode o.progress))) scanned
        ∙ finish-renders t a f opts r none (summary (collected evs)) e refl

    -- A proper report on the output of the agent, for events that are readable and go to IPv4
    -- addresses, renders the summary of exactly these events, each with the verdict that the agent
    -- gave it; no line of the output is lost, merged or malformed.
    pub run_report-output :
        (w : Surroundings) (top : ℕ) (f : Bytes) (evs : List Event)
        → IsProper w a top f (output (printed self allower exempt evs))
        → All IsRelayed evs
        → (r : Renderer) × (renderer_for f ≡ ok r)
          × (run_report t w a
              ≡ ok (
                  rendered r
                    (record { top = top; annotation_level = a.level })
                    (summary (collected evs))))
    run_report-output w top f evs p h =
        let log = output (printed self allower exempt evs) in
        let (r, e) = IsProper-renders t w a top f log p in
        (
          r,
          e,
          run_report-IsProper t w a top f log p
              ∙ run_summary-output f (record { top = top; annotation_level = a.level }) r evs e h,
        )
