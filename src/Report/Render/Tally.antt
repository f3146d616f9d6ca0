-- ===== src/Report/Render/Tally.antt =====
-- The totals of a Markdown report.
use field_cage.Base.{◌+◌, List, length, ◌≡◌, arith}
use field_cage.Report.Parse.{Event}
use field_cage.Report.Summary.{summary, count_events, denied_events, allowed_events, skipped_events}
use field_cage.Report.Summary.Collect.{new_collector, add_all}
use field_cage.Report.Summary.Totals.{is_unknown, start-Agrees, add_all-Agrees, groups-eq-total}
use field_cage.Report.Render.Page.{unknown_events}

total-summary : (evs : List Event) → (summary (add_all new_collector evs)).total ≡ length evs
unfolding summary
total-summary evs = omega (arith, (add_all-Agrees new_collector evs start-Agrees).1)

-- The remainder that a Markdown report calls unknown is the number of events whose verdict is in none
-- of the groups, so that the four numbers of its line add up to its events.
unknown_events-counts :
    (evs : List Event)
    → (unknown_events (summary (add_all new_collector evs))
        ≡ count_events is_unknown (summary (add_all new_collector evs)).by_verdict)
      × (allowed_events (summary (add_all new_collector evs))
            + denied_events (summary (add_all new_collector evs))
            + skipped_events (summary (add_all new_collector evs))
            + unknown_events (summary (add_all new_collector evs))
          ≡ (summary (add_all new_collector evs)).total)
unfolding unknown_events
unknown_events-counts evs = (
  omega (arith, total-summary evs, groups-eq-total evs),
  omega (arith, total-summary evs, groups-eq-total evs),
)
