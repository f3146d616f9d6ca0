-- ===== src/Tests/Witnesses/Reading.antt =====
-- Instances of the theorems on the printed lines, and of what the engine and the kernel agree on.
use field_cage.Base.{◌+◌, ◌||◌, [], ◌∷◌, none, any, false, ◌≡◌, refl, arith, ok}
use field_cage.Text.Bytes.{codes, cut_prefix, equal}
use field_cage.Text.Space.{trim_space}
use field_cage.Net.Ip.{to4}
use field_cage.Net.Cidr.{IpNet}
use field_cage.Policy.Decide.{allows_ip, ips, cidrs}
use field_cage.Ebpf.Event.{Event}
use field_cage.Ebpf.Permits.{is_under}
use field_cage.Report.Verdict.{line_string}
use field_cage.Report.Parse
use field_cage.Report.Parse.{parse_line}
use field_cage.Report.Scan.{scan_log}
use field_cage.Report.Summary.Collect.{new_collector, add, add_all, key_of, same_key}
use field_cage.Report.Summary.Tallied.{how_many, count_at, count_to, add_all-tallies}
use field_cage.Agent.Loop.{line_of, printed}
use field_cage.Agent.Readback.{IsReadable, reported, parse_line-line_of}
use field_cage.Report.Scan.Lines.{output}
use field_cage.Report.Summary.{summary}
use field_cage.Report.Render.Format.{Renderer, renderer_for, resolve_format}
use field_cage.Agent.Command.{Arguments, Surroundings, pos, read_log, rendered, run_report}
use field_cage.Agent.Delivered.{collected, run_report-output}
use field_cage.Agent.Listed.{is_mapped, allows_ip-is_under}
use field_cage.Agent.Relay.{IsRelayed, callback, fed, scan_log-printed}
use field_cage.Tests.Samples.{plain_tables, sample, remote, github}
use field_cage.Tests.PolicyRuns.{the_engine, builds}

abbrev event : Event
event = record {
  pid = 4242;
  tgid = 4240;
  dport = 443;
  daddr = github;
  comm = codes "tmux: server";
  domain = codes "github.com";
}

trimmed : trim_space event.comm ≡ event.comm
unfolding trim_space
trimmed = refl

readable : IsReadable event
readable = record {
  comm_text = refl;
  comm_trimmed = trimmed;
  comm_fits = omega arith;
  domain_plain = refl;
  domain_fits = omega arith;
  pid_fits = omega arith;
  tgid_fits = omega arith;
  port_fits = omega arith;
}

parse_line-line_of_example :
    parse_line plain_tables (line_string (line_of 7 none none event))
    ≡ ok (reported plain_tables 7 none none event)
parse_line-line_of_example =
    parse_line-line_of plain_tables 7 none none event 140 82 112 4 refl
      (omega arith, omega arith, omega arith, omega arith) readable

relayed : IsRelayed event
relayed = record {
  octets = (140, 82, 112, 4, refl, (omega arith, omega arith, omega arith, omega arith));
  readable = readable;
}

scan_log-printed_example :
    scan_log plain_tables
      (callback plain_tables 7 none none add)
      new_collector
      (printed 7 none none (event ∷ event ∷ []))
    ≡ record {
      progress = record {
        mode = [];
        malformed = 0;
        state = fed plain_tables 7 none none add new_collector (event ∷ event ∷ []);
      };
      error = none;
    }
scan_log-printed_example =
    scan_log-printed plain_tables 7 none none add new_collector (event ∷ event ∷ [])
      (relayed, (relayed, tt))

unmapped : any is_mapped (cidrs the_engine) ≡ false
unfolding to4 cut_prefix
unmapped = refl

allows_ip-is_under_example : allows_ip the_engine remote ≡ (
    any (λ ip. is_under 32 ip remote) (ips the_engine)
    || any (λ (n : IpNet). is_under n.ones n.ip remote) (cidrs the_engine))
allows_ip-is_under_example =
    allows_ip-is_under plain_tables sample the_engine remote builds refl unmapped

abbrev seen : Parse.Event
seen = reported plain_tables 7 none none event

add_all-tallies_example :
    (count_at seen.verdict (add_all new_collector (seen ∷ seen ∷ [])).by_verdict
      ≡ 0 + how_many (λ (ev : Parse.Event). equal ev.verdict seen.verdict) (seen ∷ seen ∷ []))
    × (count_to (key_of seen) (add_all new_collector (seen ∷ seen ∷ [])).dests
        ≡ 0 + how_many (λ ev. same_key (key_of ev) (key_of seen)) (seen ∷ seen ∷ []))
add_all-tallies_example =
    add_all-tallies new_collector (seen ∷ seen ∷ []) seen.verdict (key_of seen)

abbrev arguments : Arguments
arguments = record {
  log_path = codes "-";
  format = codes "markdown";
  top = pos 50;
  raw = false;
  level = codes "auto";
  mode = [];
  rest = [];
}

abbrev surroundings : Surroundings
surroundings = record {
  open_file = λ p. none;
  stdin = output (printed 7 none none (event ∷ event ∷ []));
  getenv = λ n. [];
}

run_report-output_example :
    (r : Renderer) × (renderer_for (codes "markdown") ≡ ok r)
    × (run_report plain_tables surroundings arguments
        ≡ ok (
            rendered r
              (record { top = 50; annotation_level = codes "auto" })
              (summary (collected plain_tables 7 none none arguments (event ∷ event ∷ [])))))
unfolding read_log resolve_format equal
run_report-output_example =
    run_report-output plain_tables 7 none none arguments surroundings 50 (codes "markdown")
      (event ∷ event ∷ [])
      (record {
        no_rest = refl;
        at_top = refl;
        resolved = refl;
        known_level = refl;
        not_raw = refl;
        readable = refl;
      })
      (relayed, (relayed, tt))
