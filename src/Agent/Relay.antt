-- ===== src/Agent/Relay.antt =====
-- The output of the agent, scanned by the report.
use field_cage.Base.{
  ℕ, ◌<◌, ◌≤◌, true, List, [], ◌∷◌, ◌++◌, none, All, length, length-append, ◌≡◌, refl, ap, ◌∙◌,
  arith, Result, ok, Bool-cases, inl, inr,
}
use field_cage.Text.Bytes.{Bytes, codes, has_prefix, is_empty, cut_prefix}
use field_cage.Text.Case.{Tables}
use field_cage.Report.RoundTrip.Length.{length-string4, length-line}
use field_cage.Net.Ip
use field_cage.Net.Ip.{Ip, string4}
use field_cage.Net.Dotted.{quad, IsQuad}
use field_cage.Ebpf.Event.{Event}
use field_cage.Report.Verdict.{Allower, DnsExempt, Line, dst, line_string}
use field_cage.Report.Parse
use field_cage.Report.Parse.{parse_line, prefix_verdict, scan_buffer_max, max_domain_len}
use field_cage.Report.Scan.{Progress, scan_line, scan_from, scan_log}
use field_cage.Report.Collected.{fits}
use field_cage.Agent.Loop.{line_of, printed}
use field_cage.Agent.Readback.{
  is_word, verdict_for_event-is_word, string-quad, IsReadable, reported, parse_line-line_of,
}

-- an event that the report reads back: it is readable, and its destination is an IPv4 address
pub record IsRelayed (ev : Event) : Type 0 where
  pub octets : (a b c d : ℕ) × (ev.daddr ≡ quad a b c d) × IsQuad a b c d
  pub readable : IsReadable ev

has_prefix-line : (l : Line) → has_prefix (line_string l) prefix_verdict ≡ true
unfolding line_string has_prefix cut_prefix
has_prefix-line l = refl

length-dst :
    (domain : Bytes) (daddr : Ip)
    → length domain ≤ max_domain_len
    → length (Ip.string daddr) ≤ 43
    → length (dst domain daddr) ≤ 300
unfolding dst
length-dst domain daddr h k =
    let text = Ip.string daddr in
    elim (Bool-cases (is_empty domain)) [
      | inl e ↦ rw (e, dst) (omega (arith, k))
      | inr e ↦
          rw (e, dst)
            (omega (
              arith,
              h,
              k,
              length-append domain (codes " (" ++ (text ++ codes ")")),
              length-append text (codes ")"),
            ))
    ]

fits-short : (s : Bytes) → length s < 1024 → fits s ≡ true
fits-short s h = ground arith

word-short : (v : Bytes) → is_word v ≡ true → length v ≤ 253
word-short v h = ground arith

string-short :
    (ip : Ip) (a b c d : ℕ) → ip ≡ quad a b c d → IsQuad a b c d → length (Ip.string ip) ≤ 43
string-short ip a b c d e q =
    let same = ap length (ap Ip.string e ∙ string-quad a b c d) in
    omega (arith, same, length-string4 a b c d q)

module _ (t : Tables) (self : ℕ) (allower : Allower) (exempt : DnsExempt) where
  line-back :
      (ev : Event)
      → IsRelayed ev
      → parse_line t (line_string (line_of self allower exempt ev))
        ≡ ok (reported t self allower exempt ev)
  line-back ev h =
      let (a, b, c, d, e, q) = h.octets in
      parse_line-line_of t self allower exempt ev a b c d e q h.readable

  line-fits :
      (ev : Event) → IsRelayed ev → fits (line_string (line_of self allower exempt ev)) ≡ true
  unfolding line_of
  line-fits ev h =
      let (a, b, c, d, e, q) = h.octets in
      let r = h.readable in
      let verdict =
        verdict_for_event-is_word ev.tgid ev.dport ev.daddr ev.domain self allower exempt in
      fits-short (line_string (line_of self allower exempt ev)) (
        length-line (line_of self allower exempt ev) (word-short _ verdict) r.comm_fits
          (length-dst ev.domain ev.daddr r.domain_fits (string-short ev.daddr a b c d e q))
          r.pid_fits r.tgid_fits r.port_fits)

  module _ {S : Type 0} (g : S → Parse.Event → S) where
    -- the callback on the events in order
    abbrev pub fed : S → List Event → S
    fed s [] = s
    fed s (ev ∷ evs) = fed (g s (reported t self allower exempt ev)) evs

    abbrev pub callback : S → Parse.Event → Result ⊥ S
    callback s ev = ok (g s ev)

    scan_line-line :
        (p : Progress S) (ev : Event)
        → IsRelayed ev
        → scan_line t callback p (line_string (line_of self allower exempt ev))
          ≡ ok (record p { state = g p.state (reported t self allower exempt ev) })
    unfolding scan_line
    scan_line-line p ev h =
        rw (has_prefix-line (line_of self allower exempt ev), line-back ev h, scan_line) refl

    scan_from-printed :
        (evs : List Event) (p : Progress S)
        → All IsRelayed evs
        → scan_from t callback p (printed self allower exempt evs)
          ≡ record { progress = record p { state = fed p.state evs }; error = none }
    unfolding scan_from printed
    scan_from-printed [] p h = refl
    scan_from-printed (ev ∷ evs) p h =
        rw (line-fits ev h.0, scan_line-line p ev h.0) (scan_from-printed evs _ h.1)

    -- The lines that the agent prints for events that are readable and go to IPv4 addresses, scanned by
    -- the report, reach its callback as these events, in their order; none is malformed, no line is
    -- too long, and no mode is found among them.
    pub scan_log-printed :
        (s : S) (evs : List Event)
        → All IsRelayed evs
        → scan_log t callback s (printed self allower exempt evs) ≡ record {
          progress = record { mode = []; malformed = 0; state = fed s evs };
          error = none;
        }
    unfolding scan_log
    scan_log-printed s evs h =
        scan_from-printed evs (record { mode = []; malformed = 0; state = s }) h
