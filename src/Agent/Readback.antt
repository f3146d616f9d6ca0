-- ===== src/Agent/Readback.antt =====
-- The lines that the agent prints, read back by the parser of the report.
use field_cage.Base.{
  ℕ, ◌^◌, ◌<◌, ◌≤◌, ◌==◌, Bool, true, false, ◌&&◌, not, [], ◌∷◌, ◌++◌, all, length, leb, ◌≡◌, refl,
  ap, sym, subst, ◌∙◌, arith, some, if◌then◌else◌, ok,
}
use field_cage.Text.Bytes.{Bytes, is_empty, join}
use field_cage.Text.Space.{trim_space}
use field_cage.Text.Case.{Tables}
use field_cage.Text.Number.{decimal}
use field_cage.Text.Ascii.{is_text, is_plain, all-has_byte}
use field_cage.Text.Trim.{starts_plain, starts_plain-append}
use field_cage.Text.Decimal.{decimal-filled, decimal-digits, digits-plain}
use field_cage.Net.Ip
use field_cage.Net.Ip.{Ip, mapped_prefix, string4, to4, is_loopback}
use field_cage.Net.Dotted.{quad, IsQuad, is_dotted, string4-dotted, parse_ip-string4}
use field_cage.Net.Parse.{parse_ip}
use field_cage.Ebpf.Event.{Event}
use field_cage.Report.Verdict.{
  Allower, DnsExempt, Verdict, exempts, refuses, verdict_for, allow, skip_dns, skip_loopback,
  skip_self, deny_no_domain, deny_policy, dst, line_string,
}
use field_cage.Report.Parse
use field_cage.Report.Parse.{max_domain_len, max_comm_len, parse_line}
use field_cage.Report.RoundTrip.Target.{IsAddress}
use field_cage.Report.RoundTrip.Line.{IsPrintable, line_string-text, parse_line-line_string}
use field_cage.Agent.Exempt.{verdict_for_event}
use field_cage.Agent.Loop.{line_of}

dotted-plain : (s : Bytes) → all is_dotted s ≡ true → all is_plain s ≡ true
dotted-plain [] h = refl
dotted-plain (c ∷ s) h = ground (arith, dotted-plain s)

-- a verdict that is a word within the limit of the parser
abbrev pub is_word : Verdict → Bool
is_word v = not (is_empty v) && all is_plain v && leb (length v) max_domain_len

if-is_word :
    (p : Bool) (v w : Verdict)
    → is_word v ≡ true
    → is_word w ≡ true
    → is_word (if p then v else w) ≡ true
if-is_word true v w h k = h
if-is_word false v w h k = k

verdict_for-is_word :
    (dport : ℕ) (daddr : Ip) (domain : Bytes) (allower : Allower) (exempt : DnsExempt)
    → is_word (verdict_for dport daddr domain allower exempt) ≡ true
unfolding verdict_for
verdict_for-is_word dport daddr domain allower exempt =
    if-is_word (dport == 53 && exempts exempt daddr) skip_dns _ refl (
      if-is_word (is_loopback daddr) skip_loopback _ refl (
        if-is_word (refuses allower domain daddr) _ allow
          (if-is_word (is_empty domain) deny_no_domain deny_policy refl refl) refl))

pub verdict_for_event-is_word :
    (tgid dport : ℕ) (daddr : Ip) (domain : Bytes) (self : ℕ) (allower : Allower)
    (exempt : DnsExempt)
    → is_word (verdict_for_event tgid dport daddr domain self allower exempt) ≡ true
unfolding verdict_for_event
verdict_for_event-is_word tgid dport daddr domain self allower exempt =
    if-is_word (tgid == self) skip_self _ refl
      (verdict_for-is_word dport daddr domain allower exempt)

decimal-starts : (n : ℕ) → starts_plain (decimal n) ≡ true
decimal-starts n =
    let (c, r, p) = decimal-filled n in
    let plain =
      subst (λ s. all is_plain s ≡ true) p (digits-plain (decimal n) (decimal-digits n)) in
    subst (λ s. starts_plain s ≡ true) (sym p) (ground arith)

module _ (a b c d : ℕ) where
  pub string-quad : Ip.string (quad a b c d) ≡ string4 (quad a b c d)
  unfolding Ip.string to4
  string-quad = refl

  string4-starts : starts_plain (string4 (quad a b c d)) ≡ true
  unfolding string4 join
  string4-starts = starts_plain-append (decimal a) _ (decimal-starts a)

  quad-IsAddress : IsAddress (string4 (quad a b c d))
  quad-IsAddress = record {
    plain = dotted-plain (string4 (quad a b c d)) (string4-dotted a b c d);
    filled = string4-starts;
    no_end = all-has_byte is_dotted b')' (string4 (quad a b c d)) refl (string4-dotted a b c d);
  }

-- An event of the numbers of its record, whose texts are printable ASCII within the limits of the
-- parser; the domain has no space, and the process name none at its ends.
pub record IsReadable (ev : Event) : Type 0 where
  pub comm_text : all is_text ev.comm ≡ true
  pub comm_trimmed : trim_space ev.comm ≡ ev.comm
  pub comm_fits : length ev.comm ≤ max_comm_len
  pub domain_plain : all is_plain ev.domain ≡ true
  pub domain_fits : length ev.domain ≤ max_domain_len
  pub pid_fits : ev.pid < 2 ^ 32
  pub tgid_fits : ev.tgid < 2 ^ 32
  pub port_fits : ev.dport < 2 ^ 16

readable-IsPrintable :
    (verdict : Verdict) (ev : Event)
    → is_word verdict ≡ true
    → IsReadable ev
    → IsPrintable verdict ev.comm ev.domain ev.pid ev.tgid ev.dport
readable-IsPrintable verdict ev w h = record {
  verdict_filled = ground arith;
  verdict_plain = ground arith;
  verdict_fits = ground arith;
  comm_text = h.comm_text;
  comm_trimmed = h.comm_trimmed;
  comm_fits = h.comm_fits;
  domain_plain = h.domain_plain;
  domain_fits = h.domain_fits;
  pid_fits = h.pid_fits;
  tgid_fits = h.tgid_fits;
  port_fits = h.port_fits;
}

module _ (t : Tables) (self : ℕ) (allower : Allower) (exempt : DnsExempt) where
  -- what the report knows of an event
  abbrev pub reported : Event → Parse.Event
  reported ev = record {
    verdict = verdict_for_event ev.tgid ev.dport ev.daddr ev.domain self allower exempt;
    pid = ev.pid;
    tgid = ev.tgid;
    comm = ev.comm;
    domain = ev.domain;
    ip = mapped_prefix ++ ev.daddr;
    port = ev.dport;
  }

  module _ (ev : Event) (a b c d : ℕ) (e : ev.daddr ≡ quad a b c d) (q : IsQuad a b c d)
      (h : IsReadable ev) where
    same_text : Ip.string ev.daddr ≡ string4 (quad a b c d)
    same_text = ap Ip.string e ∙ string-quad a b c d

    address_back : parse_ip (Ip.string ev.daddr) ≡ some (mapped_prefix ++ ev.daddr)
    address_back =
        ap parse_ip same_text
        ∙ parse_ip-string4 a b c d q
        ∙ ap (λ ip. some (mapped_prefix ++ ip)) (sym e)

    daddr-IsAddress : IsAddress (Ip.string ev.daddr)
    daddr-IsAddress = subst IsAddress (sym same_text) (quad-IsAddress a b c d)

    abbrev judged : Verdict
    judged = verdict_for_event ev.tgid ev.dport ev.daddr ev.domain self allower exempt

    judged-IsPrintable : IsPrintable judged ev.comm ev.domain ev.pid ev.tgid ev.dport
    judged-IsPrintable =
        readable-IsPrintable judged ev
          (verdict_for_event-is_word ev.tgid ev.dport ev.daddr ev.domain self allower exempt) h

    -- the line is printable ASCII
    pub line_of-text : all is_text (line_string (line_of self allower exempt ev)) ≡ true
    unfolding line_of dst
    line_of-text =
        line_string-text t judged ev.comm ev.domain (Ip.string ev.daddr) (mapped_prefix ++ ev.daddr)
          ev.pid ev.tgid ev.dport judged-IsPrintable daddr-IsAddress address_back

    -- The line that the agent prints for a readable event with an IPv4 destination is parsed by the
    -- report as this event, with the verdict that the agent gave it and the address in its 16-byte
    -- form.
    pub parse_line-line_of :
        parse_line t (line_string (line_of self allower exempt ev)) ≡ ok (reported ev)
    unfolding line_of dst
    parse_line-line_of =
        parse_line-line_string t judged ev.comm ev.domain (Ip.string ev.daddr)
          (mapped_prefix ++ ev.daddr) ev.pid ev.tgid ev.dport judged-IsPrintable daddr-IsAddress
          address_back
