-- ===== src/Report/RoundTrip/Line.antt =====
-- A line that the agent prints, read back by `ParseLine`.
use field_cage.Base.{
  ℕ, ◌^◌, ◌<◌, ◌≤◌, true, false, [], ◌∷◌, ◌++◌, some, all, any, length, ◌≡◌, refl, ap, sym, subst,
  ◌∙◌, arith, append_assoc, ok,
}
use field_cage.Text.Bytes.{Bytes, codes, has_prefix, cut_last, is_empty}
use field_cage.Text.Equal.{cut_prefix-append}
use field_cage.Text.Space.{trim_space}
use field_cage.Text.Case.{Tables}
use field_cage.Text.Number.{decimal}
use field_cage.Text.Ascii.{is_text, is_plain, all-append, plain-text}
use field_cage.Text.Trim.{trim_space-append, trim_right-same}
use field_cage.Text.Search.{cut_last-append}
use field_cage.Text.Decimal.{decimal-digits, digits-plain, parse_uint-decimal}
use field_cage.Net.Ip.{Ip}
use field_cage.Net.Parse.{parse_ip}
use field_cage.Report.Verdict.{Line, pad, line_string}
use field_cage.Report.Parse.{
  Event, read_fields, parse_head, parse_line, is_newline, prefix_verdict, field_pid, field_tgid,
  field_comm, field_dst, max_domain_len, max_comm_len,
}
use field_cage.Report.RoundTrip.Target.{
  IsAddress, dst_text, column, column-text, column-unmarked, parse_dst-column,
}
use field_cage.Report.RoundTrip.Fields.{pad-spaces, pad-text, cut_field-pad, sanitize-text}

-- What the agent can print and the parser reads back unchanged: words of printable ASCII within the
-- limits of the parser, a process name that has no space at its ends, and numbers of their widths.
pub record IsPrintable (verdict comm domain : Bytes) (pid tgid port : ℕ) : Type 0 where
  pub verdict_filled : is_empty verdict ≡ false
  pub verdict_plain : all is_plain verdict ≡ true
  pub verdict_fits : length verdict ≤ max_domain_len
  pub comm_text : all is_text comm ≡ true
  pub comm_trimmed : trim_space comm ≡ comm
  pub comm_fits : length comm ≤ max_comm_len
  pub domain_plain : all is_plain domain ≡ true
  pub domain_fits : length domain ≤ max_domain_len
  pub pid_fits : pid < 2 ^ 32
  pub tgid_fits : tgid < 2 ^ 32
  pub port_fits : port < 2 ^ 16

module _ (t : Tables) (verdict comm domain s : Bytes) (ip : Ip) (pid tgid port : ℕ) where
  abbrev line : Line
  line = record {
    verdict = verdict;
    pid = pid;
    tgid = tgid;
    comm = comm;
    dst = dst_text domain s;
    dport = port;
  }

  abbrev event : Event
  event = record {
    verdict = verdict;
    pid = pid;
    tgid = tgid;
    comm = comm;
    domain = domain;
    ip = ip;
    port = port;
  }

  abbrev from_comm : Bytes
  from_comm = field_comm ++ pad 16 comm

  abbrev from_tgid : Bytes
  from_tgid = field_tgid ++ (pad 6 (decimal tgid) ++ from_comm)

  abbrev from_pid : Bytes
  from_pid = field_pid ++ (pad 6 (decimal pid) ++ from_tgid)

  -- the line in front of its destination
  abbrev head : Bytes
  head = prefix_verdict ++ (pad 20 verdict ++ from_pid)

  line_string-head : line_string line ≡ head ++ (field_dst ++ column domain s port)
  unfolding line_string
  line_string-head =
      let rest = field_dst ++ column domain s port in
      sym (
        ap (λ r. prefix_verdict ++ r) (append_assoc (pad 20 verdict) from_pid rest)
        ∙ ap (λ r. prefix_verdict ++ (pad 20 verdict ++ (field_pid ++ r)))
            (append_assoc (pad 6 (decimal pid)) from_tgid rest)
        ∙ ap
            (λ r.
              prefix_verdict
              ++ (pad 20 verdict ++ (field_pid ++ (pad 6 (decimal pid) ++ (field_tgid ++ r)))))
            (append_assoc (pad 6 (decimal tgid)) from_comm rest))

  decimal-plain : (n : ℕ) → all is_plain (decimal n) ≡ true
  decimal-plain n = digits-plain (decimal n) (decimal-digits n)

  comm-back : IsPrintable verdict comm domain pid tgid port → trim_space (pad 16 comm) ≡ comm
  comm-back h =
      let (k, p) = pad-spaces 16 comm in
      ap trim_space p ∙ trim_space-append comm k h.comm_text ∙ h.comm_trimmed

  module _ (h : IsPrintable verdict comm domain pid tgid port) (a : IsAddress s)
      (back : parse_ip s ≡ some ip) where
    read_fields-back :
        read_fields t verdict (decimal pid) (decimal tgid) comm (column domain s port) ≡ ok event
    unfolding read_fields
    read_fields-back =
        rw
          (
            parse_uint-decimal 32 pid h.pid_fits,
            parse_uint-decimal 32 tgid h.tgid_fits,
            parse_dst-column domain s ip port h.domain_plain a back h.port_fits,
            h.verdict_filled,
            sanitize-text t verdict max_domain_len (plain-text verdict h.verdict_plain)
                h.verdict_fits,
            sanitize-text t comm max_comm_len h.comm_text h.comm_fits,
            sanitize-text t domain max_domain_len (plain-text domain h.domain_plain) h.domain_fits,
            read_fields,
          )
          refl

    parse_head-back : parse_head t head (column domain s port) ≡ ok event
    unfolding parse_head
    parse_head-back =
        rw
          (
            cut_field-pad prefix_verdict verdict 20 b'p' (codes "id=")
                (pad 6 (decimal pid) ++ from_tgid) h.verdict_plain refl,
            cut_field-pad field_pid (decimal pid) 6 b't' (codes "gid=")
                (pad 6 (decimal tgid) ++ from_comm) (decimal-plain pid) refl,
            cut_field-pad field_tgid (decimal tgid) 6 b'c' (codes "omm=") (pad 16 comm)
                (decimal-plain tgid) refl,
            cut_prefix-append field_comm (pad 16 comm),
            comm-back h,
            parse_head,
          )
          read_fields-back

    head-text : all is_text head ≡ true
    head-text =
        all-append is_text (pad 20 verdict) _
          (pad-text 20 verdict (plain-text verdict h.verdict_plain))
          (all-append is_text (pad 6 (decimal pid)) _
            (pad-text 6 (decimal pid) (plain-text (decimal pid) (decimal-plain pid)))
            (all-append is_text (pad 6 (decimal tgid)) _
              (pad-text 6 (decimal tgid) (plain-text (decimal tgid) (decimal-plain tgid)))
              (pad-text 16 comm h.comm_text)))

    text-newline : (r : Bytes) → all is_text r ≡ true → any is_newline r ≡ false
    unfolding is_newline
    text-newline [] k = refl
    text-newline (c ∷ r) k = ground (arith, text-newline r)

    has_prefix-append : (p r : Bytes) → has_prefix (p ++ r) p ≡ true
    unfolding has_prefix
    has_prefix-append p r = rw (cut_prefix-append p r, has_prefix) refl

    whole-text : all is_text (head ++ (field_dst ++ column domain s port)) ≡ true
    whole-text = all-append is_text head _ head-text (column-text domain s port h.domain_plain a)

    -- such a line is printable ASCII
    pub line_string-text : all is_text (line_string line) ≡ true
    line_string-text = subst (λ r. all is_text r ≡ true) (sym line_string-head) whole-text

    -- A line that the agent prints of words and numbers within the limits is read back as the event that
    -- it is about, if the text of its address is: the verdict and the domain are printable ASCII without
    -- spaces, and the process name printable ASCII without spaces at its ends.
    pub parse_line-line_string : parse_line t (line_string line) ≡ ok event
    unfolding parse_line
    parse_line-line_string =
        let whole = head ++ (field_dst ++ column domain s port) in
        let trimmed = trim_right-same is_newline whole (text-newline whole whole-text) in
        let cut : cut_last field_dst whole ≡ some (head, column domain s port) =
          cut_last-append b' ' (codes "dst=") head (column domain s port) refl
            (column-unmarked domain s port h.domain_plain a) in
        let begins : has_prefix whole prefix_verdict ≡ true =
          has_prefix-append prefix_verdict
            ((pad 20 verdict ++ from_pid) ++ (field_dst ++ column domain s port)) in
        rw (line_string-head, trimmed, begins, cut, parse_line) parse_head-back
