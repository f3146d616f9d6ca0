-- ===== src/Report/Clean.antt =====
-- What a parsed line can hold.
use field_cage.Base.{
  ℕ, zero, suc, ◌+◌, ◌*◌, ◌-◌, ◌<◌, ◌^◌, false, ◌||◌, not, List, [], ◌∷◌, some, ◌==◌, if◌then◌else◌,
  ◌≡◌, refl, ap, ==_iff, arith, Bool-cases, Option-cases, Result-cases, inl, inr, ok,
}
use field_cage.Text.Bytes.{Bytes, codes, cut_last, cut_prefix, has_prefix, trim_right}
use field_cage.Text.Space.{trim_space}
use field_cage.Net.Parse.{parse_ip}
use field_cage.Text.Utf8.{Chunk, chunks, encode_rune, rune_error}
use field_cage.Text.Case.{Tables, is_print}
use field_cage.Text.Number.{digits_value, parse_uint}
use field_cage.Text.Count.{count, count-append, count-encode_rune}
use field_cage.Report.Parse.{
  Event, Destination, sanitize, sanitize_chunks, split_addr, cut_field, parse_dst, read_fields,
  parse_head, parse_line, max_domain_len, max_comm_len, prefix_verdict, field_pid, field_tgid,
  field_comm, field_dst, is_newline,
}

digits_value-bound :
    (limit : ℕ) (s : Bytes) (n m : ℕ) → n < limit → digits_value limit s n ≡ some m → m < limit
unfolding digits_value
digits_value-bound limit [] n m l h = ground arith
digits_value-bound limit (c ∷ s) n m l h =
    ground (arith, digits_value-bound limit s (n * 10 + (c - b'0')) m)

parse_uint-bound :
    (bits : ℕ) (s : Bytes) (m : ℕ) → 0 < 2 ^ bits → parse_uint bits s ≡ some m → m < 2 ^ bits
unfolding parse_uint
parse_uint-bound bits [] m p h = absurd (ground arith)
parse_uint-bound bits (c ∷ s) m p h = digits_value-bound (2 ^ bits) (c ∷ s) 0 m p h

-- An event within the widths of its numbers, whose texts do not hold the character.
pub record IsClean (c : ℕ) (ev : Event) : Type 0 where
  pub pid : ev.pid < 2 ^ 32
  pub tgid : ev.tgid < 2 ^ 32
  pub port : ev.port < 2 ^ 16
  pub verdict : count c ev.verdict ≡ 0
  pub comm : count c ev.comm ≡ 0
  pub domain : count c ev.domain ≡ 0

module _ (t : Tables) (c : ℕ) (ascii : c < 0x80) (unprinted : is_print t c ≡ false) where
  sanitized_rune :
      (r : ℕ)
      → count c (if r == rune_error || not (is_print t r) then b'?' ∷ [] else encode_rune r) ≡ 0
  unfolding is_print
  sanitized_rune r = elim (Bool-cases (r == rune_error || not (is_print t r))) [
    | inl a ↦ rw a (ground arith)
    | inr a ↦
        let same : r ≡ c → is_print t r ≡ is_print t c = λ e. ap (is_print t) e in
        rw a (ground (arith, count-encode_rune c r ascii, ==_iff r c, same))
  ]

  sanitize_chunks-clean : (n : ℕ) (ks : List Chunk) → count c (sanitize_chunks t n ks) ≡ 0
  unfolding sanitize_chunks
  sanitize_chunks-clean n [] = refl
  sanitize_chunks-clean zero (k ∷ ks) = refl
  sanitize_chunks-clean (suc n) (k ∷ ks) = omega (
    arith,
    count-append c _ (sanitize_chunks t n ks),
    sanitized_rune k.rune,
    sanitize_chunks-clean n ks,
  )

  sanitize-clean : (s : Bytes) (max : ℕ) → count c (sanitize t s max) ≡ 0
  unfolding sanitize
  sanitize-clean s max = sanitize_chunks-clean max (chunks s)

  parse_dst-bound : (s : Bytes) (d : Destination) → parse_dst s ≡ ok d → d.port < 2 ^ 16
  unfolding parse_dst
  parse_dst-bound s d h = elim (Option-cases (cut_last (codes ":") (trim_space s))) [
    | inl p ↦ absurd (ground arith)
    | inr (cut, p) ↦ elim (Option-cases (parse_uint 16 cut.1)) [
      | inl q ↦ absurd (ground arith)
      | inr (port, q) ↦ elim (Option-cases (parse_ip (split_addr cut.0).1)) [
        | inl r ↦ absurd (ground arith)
        | inr (ip, r) ↦ ground (arith, parse_uint-bound 16 cut.1 port)
      ]
    ]
  ]

  read_fields-IsClean :
      (verdict pid_str tgid_str comm dst : Bytes) (ev : Event)
      → read_fields t verdict pid_str tgid_str comm dst ≡ ok ev
      → IsClean c ev
  unfolding read_fields
  read_fields-IsClean verdict pid_str tgid_str comm dst ev h =
      elim (Option-cases (parse_uint 32 pid_str)) [
        | inl p ↦ absurd (ground arith)
        | inr (pid, p) ↦ elim (Option-cases (parse_uint 32 tgid_str)) [
          | inl q ↦ absurd (ground arith)
          | inr (tgid, q) ↦ elim (Result-cases (parse_dst dst)) [
            | inr (x, r) ↦ absurd (ground arith)
            | inl (d, r) ↦
                let made : Event = record {
                  verdict = sanitize t verdict max_domain_len;
                  pid = pid;
                  tgid = tgid;
                  comm = sanitize t comm max_comm_len;
                  domain = sanitize t d.domain max_domain_len;
                  ip = d.ip;
                  port = d.port;
                } in
                let same : made ≡ ev = ground arith in
                rw (← same) (record {
                  pid = parse_uint-bound 32 pid_str pid (omega arith) p;
                  tgid = parse_uint-bound 32 tgid_str tgid (omega arith) q;
                  port = parse_dst-bound dst d r;
                  verdict = sanitize-clean verdict max_domain_len;
                  comm = sanitize-clean comm max_comm_len;
                  domain = sanitize-clean d.domain max_domain_len;
                })
          ]
        ]
      ]

  parse_head-IsClean :
      (head dst : Bytes) (ev : Event) → parse_head t head dst ≡ ok ev → IsClean c ev
  unfolding parse_head
  parse_head-IsClean head dst ev h = elim (Result-cases (cut_field head prefix_verdict field_pid)) [
    | inr (x, a) ↦ absurd (ground arith)
    | inl (v, a) ↦ elim (Result-cases (cut_field v.1 field_pid field_tgid)) [
      | inr (x, b) ↦ absurd (ground arith)
      | inl (p, b) ↦ elim (Result-cases (cut_field p.1 field_tgid field_comm)) [
        | inr (x, d) ↦ absurd (ground arith)
        | inl (g, d) ↦ elim (Option-cases (cut_prefix field_comm g.1)) [
          | inl e ↦ absurd (ground arith)
          | inr (comm, e) ↦
              read_fields-IsClean v.0 p.0 g.0 (trim_space comm) dst ev
                (rw (a, b, d, e, parse_head) at h)
        ]
      ]
    ]
  ]

  -- A line that parses gives 32-bit identifiers and a 16-bit port, and no ASCII character that is not
  -- printable, such as a newline or an escape, stands in its verdict, its process name or its domain.
  pub parse_line-IsClean : (line : Bytes) (ev : Event) → parse_line t line ≡ ok ev → IsClean c ev
  unfolding parse_line
  parse_line-IsClean line ev h =
      let s = trim_right is_newline line in
      elim (Bool-cases (has_prefix s prefix_verdict)) [
        | inr a ↦ absurd (ground arith)
        | inl a ↦ elim (Option-cases (cut_last field_dst s)) [
          | inl b ↦ absurd (ground arith)
          | inr (p, b) ↦ parse_head-IsClean p.0 p.1 ev (rw (a, b, parse_line) at h)
        ]
      ]
