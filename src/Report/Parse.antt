-- ===== src/Report/Parse.antt =====
-- internal/report/parse.go: `ParseLine` with `cutField`, `parseDst` and `sanitize`, `parseModeLine`,
-- and `ScanLog`.
use field_cage.Base.{
  ℕ, zero, suc, ◌^◌, Bool, ◌||◌, not, List, [], ◌∷◌, ◌++◌, Option, none, some, ◌==◌, if◌then◌else◌,
  Result, ok, err,
}
use field_cage.Text.Bytes.{
  Bytes, codes, is_empty, has_prefix, has_suffix, trim_suffix, cut_prefix, cut_first, cut_last,
  contains, trim_right,
}
use field_cage.Text.Utf8.{Chunk, chunks, encode_rune, rune_error}
use field_cage.Text.Space.{trim_space}
use field_cage.Text.Case.{Tables, is_print}
use field_cage.Text.Number.{parse_uint}
use field_cage.Net.Ip
use field_cage.Net.Ip.{Ip}
use field_cage.Net.Parse.{parse_ip}
use field_cage.Report.Verdict.{Verdict}

abbrev pub prefix_verdict : Bytes
prefix_verdict = codes "verdict="

abbrev pub field_pid : Bytes
field_pid = codes " pid="

abbrev pub field_tgid : Bytes
field_tgid = codes " tgid="

abbrev pub field_comm : Bytes
field_comm = codes " comm="

abbrev pub field_dst : Bytes
field_dst = codes " dst="

abbrev pub max_domain_len : ℕ
max_domain_len = 253

abbrev pub max_comm_len : ℕ
max_comm_len = 16

abbrev pub max_mode_len : ℕ
max_mode_len = 64

abbrev pub scan_buffer_max : ℕ
scan_buffer_max = 2 ^ 20

-- `Event`
pub record Event : Type 0 where
  pub verdict : Verdict
  pub pid : ℕ
  pub tgid : ℕ
  pub comm : Bytes
  pub domain : Bytes
  pub ip : Ip
  pub port : ℕ

-- `IPString`
unfoldable pub ip_string : Ip → Bytes
ip_string ip = if is_empty ip then [] else Ip.string ip

-- `Event.Destination`
unfoldable pub destination : Event → Bytes
destination e = if is_empty e.domain then ip_string e.ip else e.domain

pub data ParseError : Type 0 where
  not_a_verdict_line empty_verdict : ParseError
  missing_field : Bytes → ParseError
  invalid_pid invalid_tgid : ParseError
  missing_port invalid_port invalid_ip : ParseError

infixl 5 ◌>>=◌
abbrev pub ◌>>=◌ :
    {A B : Type 0} → Result ParseError A → (A → Result ParseError B) → Result ParseError B
ok a >>= f = f a
err e >>= f = err e

abbrev pub need : {A : Type 0} → ParseError → Option A → Result ParseError A
need e none = err e
need e (some a) = ok a

unfoldable pub sanitize_chunks : Tables → ℕ → List Chunk → Bytes
unfolding is_print encode_rune
sanitize_chunks t n [] = []
sanitize_chunks t zero (k ∷ ks) = []
sanitize_chunks t (suc n) (k ∷ ks) =
    (if k.rune == rune_error || not (is_print t k.rune) then b'?' ∷ [] else encode_rune k.rune)
    ++ sanitize_chunks t n ks

-- `sanitize`; the counter of the loop is the number of runes left
unfoldable pub sanitize : Tables → Bytes → ℕ → Bytes
unfolding sanitize_chunks
sanitize t s max = sanitize_chunks t max (chunks s)

-- `cutField`: the value, and the rest from the next marker on
unfoldable pub cut_field : Bytes → Bytes → Bytes → Result ParseError (Bytes × Bytes)
cut_field s key next = do
  body ← need (missing_field key) (cut_prefix key s)
  found ← need (missing_field next) (cut_first next body)
  ok (trim_space found.0, next ++ found.1)

-- The destination column: a domain, an address and a port.
pub record Destination : Type 0 where
  pub domain : Bytes
  pub ip : Ip
  pub port : ℕ

-- `domain (addr)` or `addr`
unfoldable pub split_addr : Bytes → Bytes × Bytes
split_addr addr =
    if has_suffix addr (codes ")")
    then elim (cut_last (codes " (") addr) [
      | none ↦ ([], addr)
      | some p ↦ (p.0, trim_suffix p.1 (codes ")"))
    ]
    else ([], addr)

-- `parseDst`
unfoldable pub parse_dst : Bytes → Result ParseError Destination
unfolding split_addr
parse_dst s = do
  cut ← need missing_port (cut_last (codes ":") (trim_space s))
  port ← need invalid_port (parse_uint 16 cut.1)
  ip ← need invalid_ip (parse_ip (split_addr cut.0).1)
  ok (record { domain = (split_addr cut.0).0; ip = ip; port = port })

unfoldable pub is_newline : ℕ → Bool
is_newline c = c == b'\r' || c == b'\n'

-- the last steps of `ParseLine`, on the texts of the fields
unfoldable pub read_fields :
    Tables → Bytes → Bytes → Bytes → Bytes → Bytes → Result ParseError Event
unfolding parse_dst
read_fields t verdict pid_str tgid_str comm dst = do
  pid ← need invalid_pid (parse_uint 32 pid_str)
  tgid ← need invalid_tgid (parse_uint 32 tgid_str)
  d ← parse_dst dst
  if is_empty verdict
      then err empty_verdict
      else ok (record {
        verdict = sanitize t verdict max_domain_len;
        pid = pid;
        tgid = tgid;
        comm = sanitize t comm max_comm_len;
        domain = sanitize t d.domain max_domain_len;
        ip = d.ip;
        port = d.port;
      })

-- the fields in front of the destination
unfoldable pub parse_head : Tables → Bytes → Bytes → Result ParseError Event
unfolding cut_field read_fields
parse_head t head dst = do
  v ← cut_field head prefix_verdict field_pid
  p ← cut_field v.1 field_pid field_tgid
  g ← cut_field p.1 field_tgid field_comm
  comm ← need (missing_field field_comm) (cut_prefix field_comm g.1)
  read_fields t v.0 p.0 g.0 (trim_space comm) dst

-- `ParseLine`
unfoldable pub parse_line : Tables → Bytes → Result ParseError Event
unfolding parse_head is_newline
parse_line t line =
    let s = trim_right is_newline line in
    if not (has_prefix s prefix_verdict)
    then err not_a_verdict_line
    else (need (missing_field field_dst) (cut_last field_dst s) >>= λ p. parse_head t p.0 p.1)

abbrev pub mode_line_marker : Bytes
mode_line_marker = codes "msg=\"watching outbound connections"

-- the text in front of the first `sep`, or the whole
unfoldable pub up_to : Bytes → Bytes → Bytes
up_to sep s = elim (cut_first sep s) [ none ↦ s | some p ↦ p.0 ]

-- the value behind ` mode=`, in quotes or up to a space
unfoldable pub mode_value : Bytes → Bytes
unfolding up_to
mode_value v = elim (cut_prefix (codes "\"") v) [
  | some q ↦ up_to (codes "\"") q
  | none ↦ up_to (codes " ") v
]

abbrev non_empty : Bytes → Option Bytes
non_empty v = if is_empty v then none else some v

-- `parseModeLine`; `none` is the false of its second result
unfoldable pub parse_mode_line : Tables → Bytes → Option Bytes
unfolding mode_value
parse_mode_line t line =
    if not (contains line mode_line_marker) then none else elim (cut_first (codes " mode=") line) [
      | none ↦ none
      | some p ↦ non_empty (sanitize t (trim_space (mode_value p.1)) max_mode_len)
    ]
