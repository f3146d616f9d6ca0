-- ===== src/Ebpf/Dns.antt =====
-- The DNS watcher: `parseDNSResponse` (internal/ebpf/dns_parse.go) and the loop of `dnsWatcher`
-- (internal/ebpf/dns_watcher.go). The wire parser of golang.org/x/net/dns/dnsmessage is the
-- parameter `Parser`.
use field_cage.Base.{
  ℕ, zero, suc, ◌-◌, ◌/◌, ◌%◌, ◌<◌, Bool, true, false, ◌||◌, ◌&&◌, List, [], ◌∷◌, ◌++◌, Option,
  none, some, ◌==◌, ltb, if◌then◌else◌, length, ◌≡◌, map,
}
use field_cage.Text.Bytes.{Bytes, codes, is_empty, trim_suffix}
use field_cage.Net.Ip.{Ip, string}
use field_cage.Ebpf.Maps.{KernelMaps}
use field_cage.Ebpf.Watcher.{Block, allow_ip}
use field_cage.Ebpf.Cache.{DnsCache, set}
use field_cage.Ebpf.Event.{little_endian, slice}
use field_cage.Ebpf.Resolvers.{is_trusted_source}

-- The part of an answer's header that the program reads.
pub record AnswerHeader : Type 0 where
  pub kind : ℕ
  pub size : ℕ

abbrev pub type_a : ℕ
type_a = 1

abbrev pub type_aaaa : ℕ
type_aaaa = 28

-- `dnsmessage.Parser`; a call returns the parser behind what it read, and `none` is an error.
pub record Parser : Type 1 where
  pub P : Type 0
  -- `Start`, with the response bit of the header
  pub start : Bytes → Option (Bool × P)
  -- `Question`, with the name as `Name.String` renders it
  pub question : P → Option (Bytes × P)
  pub skip_questions : P → Option P
  pub answer_header : P → Option (AnswerHeader × P)
  pub a_resource : P → Option (Bytes × P)
  pub aaaa_resource : P → Option (Bytes × P)
  pub skip_answer : P → Option P
  -- the answers that are still to be read: the header counts them
  pub answers_left : P → ℕ
  -- A header stays in front of its answer until the answer is read or skipped.
  pub header_left :
      (p p' : P) (h : AnswerHeader)
      → answer_header p ≡ some (h, p')
      → 0 < answers_left p × (answers_left p' ≡ answers_left p)
  pub a_left :
      (p p' : P) (ip : Bytes) → a_resource p ≡ some (ip, p') → answers_left p' < answers_left p
  pub aaaa_left :
      (p p' : P) (ip : Bytes) → aaaa_resource p ≡ some (ip, p') → answers_left p' < answers_left p
  pub skip_left : (p p' : P) → skip_answer p ≡ some p' → answers_left p' < answers_left p

-- What `parseDNSResponse` returns.
pub record Response : Type 0 where
  pub domain : Bytes
  pub ips : List Ip

abbrev pub no_response : Response
no_response = record { domain = []; ips = [] }

module _ (lib : Parser) where
  open lib use {
    P, start, question, skip_questions, answer_header, a_resource, aaaa_resource, skip_answer,
    answers_left,
  }

  abbrev pub take_ip :
      (P → List Ip → Option (List Ip)) → List Ip → Option (Bytes × P) → Option (List Ip)
  take_ip again ips none = some ips
  take_ip again ips (some (ip, p)) = again p (ips ++ ip ∷ [])

  abbrev pub pass : (P → List Ip → Option (List Ip)) → List Ip → Option P → Option (List Ip)
  pass again ips none = some ips
  pass again ips (some p) = again p ips

  abbrev pub on_header :
      (P → List Ip → Option (List Ip)) → List Ip → Option (AnswerHeader × P) → Option (List Ip)
  on_header again ips none = some ips
  on_header again ips (some (h, p)) =
      if h.kind == type_a && h.size == 4
      then take_ip again ips (a_resource p)
      else if h.kind == type_aaaa && h.size == 16
      then take_ip again ips (aaaa_resource p)
      else pass again ips (skip_answer p)

  -- the loop over the answers; `none` means that the fuel ran out
  unfoldable pub answers : ℕ → P → List Ip → Option (List Ip)
  answers zero p ips = none
  answers (suc n) p ips = on_header (λ q r. answers n q r) ips (answer_header p)

  -- each round but the last reads one answer
  abbrev pub all_answers : P → Option (List Ip)
  all_answers p = answers (suc (answers_left p)) p []

  abbrev response : Bytes → Option (List Ip) → Response
  response domain none = no_response
  response domain (some ips) = record { domain = domain; ips = ips }

  on_questions : Bytes → Option P → Response
  unfolding answers
  on_questions name none = no_response
  on_questions name (some p) = response (trim_suffix name (codes ".")) (all_answers p)

  on_question : Option (Bytes × P) → Response
  unfolding on_questions
  on_question none = no_response
  on_question (some (name, p)) = on_questions name (skip_questions p)

  on_start : Option (Bool × P) → Response
  unfolding on_question
  on_start none = no_response
  on_start (some (false, p)) = no_response
  on_start (some (true, p)) = on_question (question p)

  unfoldable pub parse_dns_response : Bytes → Response
  unfolding on_start
  parse_dns_response packet = on_start (start packet)

-- `dnsWatcher`: what its loop reads. In audit mode there is no block state, and nothing is allowed.
pub record Watch : Type 0 where
  pub is_allowed : Option (Bytes → Bool)
  pub trusted : List Bytes

-- `htons` on a little-endian machine, for the protocol of the socket that `newDNSWatcher` opens
unfoldable pub htons : ℕ → ℕ
unfolding little_endian
htons v = little_endian ((v / 256 % 256) ∷ (v % 256) ∷ [])

-- `newDNSWatcher`: the texts of the nameservers, if there is block state to extend
unfoldable pub new_watch : Option (Bytes → Bool) → Bool → List Ip → Watch
new_watch is_allowed blocking resolvers = record {
  is_allowed = is_allowed;
  trusted = if blocking then map string resolvers else [];
}

abbrev pub accepts : Option (Bytes → Bool) → Bytes → Bool
accepts none domain = false
accepts (some f) domain = f domain

module _ (lib : KernelMaps) where
  -- the state that the loop changes, with the addresses whose entry failed
  pub record State : Type 0 where
    pub cache : DnsCache
    pub block : Block lib
    pub failed : List Ip

  abbrev allowed : State → Ip → Option (Block lib) → State
  allowed s ip none = record s { failed = ip ∷ s.failed }
  allowed s ip (some b) = record s { block = b }

  -- one address of a response
  unfoldable pub record_ip : Bool → Bytes → State → Ip → State
  record_ip allow_domain domain s ip =
      let cached = record s { cache = set s.cache ip domain } in
      if allow_domain then allowed cached ip (allow_ip lib s.block ip) else cached

  unfoldable pub record_ips : Bool → Bytes → State → List Ip → State
  record_ips allow_domain domain s [] = s
  record_ips allow_domain domain s (ip ∷ ips) =
      record_ips allow_domain domain (record_ip allow_domain domain s ip) ips

  abbrev pub is_block : Block lib → Bool
  is_block none = false
  is_block (some m) = true

  -- whether a response extends the allowlist
  unfoldable pub may_allow : Watch → State → Ip → Bytes → Bool
  may_allow w s src domain =
      is_block s.block && accepts w.is_allowed domain && is_trusted_source src w.trusted

  unfoldable pub on_response : Watch → State → Ip → Response → State
  unfolding may_allow record_ips
  on_response w s src r =
      if is_empty r.domain then s else record_ips (may_allow w s src r.domain) r.domain s r.ips

  -- one record of the ring buffer: a length, the source address, and the payload
  unfoldable pub observe : Parser → Watch → State → Bytes → State
  unfolding on_response
  observe dns w s raw =
      let size = little_endian (slice 0 4 raw) in
      if ltb (length raw) 8
      then s
      else if size == 0 || ltb (length raw - 8) size
      then s
      else on_response w s (slice 4 4 raw) (parse_dns_response dns (slice 8 size raw))

  -- `run`, on the records up to the end of the reader
  unfoldable pub run : Parser → Watch → State → List Bytes → State
  run dns w s [] = s
  run dns w s (raw ∷ raws) = run dns w (observe dns w s raw) raws
