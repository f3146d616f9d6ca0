-- ===== src/Ebpf/Wire.antt =====
-- The record of a connection as the capture program lays it out (struct event of bpf/connect.c), read
-- back by `parseEvent` of internal/ebpf/event.go.
use field_cage.Base.{
  ℕ, zero, suc, ◌-◌, ◌/◌, ◌%◌, ◌^◌, ◌<◌, ◌≤◌, ◌==◌, ltb, Bool, true, false, not, [], ◌∷◌, ◌++◌, all,
  none, some, take, take-append, drop-append, length, length-append, length-take, length-replicate,
  replicate, if◌then◌else◌, ◌≡◌, refl, sym, ap, ◌∙◌, arith, append_assoc,
}
use field_cage.Text.Bytes.{Bytes}
use field_cage.Ebpf.Event.{
  Event, little_endian, null_terminated, slice, event_size, event_of, parse_event,
}

-- a number of two or four bytes, its low byte first
abbrev word : ℕ → Bytes
word n = n % 256 ∷ n / 256 % 256 ∷ []

abbrev double : ℕ → Bytes
double n = n % 256 ∷ n / 256 % 256 ∷ n / 65536 % 256 ∷ n / 16777216 % 256 ∷ []

-- a field of 16 bytes, filled up with zeros
abbrev field : Bytes → Bytes
field s = s ++ replicate (16 - length s) 0

-- A record: the identifiers, the port, the family, the address, the name, and 12 bytes of padding and
-- time.
abbrev pub wire : Event → ℕ → Bytes → Bytes
wire ev family rest =
    double ev.pid
    ++ (double ev.tgid
        ++ (word ev.dport ++ (word family ++ (field ev.daddr ++ (field ev.comm ++ rest)))))

-- An event that fits its record: the family says how long the address is, no byte of the name is zero,
-- and the record does not hold the domain.
pub record IsWired (ev : Event) (v6 : Bool) (rest : Bytes) : Type 0 where
  pub pid_fits : ev.pid < 2 ^ 32
  pub tgid_fits : ev.tgid < 2 ^ 32
  pub port_fits : ev.dport < 2 ^ 16
  pub address_fits : length ev.daddr ≡ (if v6 then 16 else 4)
  pub name_fits : length ev.comm ≤ 16
  pub name_filled : all (λ c. not (c == 0)) ev.comm ≡ true
  pub no_domain : ev.domain ≡ []
  pub rest_fits : length rest ≡ 12

-- AF_INET6 and AF_INET
abbrev pub family_of : Bool → ℕ
family_of v6 = if v6 then 10 else 2

double-back : (n : ℕ) → n < 2 ^ 32 → little_endian (double n) ≡ n
unfolding little_endian
double-back n h = omega (arith, h)

word-back : (n : ℕ) → n < 2 ^ 16 → little_endian (word n) ≡ n
unfolding little_endian
word-back n h = omega (arith, h)

length-field : (s : Bytes) → length s ≤ 16 → length (field s) ≡ 16
length-field s h = omega (
  arith,
  h,
  length-append s (replicate (16 - length s) 0),
  length-replicate {A = ℕ} (16 - length s) 0,
)

zeros-null : (n : ℕ) → null_terminated (replicate n 0) ≡ []
unfolding null_terminated
zeros-null zero = refl
zeros-null (suc n) = refl

null_terminated-name :
    (s : Bytes) (n : ℕ)
    → all (λ c. not (c == 0)) s ≡ true
    → null_terminated (s ++ replicate n 0) ≡ s
unfolding null_terminated
null_terminated-name [] n h = zeros-null n
null_terminated-name (c ∷ s) n h = ground (arith, null_terminated-name s n)

-- the first bytes of a field
taken : (n : ℕ) (s zeros tail : Bytes) → length s ≡ n → take n ((s ++ zeros) ++ tail) ≡ s
taken n s zeros tail h = ap (take n) (append_assoc s zeros tail) ∙ take-append n s (zeros ++ tail) h

address-taken :
    (v6 : Bool) (s tail : Bytes)
    → length s ≡ (if v6 then 16 else 4)
    → (if little_endian (word (family_of v6)) == 10
        then take 16 (field s ++ tail)
        else take 4 (field s ++ tail))
      ≡ s
unfolding little_endian
address-taken true s tail h = taken 16 s (replicate (16 - length s) 0) tail h
address-taken false s tail h = taken 4 s (replicate (16 - length s) 0) tail h

size-fits : (v6 : Bool) (n : ℕ) → n ≡ (if v6 then 16 else 4) → n ≤ 16
size-fits true n h = omega (arith, h)
size-fits false n h = omega (arith, h)

same-event :
    (a b : Event)
    → a.pid ≡ b.pid
    → a.tgid ≡ b.tgid
    → a.dport ≡ b.dport
    → a.daddr ≡ b.daddr
    → a.comm ≡ b.comm
    → a.domain ≡ b.domain
    → a ≡ b
same-event a b p t d s c n = cc

module _ (ev : Event) (v6 : Bool) (rest : Bytes) (w : IsWired ev v6 rest) where
  abbrev raw : Bytes
  raw = wire ev (family_of v6) rest

  address_size : length (field ev.daddr) ≡ 16
  address_size = length-field ev.daddr (size-fits v6 (length ev.daddr) w.address_fits)

  name_size : length (field ev.comm) ≡ 16
  name_size = length-field ev.comm w.name_fits

  length-raw : length raw ≡ 56
  length-raw = omega (
    arith,
    address_size,
    name_size,
    w.rest_fits,
    length-append (field ev.daddr) (field ev.comm ++ rest),
    length-append (field ev.comm) rest,
  )

  name-back : null_terminated (slice 28 16 raw) ≡ ev.comm
  name-back =
      ap (λ s. null_terminated (take 16 s)) (drop-append 16 (field ev.daddr) _ address_size)
      ∙ ap null_terminated (take-append 16 (field ev.comm) rest name_size)
      ∙ null_terminated-name ev.comm (16 - length ev.comm) w.name_filled

  event_of-wire : event_of raw ≡ ev
  unfolding event_of
  event_of-wire =
      same-event (event_of raw) ev (double-back ev.pid w.pid_fits) (double-back ev.tgid w.tgid_fits)
        (word-back ev.dport w.port_fits)
        (address-taken v6 ev.daddr (field ev.comm ++ rest) w.address_fits) name-back
        (sym w.no_domain)

  -- An event that is laid out as the capture program does is parsed as this event, IPv4 or IPv6; and
  -- of such a record that is cut short, to fewer than its 56 bytes, nothing is parsed.
  pub parse_event-wire :
      (n : ℕ)
      → n < 56
      → (parse_event (wire ev (family_of v6) rest) ≡ some ev)
        × (parse_event (take n (wire ev (family_of v6) rest)) ≡ none)
  unfolding parse_event
  parse_event-wire n h =
      let whole : ltb (length raw) event_size ≡ false = ground (arith, length-raw) in
      let short : ltb (length (take n raw)) event_size ≡ true = ground (arith, length-take n raw) in
      (rw (whole, event_of-wire) refl, rw short refl)
