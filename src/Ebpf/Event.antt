-- ===== src/Ebpf/Event.antt =====
-- internal/ebpf/event.go: the record of the ring buffer, as a little-endian machine writes it.
use field_cage.Base.{
  ℕ, ◌+◌, ◌*◌, [], ◌∷◌, Option, none, some, ◌==◌, ltb, if◌then◌else◌, take, drop, length,
}
use field_cage.Text.Bytes.{Bytes}
use field_cage.Net.Ip.{Ip}

-- `Event`; the domain is empty until the DNS cache knows it
pub record Event : Type 0 where
  pub pid : ℕ
  pub tgid : ℕ
  pub dport : ℕ
  pub daddr : Ip
  pub comm : Bytes
  pub domain : Bytes

abbrev pub af_inet : ℕ
af_inet = 2

abbrev pub af_inet6 : ℕ
af_inet6 = 10

-- the size of `connectEvent` in its packed layout
abbrev pub event_size : ℕ
event_size = 56

-- an unsigned number, its low byte first
unfoldable pub little_endian : Bytes → ℕ
little_endian [] = 0
little_endian (b ∷ s) = b + 256 * little_endian s

-- the `n` bytes at an offset
abbrev pub slice : ℕ → ℕ → Bytes → Bytes
slice from n s = take n (drop from s)

unfoldable pub null_terminated : Bytes → Bytes
null_terminated [] = []
null_terminated (b ∷ s) = let rest = null_terminated s in if b == 0 then [] else b ∷ rest

-- the fields of a record, by their offsets
unfoldable pub event_of : Bytes → Event
unfolding little_endian null_terminated
event_of raw = record {
  pid = little_endian (slice 0 4 raw);
  tgid = little_endian (slice 4 4 raw);
  dport = little_endian (slice 8 2 raw);
  daddr = if little_endian (slice 10 2 raw) == af_inet6 then slice 12 16 raw else slice 12 4 raw;
  comm = null_terminated (slice 28 16 raw);
  domain = [];
}

-- `none` is the error of a record that is too short
unfoldable pub parse_event : Bytes → Option Event
unfolding event_of
parse_event raw = if ltb (length raw) event_size then none else some (event_of raw)
