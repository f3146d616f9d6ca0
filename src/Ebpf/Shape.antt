-- ===== src/Ebpf/Shape.antt =====
-- The bounds of a parsed event.
use field_cage.Base.{
  ℕ, zero, suc, ◌+◌, ◌*◌, ◌<◌, ◌≤◌, ◌^◌, ◌-◌, [], ◌∷◌, some, ◌==◌, take, drop, length, All, ◌≡◌,
  ◌⊎◌, refl, arith, Bool-cases, inl, inr,
}
use field_cage.Text.Bytes.{Bytes}
use field_cage.Text.Count.{count}
use field_cage.Ebpf.Event.{
  Event, event_size, little_endian, slice, null_terminated, event_of, parse_event, af_inet6,
}

abbrev pub IsByte : ℕ → Type 0
IsByte b = b < 256

-- the numbers of `n` bytes
abbrev bytes_max : ℕ → ℕ
bytes_max zero = 1
bytes_max (suc n) = 256 * bytes_max n

little_endian-bound :
    (s : Bytes) (n : ℕ) → All IsByte s → length s ≤ n → little_endian s < bytes_max n
unfolding little_endian
little_endian-bound [] zero h l = omega arith
little_endian-bound [] (suc n) h l = omega (arith, little_endian-bound [] n tt (omega arith))
little_endian-bound (b ∷ s) zero h l = absurd (omega (arith, l))
little_endian-bound (b ∷ s) (suc n) h l =
    omega (arith, h.0, little_endian-bound s n h.1 (omega (arith, l)))

All-take : (n : ℕ) (s : Bytes) → All IsByte s → All IsByte (take n s)
All-take zero s h = tt
All-take (suc n) [] h = tt
All-take (suc n) (c ∷ s) h = (h.0, All-take n s h.1)

All-drop : (n : ℕ) (s : Bytes) → All IsByte s → All IsByte (drop n s)
All-drop zero s h = h
All-drop (suc n) [] h = tt
All-drop (suc n) (c ∷ s) h = All-drop n s h.1

length-take : (n : ℕ) (s : Bytes) → n ≤ length s → length (take n s) ≡ n
length-take zero s h = refl
length-take (suc n) [] h = absurd (omega (arith, h))
length-take (suc n) (c ∷ s) h = omega (arith, length-take n s (omega (arith, h)))

length-drop : (n : ℕ) (s : Bytes) → length (drop n s) ≡ length s - n
length-drop zero s = omega arith
length-drop (suc n) [] = omega arith
length-drop (suc n) (c ∷ s) = omega (arith, length-drop n s)

length-slice : (from n : ℕ) (s : Bytes) → from + n ≤ length s → length (slice from n s) ≡ n
length-slice from n s h = length-take n (drop from s) (omega (arith, h, length-drop from s))

slice-bound :
    (from n : ℕ) (s : Bytes)
    → All IsByte s
    → from + n ≤ length s
    → little_endian (slice from n s) < bytes_max n
slice-bound from n s h l =
    little_endian-bound (slice from n s) n (All-take n (drop from s) (All-drop from s h))
      (omega (arith, length-slice from n s l))

null_terminated-Clean :
    (s : Bytes) → (count 0 (null_terminated s) ≡ 0) × (length (null_terminated s) ≤ length s)
unfolding null_terminated
null_terminated-Clean [] = (refl, omega arith)
null_terminated-Clean (c ∷ s) = ground (arith, null_terminated-Clean s)

-- An event within the widths of its record.
pub record IsShaped (ev : Event) : Type 0 where
  pub pid : ev.pid < 2 ^ 32
  pub tgid : ev.tgid < 2 ^ 32
  pub dport : ev.dport < 2 ^ 16
  pub daddr : (length ev.daddr ≡ 4) ⊎ (length ev.daddr ≡ 16)
  pub comm : length ev.comm ≤ 16
  pub comm_text : count 0 ev.comm ≡ 0

event_of-IsShaped :
    (raw : Bytes) → All IsByte raw → event_size ≤ length raw → IsShaped (event_of raw)
unfolding event_of
event_of-IsShaped raw b l = record {
  pid = slice-bound 0 4 raw b (omega (arith, l));
  tgid = slice-bound 4 4 raw b (omega (arith, l));
  dport = slice-bound 8 2 raw b (omega (arith, l));
  daddr = elim (Bool-cases (little_endian (slice 10 2 raw) == af_inet6)) [
    | inl a ↦ rw a (inr (length-slice 12 16 raw (omega (arith, l))))
    | inr a ↦ rw a (inl (length-slice 12 4 raw (omega (arith, l))))
  ];
  comm = omega (
    arith,
    (null_terminated-Clean (slice 28 16 raw)).1,
    length-slice 28 16 raw (omega (arith, l)),
  );
  comm_text = (null_terminated-Clean (slice 28 16 raw)).0;
}

-- A record of bytes that parses gives 32-bit identifiers, a 16-bit port, an address of 4 or 16 bytes,
-- and a process name of at most 16 bytes without a null byte.
pub parse_event-IsShaped :
    (raw : Bytes) (ev : Event) → All IsByte raw → parse_event raw ≡ some ev → IsShaped ev
unfolding parse_event
parse_event-IsShaped raw ev b h =
    let same : event_of raw ≡ ev = ground arith in
    let l : event_size ≤ length raw = ground arith in rw (← same) (event_of-IsShaped raw b l)
