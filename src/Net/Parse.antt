-- ===== src/Net/Parse.antt =====
-- netip.ParseAddr without zones, and net.ParseIP.
use field_cage.Base.{
  ℕ, zero, suc, ◌+◌, ◌-◌, ◌*◌, ◌/◌, ◌%◌, Bool, true, false, ◌||◌, ◌&&◌, not, [], ◌∷◌, ◌++◌, Option,
  none, some, ◌==◌, if◌then◌else◌, length, take, drop, replicate, leb, ltb,
}
use field_cage.Text.Bytes.{Bytes, has_byte, is_empty}
use field_cage.Text.Utf8.{within}
use field_cage.Net.Ip.{Ip, mapped_prefix}

-- parseIPv4Fields: `val` is the octet that is being read, `len` the number of its digits.
unfoldable pub fields4 : Bytes → ℕ → ℕ → Ip → Option Ip
fields4 [] val len done =
    if len == 0 || not (length done == 3) then none else some (done ++ val ∷ [])
fields4 (c ∷ s) val len done =
    let digit = within b'0' b'9' c in
    let next =
      fields4 s (if digit then val * 10 + (c - b'0') else 0) (if digit then len + 1 else 0)
        (if digit then done else done ++ val ∷ []) in
    if digit
    then (if (len == 1 && val == 0) || ltb 255 (val * 10 + (c - b'0')) then none else next)
    else if c == b'.'
    then (if len == 0 || length done == 3 then none else next)
    else none

unfoldable pub parse4 : Bytes → Option Ip
unfolding fields4
parse4 s = fields4 s 0 0 []

abbrev hex_digit : ℕ → Option ℕ
hex_digit c =
    if within b'0' b'9' c
    then some (c - b'0')
    else if within b'a' b'f' c
    then some (c - b'a' + 10)
    else if within b'A' b'F' c
    then some (c - b'A' + 10)
    else none

-- A group of a text: its value, the number of its digits, and the rest.
record Group : Type 0 where
  value : ℕ
  size : ℕ
  rest : Bytes

hex_run : Bytes → ℕ → ℕ → Option Group
hex_run [] acc off = some (record { value = acc; size = off; rest = [] })
hex_run (c ∷ s) acc off = elim (hex_digit c) [
  | none ↦ some (record { value = acc; size = off; rest = c ∷ s })
  | some d ↦ if ltb 3 off then none else hex_run s (acc * 16 + d) (off + 1)
]

-- What the loop of parseIPv6 leaves: the bytes, the place of `::`, and the unread text.
record State : Type 0 where
  bytes : Bytes
  ellipsis : Option ℕ
  unread : Bytes

abbrev starts_with : ℕ → Bytes → Bool
starts_with b [] = false
starts_with b (c ∷ s) = c == b

abbrev is_some {ℓ} : {A : Type ℓ} → Option A → Bool
is_some none = false
is_some (some a) = true

-- behind a group: the end, a colon and more, or `::`
after_colon : (Bytes → Option ℕ → Option State) → Bytes → Option ℕ → Bytes → Option State
after_colon again acc ell [] = some (record { bytes = acc; ellipsis = ell; unread = [] })
after_colon again acc ell (c ∷ []) = none
after_colon again acc ell (c ∷ d ∷ r) =
    if not (c == b':')
    then none
    else if d == b':'
    then (if is_some ell
        then none
        else if is_empty r
        then some (record { bytes = acc; ellipsis = some (length acc); unread = [] })
        else again r (some (length acc)))
    else again (d ∷ r) ell

after_group :
    (Bytes → Bytes → Option ℕ → Option State) → Bytes → Bytes → Option ℕ → Group → Option State
unfolding parse4 after_colon
after_group again s acc ell g =
    if g.size == 0
    then none
    else if starts_with b'.' g.rest
    then (if (not (is_some ell) && not (length acc == 12)) || ltb 16 (length acc + 4)
        then none
        else elim (parse4 s) [
          | none ↦ none
          | some q ↦ some (record { bytes = acc ++ q; ellipsis = ell; unread = [] })
        ])
    else (let acc' = acc ++ (g.value / 256) ∷ (g.value % 256) ∷ [] in
        after_colon (λ r e. again r acc' e) acc' ell g.rest)

-- the loop runs while there is room for a group, eight times at most
groups : ℕ → Bytes → Bytes → Option ℕ → Option State
unfolding hex_run after_group
groups zero s acc ell = some (record { bytes = acc; ellipsis = ell; unread = s })
groups (suc n) s acc ell = elim (hex_run s 0 0) [
  | none ↦ none
  | some g ↦ after_group (λ r a e. groups n r a e) s acc ell g
]

-- `::` stands for the zeros that are missing, at least one group
expand : State → Option Ip
expand t = if not (is_empty t.unread) then none else elim t.ellipsis [
  | none ↦ if length t.bytes == 16 then some t.bytes else none
  | some e ↦
      if leb 16 (length t.bytes)
      then none
      else some (take e t.bytes ++ (replicate (16 - length t.bytes) 0 ++ drop e t.bytes))
]

loop6 : Bytes → Option ℕ → Option Ip
unfolding groups expand
loop6 s ell = elim (groups 8 s [] ell) [ none ↦ none | some t ↦ expand t ]

abbrev leads_with_colons : Bytes → Bool
leads_with_colons (c ∷ d ∷ s) = c == b':' && d == b':'
leads_with_colons _ = false

unfoldable pub parse6 : Bytes → Option Ip
unfolding loop6
parse6 s =
    if leads_with_colons s
    then (if is_empty (drop 2 s) then some (replicate 16 0) else loop6 (drop 2 s) (some 0))
    else loop6 s none

-- A parsed address: its 16 bytes, and the bits of the form that it was written in.
pub record Addr : Type 0 where
  pub as16 : Ip
  pub bits : ℕ

-- the form is decided by the first dot or colon
unfoldable pub form : Bytes → Bytes → Option Addr
unfolding parse4 parse6
form whole [] = none
form whole (c ∷ s) =
    let rest = form whole s in
    if c == b'.'
    then elim (parse4 whole) [
      | none ↦ none
      | some ip ↦ some (record { as16 = mapped_prefix ++ ip; bits = 32 })
    ]
    else if c == b':'
    then elim (parse6 whole) [ none ↦ none | some ip ↦ some (record { as16 = ip; bits = 128 }) ]
    else rest

-- netip.ParseAddr; an address with a zone is refused by both callers
unfoldable pub parse_addr : Bytes → Option Addr
unfolding form
parse_addr s = if has_byte s b'%' then none else form s s

-- net.ParseIP: 16 bytes, also for IPv4; `none` is nil
unfoldable pub parse_ip : Bytes → Option Ip
unfolding parse_addr
parse_ip s = elim (parse_addr s) [ none ↦ none | some a ↦ some a.as16 ]
