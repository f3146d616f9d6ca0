-- ===== src/Net/Ip.antt =====
-- net.IP: a slice of 4 or 16 bytes, and `[]` for nil. To4, To16, IsLoopback and String.
pub mod Chars
use field_cage.Base.{
  ℕ, ◌+◌, ◌-◌, ◌*◌, ◌/◌, ◌%◌, Bool, false, ◌&&◌, List, [], ◌∷◌, ◌++◌, Option, none, some, ◌==◌,
  if◌then◌else◌, length, take, drop, map, flatten, leb, ltb,
}
use field_cage.Text.Bytes.{Bytes, codes, equal, is_empty, cut_prefix, join}
use field_cage.Text.Number.{decimal}

abbrev pub Ip : Type 0
Ip = Bytes

abbrev pub mapped_prefix : Bytes
mapped_prefix = 0 ∷ 0 ∷ 0 ∷ 0 ∷ 0 ∷ 0 ∷ 0 ∷ 0 ∷ 0 ∷ 0 ∷ 0xFF ∷ 0xFF ∷ []

abbrev pub loopback6 : Bytes
loopback6 = 0 ∷ 0 ∷ 0 ∷ 0 ∷ 0 ∷ 0 ∷ 0 ∷ 0 ∷ 0 ∷ 0 ∷ 0 ∷ 0 ∷ 0 ∷ 0 ∷ 0 ∷ 1 ∷ []

unfoldable pub to4 : Ip → Option Ip
unfolding cut_prefix
to4 ip =
    if length ip == 4
    then some ip
    else if length ip == 16
    then cut_prefix mapped_prefix ip
    else none

unfoldable pub to16 : Ip → Option Ip
to16 ip =
    if length ip == 4 then some (mapped_prefix ++ ip) else if length ip == 16 then some ip else none

-- the first octet of an IPv4 address
abbrev pub first_is : ℕ → Ip → Bool
first_is n [] = false
first_is n (a ∷ ip) = a == n

unfoldable pub is_loopback : Ip → Bool
unfolding to4 equal
is_loopback ip = elim (to4 ip) [ some ip4 ↦ first_is 127 ip4 | none ↦ equal ip loopback6 ]

abbrev hex_char : ℕ → ℕ
hex_char d = if ltb d 10 then b'0' + d else b'a' + (d - 10)

-- a 16-bit group in hexadecimal, with no leading zeros
pub hex_group : ℕ → Bytes
hex_group v =
    if ltb v 16
    then hex_char v ∷ []
    else if ltb v 256
    then hex_char (v / 16) ∷ hex_char (v % 16) ∷ []
    else if ltb v 4096
    then hex_char (v / 256) ∷ hex_char (v / 16 % 16) ∷ hex_char (v % 16) ∷ []
    else hex_char (v / 4096)
      ∷ hex_char (v / 256 % 16)
      ∷ hex_char (v / 16 % 16)
      ∷ hex_char (v % 16)
      ∷ []

unfoldable pub groups_of : Ip → List ℕ
groups_of (a ∷ b ∷ ip) = (a * 256 + b) ∷ groups_of ip
groups_of _ = []

pub leading_zeros : List ℕ → ℕ
leading_zeros [] = 0
leading_zeros (g ∷ gs) = let more = leading_zeros gs in if g == 0 then more + 1 else 0

-- The first of the longest runs of at least two zero groups, as its place and its length.
pub best_run : ℕ → List ℕ → ℕ → ℕ → ℕ × ℕ
unfolding leading_zeros
best_run i [] start len = (start, len)
best_run i (g ∷ gs) start len =
    let zs = leading_zeros (g ∷ gs) in
    let better = leb 2 zs && ltb len zs in
    best_run (i + 1) gs (if better then i else start) (if better then zs else len)

unfoldable pub string6 : Ip → Bytes
unfolding hex_group groups_of best_run join
string6 ip =
    let gs = groups_of ip in
    let run = best_run 0 gs 0 0 in
    if run.1 == 0
    then join (map hex_group gs) (codes ":")
    else join (map hex_group (take run.0 gs)) (codes ":")
      ++ (codes "::" ++ join (map hex_group (drop (run.0 + run.1) gs)) (codes ":"))

abbrev pub hex_byte : ℕ → Bytes
hex_byte v = hex_char (v / 16) ∷ hex_char (v % 16) ∷ []

abbrev pub hex_text : Bytes → Bytes
hex_text [] = []
hex_text (v ∷ ip) = hex_byte v ++ hex_text ip

unfoldable pub string4 : Ip → Bytes
unfolding decimal join
string4 ip = join (map decimal ip) (codes ".")

-- The canonical text of an address, and the key under which the program stores it.
unfoldable pub string : Ip → Bytes
unfolding to4 string4 string6
string ip = if is_empty ip then codes "<nil>" else elim (to4 ip) [
  | some ip4 ↦ string4 ip4
  | none ↦ if length ip == 16 then string6 ip else codes "?" ++ hex_text ip
]
