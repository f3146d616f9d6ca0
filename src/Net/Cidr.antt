-- ===== src/Net/Cidr.antt =====
-- net.IPNet with the masks that net.ParseCIDR builds: ParseCIDR, Contains and Mask.Size.
use field_cage.Base.{
  ℕ, ◌-◌, ◌*◌, ◌/◌, ◌^◌, Bool, true, false, ◌&&◌, [], ◌∷◌, Option, none, some, ◌==◌, if◌then◌else◌,
  length, drop, leb, min,
}
use field_cage.Text.Bytes.{Bytes, codes, cut_first}
use field_cage.Text.Number.{digits_value}
use field_cage.Net.Ip.{Ip, to4}
use field_cage.Net.Parse.{parse_addr}

-- A network: its masked address, and its mask as a prefix of `ones` bits out of `bits`.
pub record IpNet : Type 0 where
  pub ip : Ip
  pub ones : ℕ
  pub bits : ℕ

-- a byte under a mask of `n` leading ones, for `n` up to 8
abbrev pub mask_byte : ℕ → ℕ → ℕ
mask_byte n b = b / 2 ^ (8 - n) * 2 ^ (8 - n)

-- an address under a mask of `n` leading ones
pub mask_ip : ℕ → Ip → Ip
mask_ip n [] = []
mask_ip n (b ∷ ip) = mask_byte (min n 8) b ∷ mask_ip (n - 8) ip

-- Two addresses agree under a mask of `n` leading ones.
unfoldable pub same_prefix : ℕ → Ip → Ip → Bool
same_prefix n [] [] = true
same_prefix n [] (y ∷ ys) = false
same_prefix n (x ∷ xs) [] = false
same_prefix n (x ∷ xs) (y ∷ ys) =
    mask_byte (min n 8) x == mask_byte (min n 8) y && same_prefix (n - 8) xs ys

abbrev pub or_self : Ip → Option Ip → Ip
or_self ip none = ip
or_self ip (some ip4) = ip4

-- the first 12 bytes of a 16-byte mask are passed over at an IPv4 address
unfoldable pub number_matches : IpNet → Ip → Bool
unfolding same_prefix
number_matches n ip =
    let number = or_self n.ip (to4 n.ip) in
    if length number == length ip
    then (if n.bits == 128 && length number == 4
        then same_prefix (n.ones - 96) number ip
        else if n.bits == 8 * length number
        then same_prefix n.ones number ip
        else false)
    else false

-- IPNet.Contains
unfoldable pub net_contains : IpNet → Ip → Bool
unfolding number_matches to4
net_contains n ip = number_matches n (or_self ip (to4 ip))

-- the prefix length behind the slash, up to `max`; it is one to seven digits
unfoldable pub prefix_length : ℕ → Bytes → Option ℕ
unfolding digits_value
prefix_length max [] = none
prefix_length max (c ∷ s) = elim (digits_value 0xFFFFFF (c ∷ s) 0) [
  | none ↦ none
  | some n ↦ if leb n max then some n else none
]

-- an address under a mask of the given width; a mask of 32 bits reads a mapped address as IPv4
pub masked : ℕ → ℕ → Ip → Ip
unfolding mask_ip
masked ones bits as16 = if bits == 32 then mask_ip ones (drop 12 as16) else mask_ip ones as16

-- net.ParseCIDR, its network
unfoldable pub parse_cidr : Bytes → Option IpNet
unfolding cut_first parse_addr prefix_length masked
parse_cidr s = elim (cut_first (codes "/") s) [
  | none ↦ none
  | some p ↦ elim (parse_addr p.0) [
    | none ↦ none
    | some a ↦ elim (prefix_length a.bits p.1) [
      | none ↦ none
      | some n ↦ some (record { ip = masked n a.bits a.as16; ones = n; bits = a.bits })
    ]
  ]
]
