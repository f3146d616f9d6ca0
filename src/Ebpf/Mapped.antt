-- ===== src/Ebpf/Mapped.antt =====
-- Networks of IPv4-mapped addresses.
use field_cage.Base.{◌-◌, ◌<◌, none, some, length, ◌≡◌, refl, arith}
use field_cage.Net.Ip.{Ip, to4}
use field_cage.Net.Cidr.{IpNet, net_contains, number_matches, same_prefix}
use field_cage.Ebpf.Maps.{KernelMaps, BlockMaps, LpmKey}
use field_cage.Ebpf.Watcher.{allow_cidr, put_address}

-- the policy judges such a network as the IPv4 network that it maps
pub mapped-contains :
    (n : IpNet) (ip4 daddr : Ip)
    → n.bits ≡ 128
    → to4 n.ip ≡ some ip4
    → length ip4 ≡ 4
    → length daddr ≡ 4
    → net_contains n daddr ≡ same_prefix (n.ones - 96) ip4 daddr
unfolding net_contains number_matches
mapped-contains n ip4 daddr b p w v =
    let q : to4 daddr ≡ some daddr = unfold to4 in ground arith in
    rw (p, q, net_contains, number_matches) (ground arith)

-- but the write of its prefix, longer than 32 bits, is refused
pub mapped-refused :
    (lib : KernelMaps) (m : BlockMaps lib) (n : IpNet) (ip4 : Ip)
    → to4 n.ip ≡ some ip4
    → 32 < n.ones
    → allow_cidr lib (some m) n ≡ none
unfolding allow_cidr put_address
mapped-refused lib m n ip4 p h =
    let k : LpmKey = record { prefixlen = n.ones; addr = ip4 } in
    rw (p, allow_cidr, put_address)
      (rw (lib.put_prefix_refuses 32 k m.allowed_ips (ground arith)) refl)
