-- ===== src/Ebpf/Kernel.antt =====
-- The enforcement programs of internal/ebpf/bpf/block.c. Addresses are the bytes in network order,
-- and ports are in host order.
use field_cage.Base.{ℕ, Bool, true, ◌||◌, ◌&&◌, none, some, ◌==◌, if◌then◌else◌}
use field_cage.Text.Bytes.{Bytes, equal, cut_prefix}
use field_cage.Net.Ip.{first_is, mapped_prefix, loopback6}
use field_cage.Ebpf.Maps.{KernelMaps, BlockMaps}

module _ (lib : KernelMaps) where
  open lib use {has_prefix_of, has_member, slot_is_set}

  unfoldable pub check_ipv4 : BlockMaps lib → Bytes → ℕ → Bool
  check_ipv4 m daddr dport =
      if first_is 127 daddr
      then true
      else if dport == 53 && (slot_is_set m.config || has_member m.dns_resolvers daddr)
      then true
      else has_prefix_of m.allowed_ips daddr

  unfoldable pub check_native6 : BlockMaps lib → Bytes → ℕ → Bool
  check_native6 m daddr dport =
      if dport == 53 && (slot_is_set m.config || has_member m.dns_resolvers6 daddr)
      then true
      else has_prefix_of m.allowed_ips6 daddr

  -- an IPv4-mapped destination is judged by the IPv4 maps
  unfoldable pub check_ipv6 : BlockMaps lib → Bytes → ℕ → Bool
  check_ipv6 m daddr dport =
      if equal daddr loopback6 then true else elim (cut_prefix mapped_prefix daddr) [
        | some daddr4 ↦ check_ipv4 m daddr4 dport
        | none ↦ check_native6 m daddr dport
      ]
