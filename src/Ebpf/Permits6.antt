-- ===== src/Ebpf/Permits6.antt =====
-- What each write to the enforcement maps makes the kernel permit of IPv6.
use field_cage.Base.{
  ℕ, Bool, true, false, ◌||◌, [], ◌∷◌, Option, none, some, ◌≡◌, refl, arith, Option-cases, inl, inr,
}
use field_cage.Text.Bytes.{Bytes, equal, is_empty, cut_prefix}
use field_cage.Net.Ip.{Ip, to4, to16, mapped_prefix, loopback6}
use field_cage.Net.Cidr.{IpNet}
use field_cage.Ebpf.Maps.{KernelMaps, BlockMaps, LpmKey, covers_key}
use field_cage.Ebpf.Kernel.{check_native6, check_ipv6}
use field_cage.Ebpf.Watcher.{Block, put_address, with_ips, with_ips6, allow_ip, allow_cidr}

-- an IPv6 destination under the first `len` bits of an address that is not an IPv4 address
unfoldable pub is_under6 : ℕ → Ip → Bytes → Bool
is_under6 len ip daddr = elim (to4 ip) [
  | some ip4 ↦ false
  | none ↦ elim (to16 ip) [
    | none ↦ false
    | some ip16 ↦ covers_key (record { prefixlen = len; addr = ip16 }) daddr
  ]
]

-- an IPv6 destination that is an address, which is not an IPv4 address
unfoldable pub is_same6 : Ip → Bytes → Bool
is_same6 ip daddr = elim (to4 ip) [
  | some ip4 ↦ false
  | none ↦ elim (to16 ip) [ none ↦ false | some ip16 ↦ equal ip16 daddr ]
]

module _ (lib : KernelMaps) where
  abbrev pub permits6 : Block lib → Bytes → ℕ → Bool
  permits6 none daddr dport = true
  permits6 (some m) daddr dport = check_ipv6 lib m daddr dport

  module _ (daddr : Bytes) (dport : ℕ) (native : cut_prefix mapped_prefix daddr ≡ none) where
    pub native-check :
        (m : BlockMaps lib)
        → check_ipv6 lib m daddr dport ≡ (equal daddr loopback6 || check_native6 lib m daddr dport)
    unfolding check_ipv6
    native-check m = rw (native, check_ipv6) (ground arith)

    abbrev Opens6 : Block lib → Block lib → Bool → Type 0
    Opens6 b b' c = permits6 b' daddr dport ≡ (permits6 b daddr dport || c)

    with_ips-Opens6 :
        (m : BlockMaps lib) (b' : Block lib) (x : Option (KernelMaps.Trie lib))
        → with_ips lib m x ≡ some b'
        → Opens6 (some m) b' false
    unfolding check_native6
    with_ips-Opens6 m b' none h = absurd (ground arith)
    with_ips-Opens6 m b' (some u) h =
        let now = record m { allowed_ips = u } in
        let same : some now ≡ b' = ground arith in
        rw (← same) (ground (arith, native-check m, native-check now))

    with_ips6-Opens6 :
        (m : BlockMaps lib) (b' : Block lib) (k : LpmKey) (x : Option (KernelMaps.Trie lib))
        → lib.put_prefix 128 k m.allowed_ips6 ≡ x
        → with_ips6 lib m x ≡ some b'
        → Opens6 (some m) b' (covers_key k daddr)
    unfolding check_native6
    with_ips6-Opens6 m b' k none e h = absurd (ground arith)
    with_ips6-Opens6 m b' k (some u) e h =
        let now = record m { allowed_ips6 = u } in
        let same : some now ≡ b' = ground arith in
        rw (← same) (
          ground (
            arith,
            native-check m,
            native-check now,
            lib.has_prefix_of-put_prefix 128 k m.allowed_ips6 u daddr e,
          ))

    put_address-Opens6 :
        (m : BlockMaps lib) (b' : Block lib) (ip : Ip) (len4 len6 : ℕ)
        → put_address lib m ip len4 len6 ≡ some b'
        → Opens6 (some m) b' (is_under6 len6 ip daddr)
    unfolding put_address is_under6
    put_address-Opens6 m b' ip len4 len6 h = elim (Option-cases (to4 ip)) [
      | inr (ip4, p) ↦
          let k : LpmKey = record { prefixlen = len4; addr = ip4 } in
          rw (p, is_under6)
            (with_ips-Opens6 m b' (lib.put_prefix 32 k m.allowed_ips) (rw (p, put_address) at h))
      | inl p ↦ elim (Option-cases (to16 ip)) [
        | inr (ip16, q) ↦
            let k : LpmKey = record { prefixlen = len6; addr = ip16 } in
            rw (p, q, is_under6)
              (with_ips6-Opens6 m b' k (lib.put_prefix 128 k m.allowed_ips6) refl
                (rw (p, q, put_address) at h))
        | inl q ↦
            let same : some m ≡ b' = ground arith in
            rw (p, q, is_under6) (rw (← same) (ground arith))
      ]
    ]

    -- no address is a slice without bytes
    nil-is_under6 : (len : ℕ) (ip : Ip) → is_empty ip ≡ true → is_under6 len ip daddr ≡ false
    unfolding is_under6 to4 to16
    nil-is_under6 len [] h = refl
    nil-is_under6 len (c ∷ ip) h = absurd (ground arith)

    pub allow_ip-Opens6 :
        (b b' : Block lib) (ip : Ip)
        → allow_ip lib b ip ≡ some b'
        → Opens6 b b' (is_under6 128 ip daddr)
    unfolding allow_ip
    allow_ip-Opens6 none b' ip h = ground arith
    allow_ip-Opens6 (some m) b' ip h =
        ground (arith, nil-is_under6 128 ip, put_address-Opens6 m b' ip 32 128)

    pub allow_cidr-Opens6 :
        (b b' : Block lib) (n : IpNet)
        → allow_cidr lib b n ≡ some b'
        → Opens6 b b' (is_under6 n.ones n.ip daddr)
    unfolding allow_cidr
    allow_cidr-Opens6 none b' n h = ground arith
    allow_cidr-Opens6 (some m) b' n h = put_address-Opens6 m b' n.ip n.ones n.ones h
