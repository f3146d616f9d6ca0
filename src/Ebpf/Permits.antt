-- ===== src/Ebpf/Permits.antt =====
-- What each write to the enforcement maps makes the kernel permit.
use field_cage.Base.{
  ℕ, Bool, true, false, ◌||◌, [], ◌∷◌, Option, none, some, ◌≡◌, refl, arith, Option-cases, inl, inr,
}
use field_cage.Text.Bytes.{Bytes, equal, is_empty}
use field_cage.Net.Ip.{Ip, to4, to16}
use field_cage.Net.Cidr.{IpNet}
use field_cage.Ebpf.Maps.{KernelMaps, BlockMaps, LpmKey, covers_key}
use field_cage.Ebpf.Kernel.{check_ipv4}
use field_cage.Ebpf.Watcher.{Block, put_address, with_ips, with_ips6, allow_ip, allow_cidr}

-- an IPv4 destination under the first `len` bits of an address
unfoldable pub is_under : ℕ → Ip → Bytes → Bool
is_under len ip daddr = elim (to4 ip) [
  | none ↦ false
  | some ip4 ↦ covers_key (record { prefixlen = len; addr = ip4 }) daddr
]

-- an IPv4 destination that is an address
unfoldable pub is_same : Ip → Bytes → Bool
is_same ip daddr = elim (to4 ip) [ none ↦ false | some ip4 ↦ equal ip4 daddr ]

module _ (lib : KernelMaps) where
  -- whether a connection goes through: without maps nothing is enforced
  abbrev pub permits : Block lib → Bytes → ℕ → Bool
  permits none daddr dport = true
  permits (some m) daddr dport = check_ipv4 lib m daddr dport

  module _ (daddr : Bytes) (dport : ℕ) where
    -- the new maps permit what the old ones permit, and what `c` says
    abbrev pub Opens : Block lib → Block lib → Bool → Type 0
    Opens b b' c = permits b' daddr dport ≡ (permits b daddr dport || c)

    with_ips-Opens :
        (m : BlockMaps lib) (b' : Block lib) (k : LpmKey) (x : Option (KernelMaps.Trie lib))
        → lib.put_prefix 32 k m.allowed_ips ≡ x
        → with_ips lib m x ≡ some b'
        → Opens (some m) b' (covers_key k daddr)
    unfolding check_ipv4
    with_ips-Opens m b' k none e h = absurd (ground arith)
    with_ips-Opens m b' k (some u) e h =
        let same : some (record m { allowed_ips = u }) ≡ b' = ground arith in
        rw (← same) (ground (arith, lib.has_prefix_of-put_prefix 32 k m.allowed_ips u daddr e))

    with_ips6-Opens :
        (m : BlockMaps lib) (b' : Block lib) (x : Option (KernelMaps.Trie lib))
        → with_ips6 lib m x ≡ some b'
        → Opens (some m) b' false
    unfolding check_ipv4
    with_ips6-Opens m b' none h = absurd (ground arith)
    with_ips6-Opens m b' (some u) h =
        let same : some (record m { allowed_ips6 = u }) ≡ b' = ground arith in
        rw (← same) (ground arith)

    put_address-Opens :
        (m : BlockMaps lib) (b' : Block lib) (ip : Ip) (len4 len6 : ℕ)
        → put_address lib m ip len4 len6 ≡ some b'
        → Opens (some m) b' (is_under len4 ip daddr)
    unfolding put_address is_under
    put_address-Opens m b' ip len4 len6 h = elim (Option-cases (to4 ip)) [
      | inr (ip4, p) ↦
          let k : LpmKey = record { prefixlen = len4; addr = ip4 } in
          rw (p, is_under)
            (with_ips-Opens m b' k (lib.put_prefix 32 k m.allowed_ips) refl
              (rw (p, put_address) at h))
      | inl p ↦ elim (Option-cases (to16 ip)) [
        | inr (ip16, q) ↦
            let k : LpmKey = record { prefixlen = len6; addr = ip16 } in
            rw (p, is_under)
              (with_ips6-Opens m b' (lib.put_prefix 128 k m.allowed_ips6)
                (rw (p, q, put_address) at h))
        | inl q ↦ ground arith
      ]
    ]

    -- no address is a slice without bytes
    nil-is_under : (len : ℕ) (ip : Ip) → is_empty ip ≡ true → is_under len ip daddr ≡ false
    unfolding is_under to4
    nil-is_under len [] h = refl
    nil-is_under len (c ∷ ip) h = absurd (ground arith)

    pub allow_ip-Opens :
        (b b' : Block lib) (ip : Ip)
        → allow_ip lib b ip ≡ some b'
        → Opens b b' (is_under 32 ip daddr)
    unfolding allow_ip
    allow_ip-Opens none b' ip h = ground arith
    allow_ip-Opens (some m) b' ip h =
        ground (arith, nil-is_under 32 ip, put_address-Opens m b' ip 32 128)

    pub allow_cidr-Opens :
        (b b' : Block lib) (n : IpNet)
        → allow_cidr lib b n ≡ some b'
        → Opens b b' (is_under n.ones n.ip daddr)
    unfolding allow_cidr
    allow_cidr-Opens none b' n h = ground arith
    allow_cidr-Opens (some m) b' n h = put_address-Opens m b' n.ip n.ones n.ones h
