-- ===== src/Agent/Listed.antt =====
-- What the policy lists, as the engine decides it and as the kernel maps hold it.
use field_cage.Base.{
  ℕ, Bool, true, false, ◌||◌, ◌&&◌, List, [], ◌∷◌, none, some, All, any, map, length, ◌==◌, ◌≡◌,
  refl, sym, ap, ◌∙◌, arith, Bool-cases, Option-cases, inl, inr, ok,
}
use field_cage.Text.Bytes.{Bytes, equal}
use field_cage.Text.Equal.{equal_iff, cut_prefix_sound}
use field_cage.Text.Case.{Tables}
use field_cage.Net.Ip
use field_cage.Net.Ip.{Ip, to4, string4, mapped_prefix}
use field_cage.Net.Cidr.{IpNet, net_contains, number_matches, same_prefix}
use field_cage.Net.Dotted.{quad}
use field_cage.Net.Texts.{four-quad, string4-inj, string-foreign}
use field_cage.Policy.Engine.{Config, Engine, has_key, ip_keys}
use field_cage.Policy.Build.{new_engine}
use field_cage.Policy.Decide.{allows_ip, ips, cidrs}
use field_cage.Policy.Stored.{IsKeyed, IsWide, new_engine-IsStored}
use field_cage.Ebpf.Maps.{covers_key}
use field_cage.Ebpf.Permits.{is_under, is_same}
use field_cage.Agent.Agree.{four-to4, string-to4, some-filled, same-string}

to4-length : (ip ip4 : Ip) → to4 ip ≡ some ip4 → length ip4 ≡ 4
unfolding to4
to4-length ip ip4 h = elim (Bool-cases (length ip == 4)) [
  | inl e ↦ let same : ip ≡ ip4 = ground arith in ground (arith, ap length same)
  | inr e ↦ elim (Bool-cases (length ip == 16)) [
    | inr f ↦ absurd (ground arith)
    | inl f ↦
        let same = cut_prefix_sound mapped_prefix ip ip4 (rw (e, f, to4) at h) in
        ground (arith, ap length same)
  ]
]

same_prefix-equal :
    (a b c d e f g h : ℕ)
    → same_prefix 32 (quad a b c d) (quad e f g h) ≡ equal (quad a b c d) (quad e f g h)
unfolding same_prefix equal
same_prefix-equal a b c d e f g h = ground arith

abbrev has_form4 : Ip → Bool
has_form4 ip = elim (to4 ip) [ none ↦ false | some ip4 ↦ true ]

-- a network of IPv4-mapped addresses
abbrev pub is_mapped : IpNet → Bool
is_mapped n = n.bits == 128 && has_form4 n.ip

module _ (daddr : Ip) (wide : length daddr ≡ 4) where
  prefix-equal : (ip4 : Ip) → length ip4 ≡ 4 → same_prefix 32 ip4 daddr ≡ equal ip4 daddr
  prefix-equal ip4 l =
      let (a, b, c, d, p) = four-quad ip4 l in
      let (e, f, g, h, q) = four-quad daddr wide in rw (p, q) (same_prefix-equal a b c d e f g h)

  is_under-is_same : (ip : Ip) → is_under 32 ip daddr ≡ is_same ip daddr
  unfolding is_under is_same covers_key
  is_under-is_same ip = elim (Option-cases (to4 ip)) [
    | inl p ↦ rw (p, is_under, is_same) refl
    | inr (ip4, p) ↦ rw (p, is_under, is_same) (prefix-equal ip4 (to4-length ip ip4 p))
  ]

  daddr-string : Ip.string daddr ≡ Ip.string4 daddr
  daddr-string =
      let own = four-to4 daddr wide in string-to4 daddr daddr (some-filled daddr daddr own) own

  -- an address with the text of the destination is the destination
  string-same : (ip : Ip) → Ip.string ip ≡ Ip.string daddr → is_same ip daddr ≡ true
  unfolding is_same
  string-same ip h = elim (Option-cases (to4 ip)) [
    | inl p ↦
        let (a, b, c, d, q) = four-quad daddr wide in
        absurd (string-foreign ip a b c d p (h ∙ daddr-string ∙ ap Ip.string4 q))
    | inr (ip4, p) ↦
        let own = string-to4 ip ip4 (some-filled ip ip4 p) p in
        let same = string4-inj ip4 daddr (to4-length ip ip4 p) wide (sym own ∙ h ∙ daddr-string) in
        rw (p, is_same) ((equal_iff ip4 daddr).1 same)
  ]

  key-is_under :
      (k : Bytes) (ip : Ip) → k ≡ Ip.string ip → equal k (Ip.string daddr) ≡ is_under 32 ip daddr
  key-is_under k ip h =
      let text = Ip.string daddr in
      let there : is_same ip daddr ≡ true → k ≡ text = λ e. h ∙ same-string ip daddr wide e in
      let back : k ≡ text → is_same ip daddr ≡ true = λ e. string-same ip (sym h ∙ e) in
      ground (arith, is_under-is_same ip, equal_iff k text, there, back)

  keys-is_under :
      (m : List (Bytes × Ip))
      → All IsKeyed m
      → has_key (ip_keys m) (Ip.string daddr)
        ≡ any (λ ip. is_under 32 ip daddr) (map (λ (p : Bytes × Ip). p.1) m)
  unfolding has_key
  keys-is_under [] h = refl
  keys-is_under ((k, ip) ∷ m) h = ground (arith, key-is_under k ip h.0, keys-is_under m h.1)

  narrow-contains : (n : IpNet) → to4 n.ip ≡ none → net_contains n daddr ≡ false
  unfolding net_contains number_matches
  narrow-contains n p =
      let own = four-to4 daddr wide in
      rw (own, p, net_contains, number_matches) (ground (arith, four-to4 n.ip))

  wide-contains :
      (n : IpNet) (ip4 : Ip)
      → to4 n.ip ≡ some ip4
      → length ip4 ≡ 4
      → n.bits ≡ 32
      → net_contains n daddr ≡ same_prefix n.ones ip4 daddr
  unfolding net_contains number_matches
  wide-contains n ip4 p l b =
      let own = four-to4 daddr wide in rw (own, p, net_contains, number_matches) (ground arith)

  net-is_under :
      (n : IpNet)
      → IsWide n
      → is_mapped n ≡ false
      → net_contains n daddr ≡ is_under n.ones n.ip daddr
  unfolding is_under covers_key
  net-is_under n w h = elim (Option-cases (to4 n.ip)) [
    | inl p ↦ rw (p, is_under) (narrow-contains n p)
    | inr (ip4, p) ↦
        let formed : has_form4 n.ip ≡ true = rw (p, has_form4) refl in
        let native : n.bits ≡ 32 = ground (arith, w) in
        rw (p, is_under) (wide-contains n ip4 p (to4-length n.ip ip4 p) native)
  ]

  nets-is_under :
      (ns : List IpNet)
      → All IsWide ns
      → any is_mapped ns ≡ false
      → any (λ n. net_contains n daddr) ns ≡ any (λ (n : IpNet). is_under n.ones n.ip daddr) ns
  nets-is_under [] w h = refl
  nets-is_under (n ∷ ns) w h = ground (arith, net-is_under n w.0, nets-is_under ns w.1)

-- An engine that was built, and that holds no network of IPv4-mapped addresses, decides for an IPv4
-- address by itself as the kernel maps do that are seeded from its addresses and networks: one of its
-- addresses has the text of the destination, or one of its networks contains it, exactly when the
-- destination lies under the prefix that is written for one of them.
pub allows_ip-is_under :
    (t : Tables) (cfg : Config) (e : Engine) (daddr : Ip)
    → new_engine t cfg ≡ ok e
    → length daddr ≡ 4
    → any is_mapped (cidrs e) ≡ false
    → allows_ip e daddr ≡ (
        any (λ ip. is_under 32 ip daddr) (ips e)
        || any (λ (n : IpNet). is_under n.ones n.ip daddr) (cidrs e))
unfolding allows_ip
allows_ip-is_under t cfg e daddr built wide unmapped =
    let stored = new_engine-IsStored t cfg e built in
    let filled = some-filled daddr daddr (four-to4 daddr wide) in
    ground (
      arith,
      filled,
      keys-is_under daddr wide e.allowed_ip stored.keyed,
      nets-is_under daddr wide e.cidrs stored.wide unmapped,
    )
