-- ===== src/Agent/Agree.antt =====
-- The kernel's DNS rule and the verdict of the agent.
use field_cage.Base.{
  ℕ, true, false, ◌||◌, List, [], ◌∷◌, Option, some, any, map, length, ◌≡◌, ◌⊎◌, refl, sym, ap, ◌∙◌,
  arith, Option-cases, Bool-cases, inl, inr,
}
use field_cage.Text.Bytes.{Bytes, is_empty}
use field_cage.Text.Equal.{equal_iff}
use field_cage.Net.Ip
use field_cage.Net.Ip.{Ip, to4, first_is, is_loopback}
use field_cage.Policy.Engine.{Engine, has_key}
use field_cage.Ebpf.Maps.{KernelMaps, BlockMaps}
use field_cage.Ebpf.Watcher.{seed_resolvers}
use field_cage.Ebpf.Permits.{is_same, permits}
use field_cage.Ebpf.Seeded.{is_seeded, seed_resolvers-Extends}
use field_cage.Report.Verdict.{Allower, skip_dns, verdict_for}
use field_cage.Agent.Exempt.{is_resolver, dns_exempt_for}
use field_cage.Agent.Seed.{seed_allowlist}
use field_cage.Agent.Enforce.{seed_allowlist-permits}

pub string-to4 :
    (ip ip4 : Ip) → is_empty ip ≡ false → to4 ip ≡ some ip4 → Ip.string ip ≡ Ip.string4 ip4
unfolding Ip.string
string-to4 ip ip4 e p = rw (e, p, Ip.string) refl

pub four-to4 : (ip : Ip) → length ip ≡ 4 → to4 ip ≡ some ip
unfolding to4
four-to4 ip h = ground arith

pub some-filled : (ip ip4 : Ip) → to4 ip ≡ some ip4 → is_empty ip ≡ false
unfolding to4
some-filled [] ip4 h = absurd (ground arith)
some-filled (c ∷ ip) ip4 h = refl

-- the text of an address depends on its IPv4 form alone
pub same-string :
    (ip daddr : Ip) → length daddr ≡ 4 → is_same ip daddr ≡ true → Ip.string ip ≡ Ip.string daddr
unfolding is_same
same-string ip daddr w h = elim (Option-cases (to4 ip)) [
  | inl p ↦ absurd (ground arith)
  | inr (ip4, p) ↦
      let same : ip4 ≡ daddr = ground (arith, equal_iff ip4 daddr) in
      let own = four-to4 daddr w in
      string-to4 ip ip4 (some-filled ip ip4 p) p
      ∙ ap Ip.string4 same
      ∙ sym (string-to4 daddr daddr (some-filled daddr daddr own) own)
]

seeded-has_key :
    (ips : List Ip) (daddr : Ip)
    → length daddr ≡ 4
    → any (is_seeded daddr) ips ≡ true
    → has_key (map Ip.string ips) (Ip.string daddr) ≡ true
unfolding has_key is_seeded
seeded-has_key [] daddr w h = absurd (ground arith)
seeded-has_key (ip ∷ ips) daddr w h = ground (
  arith,
  same-string ip daddr w,
  equal_iff (Ip.string ip) (Ip.string daddr),
  seeded-has_key ips daddr w,
)

-- an exempt DNS destination
exempt-skip :
    (e : Engine) (resolvers : List Ip) (daddr : Ip) (domain : Bytes) (allower : Allower)
    → length daddr ≡ 4
    → (e.allow_all_dns || any (is_seeded daddr) resolvers) ≡ true
    → verdict_for 53 daddr domain allower (dns_exempt_for (some e) resolvers) ≡ skip_dns
unfolding verdict_for dns_exempt_for is_resolver
exempt-skip e resolvers [] domain allower w h = absurd (ground arith)
exempt-skip e resolvers (c ∷ daddr) domain allower w h =
    ground (arith, seeded-has_key resolvers (c ∷ daddr) w)

module _ (lib : KernelMaps) where
  -- When the resolvers and the allowlist of the policy are seeded without a failure into maps that
  -- hold no resolver, a DNS connection to an IPv4 address that the kernel permits is reported as
  -- `SKIP(dns)`, or the kernel permits it for another reason than its DNS rule: then it permits every
  -- port of the address.
  pub permitted_dns-skip :
      (m : BlockMaps lib) (resolvers : List Ip) (resolve : Bytes → Option (List Ip)) (e : Engine)
      (daddr : Ip) (domain : Bytes) (allower : Allower) (dport : ℕ)
      → length daddr ≡ 4
      → lib.has_member m.dns_resolvers daddr ≡ false
      → (seed_resolvers lib (some m) resolvers).failed ≡ []
      → (seed_allowlist lib resolve e (seed_resolvers lib (some m) resolvers).state).warnings ≡ []
      → permits lib
          (seed_allowlist lib resolve e (seed_resolvers lib (some m) resolvers).state).block
          daddr
          53
        ≡ true
      → (verdict_for 53 daddr domain allower (dns_exempt_for (some e) resolvers) ≡ skip_dns)
        ⊎ (permits lib
              (seed_allowlist lib resolve e (seed_resolvers lib (some m) resolvers).state).block
              daddr
              dport
            ≡ true)
  permitted_dns-skip m resolvers resolve e daddr domain allower dport w fresh sown quiet h =
      let (m', is_some, more) = seed_resolvers-Extends lib daddr m resolvers sown in
      let quiet' = rw is_some at quiet in
      let h' = rw is_some at h in
      elim (Bool-cases (e.allow_all_dns || any (is_seeded daddr) resolvers)) [
        | inl a ↦ inl (exempt-skip e resolvers daddr domain allower w a)
        | inr a ↦ inr (
            rw is_some (
              ground (
                arith,
                more.members,
                seed_allowlist-permits lib daddr 53 resolve e m' quiet',
                seed_allowlist-permits lib daddr dport resolve e m' quiet',
              )))
      ]
