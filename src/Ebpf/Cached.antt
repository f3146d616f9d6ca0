-- ===== src/Ebpf/Cached.antt =====
-- What the DNS cache answers after a response.
use field_cage.Base.{
  Bool, List, [], ◌∷◌, if◌then◌else◌, any, ◌≡◌, refl, arith, Option-cases, Bool-cases, inl, inr,
}
use field_cage.Text.Bytes.{Bytes, equal}
use field_cage.Text.Equal.{equal_iff}
use field_cage.Net.Ip.{Ip, string}
use field_cage.Ebpf.Maps.{KernelMaps}
use field_cage.Ebpf.Watcher.{allow_ip}
use field_cage.Ebpf.Cache.{DnsCache, entry, put_entry, lookup, set}
use field_cage.Ebpf.Dns.{State, record_ip, record_ips}

entry-put_entry :
    (j k v : Bytes) (c : DnsCache)
    → entry (put_entry k v c) j ≡ (if equal k j then v else entry c j)
unfolding entry put_entry
entry-put_entry j k v [] = ground arith
entry-put_entry j k v ((i, w) ∷ c) =
    ground (arith, equal_iff i k, equal_iff i j, equal_iff k j, entry-put_entry j k v c)

pub lookup-set :
    (c : DnsCache) (ip jp : Ip) (domain : Bytes)
    → lookup (set c ip domain) jp ≡ (if equal (string ip) (string jp) then domain else lookup c jp)
unfolding lookup set
lookup-set c ip jp domain = entry-put_entry (string jp) (string ip) domain c

module _ (lib : KernelMaps) (allow_domain : Bool) (domain : Bytes) where
  cache-record_ip :
      (s : State lib) (ip : Ip)
      → (record_ip lib allow_domain domain s ip).cache ≡ set s.cache ip domain
  unfolding record_ip
  cache-record_ip s ip = elim (Bool-cases allow_domain) [
    | inr a ↦ rw a refl
    | inl a ↦ elim (Option-cases (allow_ip lib s.block ip)) [
      | inl p ↦ rw (a, p) refl
      | inr (b, p) ↦ rw (a, p) refl
    ]
  ]

  -- After a response the cache names its domain for each of its addresses, in whatever form it is
  -- looked up, and what it answers for any other address is unchanged.
  pub lookup-record_ips :
      (s : State lib) (ips : List Ip) (jp : Ip)
      → lookup (record_ips lib allow_domain domain s ips).cache jp
        ≡ (if any (λ ip. equal (string ip) (string jp)) ips then domain else lookup s.cache jp)
  unfolding record_ips
  lookup-record_ips s [] jp = refl
  lookup-record_ips s (ip ∷ ips) jp =
      let next = record_ip lib allow_domain domain s ip in
      ground (
        arith,
        lookup-record_ips next ips jp,
        cache-record_ip s ip,
        lookup-set s.cache ip jp domain,
      )
