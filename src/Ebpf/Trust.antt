-- ===== src/Ebpf/Trust.antt =====
-- Which responses extend the allowlist.
use field_cage.Base.{
  ℕ, Bool, true, false, ◌||◌, List, [], ◌∷◌, ◌==◌, ltb, any, Any, length, ◌-◌, some, ◌≡◌, ◌⊎◌,
  arith, Option-cases, Bool-cases, inl, inr,
}
use field_cage.Text.Bytes.{Bytes, is_empty}
use field_cage.Net.Ip.{Ip}
use field_cage.Ebpf.Maps.{KernelMaps}
use field_cage.Ebpf.Watcher.{Block, allow_ip}
use field_cage.Ebpf.Event.{little_endian, slice}
use field_cage.Ebpf.Resolvers.{is_trusted_source}
use field_cage.Ebpf.Dns.{
  Parser, Response, Watch, State, accepts, parse_dns_response, record_ip, record_ips, may_allow,
  on_response, observe, run,
}
use field_cage.Ebpf.Permits.{is_under, permits, allow_ip-Opens}

-- A record justifies a destination, of which `host` says whether an address is it: the record comes
-- from a trusted source, which is a nameserver of the host or a loopback address, and the policy allows
-- the domain that its payload answers with such an address.
pub record Justifies (dns : Parser) (w : Watch) (host : Ip → Bool) (raw : Bytes) : Type 0 where
  pub trusted : is_trusted_source (slice 4 4 raw) w.trusted ≡ true
  pub allowed :
      accepts w.is_allowed
        (parse_dns_response dns (slice 8 (little_endian (slice 0 4 raw)) raw)).domain
      ≡ true
  pub answered :
      any host (parse_dns_response dns (slice 8 (little_endian (slice 0 4 raw)) raw)).ips ≡ true

module _ (lib : KernelMaps) (opens : Block lib → Bool) (host : Ip → Bool)
    (law : (b b' : Block lib) (ip : Ip)
      → allow_ip lib b ip ≡ some b'
      → opens b' ≡ (opens b || host ip)) where
  abbrev open_in : State lib → Bool
  open_in s = opens s.block

  pub record_ip-open :
      (may : Bool) (domain : Bytes) (s : State lib) (ip : Ip)
      → open_in (record_ip lib may domain s ip) ≡ true
      → (open_in s ≡ true) ⊎ ((may ≡ true) × (host ip ≡ true))
  unfolding record_ip
  record_ip-open false domain s ip h = inl h
  record_ip-open true domain s ip h = elim (Option-cases (allow_ip lib s.block ip)) [
    | inl p ↦ inl (rw (p, record_ip) at h)
    | inr (b, p) ↦
        let now : opens b ≡ true = rw (p, record_ip) at h in ground (arith, law s.block b ip p)
  ]

  record_ips-open :
      (may : Bool) (domain : Bytes) (ips : List Ip) (s : State lib)
      → open_in (record_ips lib may domain s ips) ≡ true
      → (open_in s ≡ true) ⊎ ((may ≡ true) × (any host ips ≡ true))
  unfolding record_ips
  record_ips-open may domain [] s h = inl h
  record_ips-open may domain (ip ∷ ips) s h =
      elim (record_ips-open may domain ips (record_ip lib may domain s ip) h) [
        | inr (m, a) ↦ inr (m, ground arith)
        | inl now ↦ elim (record_ip-open may domain s ip now) [
          | inl before ↦ inl before
          | inr (m, a) ↦ inr (m, ground arith)
        ]
      ]

  module _ (dns : Parser) (w : Watch) where
    on_response-open :
        (s : State lib) (src : Ip) (r : Response)
        → open_in (on_response lib w s src r) ≡ true
        → (open_in s ≡ true) ⊎ ((may_allow lib w s src r.domain ≡ true) × (any host r.ips ≡ true))
    unfolding on_response
    on_response-open s src r h = elim (Bool-cases (is_empty r.domain)) [
      | inl e ↦ inl (rw e at h)
      | inr e ↦ record_ips-open (may_allow lib w s src r.domain) r.domain r.ips s (rw e at h)
    ]

    observe-open :
        (s : State lib) (raw : Bytes)
        → open_in (observe lib dns w s raw) ≡ true
        → (open_in s ≡ true) ⊎ Justifies dns w host raw
    unfolding observe may_allow
    observe-open s raw h =
        let size = little_endian (slice 0 4 raw) in
        elim (Bool-cases (ltb (length raw) 8)) [
          | inl a ↦ inl (rw a at h)
          | inr a ↦ elim (Bool-cases (size == 0 || ltb (length raw - 8) size)) [
            | inl b ↦ inl (rw (a, b) at h)
            | inr b ↦
                elim (on_response-open s (slice 4 4 raw) (parse_dns_response dns (slice 8 size raw))
                  (rw (a, b) at h)) [
                    | inl old ↦ inl old
                    | inr (m, found) ↦ inr (record {
                      trusted = ground arith;
                      allowed = ground arith;
                      answered = found;
                    })
                  ]
          ]
        ]

    run-opened :
        (s : State lib) (raws : List Bytes)
        → open_in (run lib dns w s raws) ≡ true
        → (open_in s ≡ true) ⊎ Any (Justifies dns w host) raws
    unfolding run
    run-opened s [] h = inl h
    run-opened s (raw ∷ raws) h = elim (run-opened (observe lib dns w s raw) raws h) [
      | inr later ↦ inr (inr later)
      | inl now ↦ elim (observe-open s raw now) [
        | inl before ↦ inl before
        | inr here ↦ inr (inl here)
      ]
    ]

-- Whatever records the DNS watcher reads, an IPv4 destination that the kernel's IPv4 check permits
-- after them was permitted before, or one of the records justifies it: it came from a nameserver of
-- the host or from a loopback address, and its payload answers a domain that the policy allows with
-- this address.
pub run-justified :
    (lib : KernelMaps) (daddr : Bytes) (dport : ℕ) (dns : Parser) (w : Watch) (s : State lib)
    (raws : List Bytes)
    → permits lib (run lib dns w s raws).block daddr dport ≡ true
    → (permits lib s.block daddr dport ≡ true)
      ⊎ Any (Justifies dns w (λ ip. is_under 32 ip daddr)) raws
run-justified lib daddr dport dns w s raws h =
    run-opened lib (λ b. permits lib b daddr dport) (λ ip. is_under 32 ip daddr)
      (allow_ip-Opens lib daddr dport) dns w s raws h
