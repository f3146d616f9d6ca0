-- ===== src/Agent/Complete.antt =====
-- What the agent has opened when it has nothing left to write, whatever its parts did in between.
use field_cage.Base.{
  ◌-◌, Bool, true, false, ◌||◌, List, [], ◌∷◌, Option, none, some, ◌==◌, ltb, length, ◌≡◌, ◌⊎◌,
  refl, arith, Option-cases, inl, inr,
}
use field_cage.Text.Bytes.{Bytes, is_empty}
use field_cage.Net.Ip.{Ip}
use field_cage.Ebpf.Maps.{KernelMaps}
use field_cage.Ebpf.Watcher.{Block, allow_ip, set_allow_all_dns}
use field_cage.Ebpf.Event.{little_endian, slice}
use field_cage.Ebpf.Dns
use field_cage.Ebpf.Dns.{Parser, parse_dns_response, may_allow}
use field_cage.Ebpf.Trust.{Justifies}
use field_cage.Agent.Seed.{Warning, Seeded, attempt, seed_dns}
use field_cage.Agent.Steps.{Write, configure, open_ip, open_net, give_up, perform}
use field_cage.Agent.Check.{Check, reaches}

-- a warning or a failure was reported
abbrev pub is_reported : {A : Type 0} → List A → Bool
is_reported [] = false
is_reported (x ∷ xs) = true

-- A record that the DNS watcher acts on: it is whole, its response has a domain, and it justifies the
-- destination.
pub record IsHeard (dns : Parser) (w : Dns.Watch) (host : Ip → Bool) (raw : Bytes) : Type 0 where
  pub long : ltb (length raw) 8 ≡ false
  pub whole :
      (little_endian (slice 0 4 raw) == 0 || ltb (length raw - 8) (little_endian (slice 0 4 raw)))
      ≡ false
  pub named :
      is_empty (parse_dns_response dns (slice 8 (little_endian (slice 0 4 raw)) raw)).domain ≡ false
  pub justifies : Justifies dns w host raw

-- A check of a destination by what is written for its address alone: no choice of the DNS rule closes
-- it, and without maps nothing is closed.
pub record IsLasting (lib : KernelMaps) (check : Check lib) : Type 0 where
  pub keeps :
      (a b : Block lib) (enabled : Bool)
      → set_allow_all_dns lib a enabled ≡ some b
      → check.reach.opens a ≡ true
      → check.reach.opens b ≡ true
  pub loose : check.reach.opens none ≡ true
  pub other_port : (check.dport == 53) ≡ false

module _ (lib : KernelMaps) (check : Check lib) where
  open check use {reach, dport}
  open reach use {opens, host, net, host_law, net_law}

  module _ (lasting : IsLasting lib check) where
    open lasting use {keeps, other_port}

    attempt-keeps :
        (w : Warning) (s : Seeded lib) (r : Option (Block lib))
        → ((b : Block lib) → r ≡ some b → opens s.block ≡ true → opens b ≡ true)
        → opens s.block ≡ true
        → opens (attempt lib w s r).block ≡ true
    unfolding attempt
    attempt-keeps w s none f h = h
    attempt-keeps w s (some b) f h = f b refl h

    -- a write closes nothing
    pub perform-keeps :
        (v : Write) (s : Seeded lib) → opens s.block ≡ true → opens (perform lib v s).block ≡ true
    unfolding perform seed_dns
    perform-keeps (configure enabled) s h =
        attempt-keeps _ s _ (λ b p g. keeps s.block b enabled p g) h
    perform-keeps (open_ip w ip) s h =
        attempt-keeps _ s _ (λ b p g. let now = host_law s.block b ip p in ground (arith, now)) h
    perform-keeps (open_net n) s h =
        attempt-keeps _ s _ (λ b p g. let now = net_law s.block b n p in ground (arith, now)) h
    perform-keeps (give_up d) s h = h

    abbrev pub Opened : Seeded lib → Type 0
    Opened s = (opens s.block ≡ true) ⊎ (is_reported s.warnings ≡ true)

    attempt-Opened :
        (w : Warning) (s : Seeded lib) (r : Option (Block lib))
        → ((b : Block lib) → r ≡ some b → opens b ≡ true)
        → Opened (attempt lib w s r)
    unfolding attempt
    attempt-Opened w s none f = inr refl
    attempt-Opened w s (some b) f = inl (f b refl)

    -- a write that is about the destination opens it, or warns
    pub perform-Opened :
        (v : Write) (s : Seeded lib) → reaches lib check v ≡ true → Opened (perform lib v s)
    unfolding perform
    perform-Opened (configure enabled) s h = absurd (ground (arith, other_port))
    perform-Opened (open_ip w ip) s h =
        attempt-Opened _ s _ (λ b p. let now = host_law s.block b ip p in ground (arith, now))
    perform-Opened (open_net n) s h =
        attempt-Opened _ s _ (λ b p. let now = net_law s.block b n p in ground (arith, now))
    perform-Opened (give_up d) s h = absurd (ground arith)

    attempt-reported :
        (w : Warning) (s : Seeded lib) (r : Option (Block lib))
        → is_reported s.warnings ≡ true
        → is_reported (attempt lib w s r).warnings ≡ true
    unfolding attempt
    attempt-reported w s none h = refl
    attempt-reported w s (some b) h = h

    pub perform-reported :
        (v : Write) (s : Seeded lib)
        → is_reported s.warnings ≡ true
        → is_reported (perform lib v s).warnings ≡ true
    unfolding perform seed_dns
    perform-reported (configure enabled) s h = attempt-reported _ s _ h
    perform-reported (open_ip w ip) s h = attempt-reported _ s _ h
    perform-reported (open_net n) s h = attempt-reported _ s _ h
    perform-reported (give_up d) s h = refl

    -- an address of a response closes nothing
    pub record-keeps :
        (may : Bool) (domain : Bytes) (s : Dns.State lib) (ip : Ip)
        → opens s.block ≡ true
        → opens (Dns.record_ip lib may domain s ip).block ≡ true
    unfolding Dns.record_ip
    record-keeps false domain s ip h = h
    record-keeps true domain s ip h = elim (Option-cases (allow_ip lib s.block ip)) [
      | inl p ↦ rw (p, Dns.record_ip) h
      | inr (b, p) ↦
          let now = host_law s.block b ip p in rw (p, Dns.record_ip) (ground (arith, now))
    ]

    -- and opens itself, or is reported
    pub record-opens :
        (domain : Bytes) (s : Dns.State lib) (ip : Ip)
        → host ip ≡ true
        → (opens (Dns.record_ip lib true domain s ip).block ≡ true)
          ⊎ (is_reported (Dns.record_ip lib true domain s ip).failed ≡ true)
    unfolding Dns.record_ip
    record-opens domain s ip h = elim (Option-cases (allow_ip lib s.block ip)) [
      | inl p ↦ inr (rw (p, Dns.record_ip) refl)
      | inr (b, p) ↦
          let now = host_law s.block b ip p in inl (rw (p, Dns.record_ip) (ground (arith, now)))
    ]

    pub record-reported :
        (may : Bool) (domain : Bytes) (s : Dns.State lib) (ip : Ip)
        → is_reported s.failed ≡ true
        → is_reported (Dns.record_ip lib may domain s ip).failed ≡ true
    unfolding Dns.record_ip
    record-reported false domain s ip h = h
    record-reported true domain s ip h = elim (Option-cases (allow_ip lib s.block ip)) [
      | inl p ↦ rw (p, Dns.record_ip) refl
      | inr (b, p) ↦ rw (p, Dns.record_ip) h
    ]
