-- ===== src/Agent/Heard.antt =====
-- What the DNS watcher hears is open once it has recorded it, whatever the other parts do in between.
use field_cage.Base.{
  ℕ, true, false, List, [], ◌∷◌, Option, none, some, any, All, Any, ◌≡◌, ◌⊎◌, refl, sym, ap, subst,
  ◌∙◌, arith, Option-cases, Bool-cases, inl, inr,
}
use field_cage.Text.Bytes.{Bytes}
use field_cage.Net.Ip.{Ip}
use field_cage.Ebpf.Maps.{KernelMaps}
use field_cage.Ebpf.Event.{parse_event}
use field_cage.Ebpf.Dns
use field_cage.Ebpf.Watcher.{Block}
use field_cage.Ebpf.Dns.{Parser, parse_dns_response, may_allow}
use field_cage.Agent.Start.{Setup}
use field_cage.Agent.Steps.{
  Write, Agent, agent_of, seed_next, receive, record_next, read_next, dns_state, Step, seed,
  receive_record, record_address, read_event, Reach, here, next,
}
use field_cage.Agent.Check.{Check}
use field_cage.Agent.Complete.{
  IsLasting, IsHeard, is_reported, perform-keeps, record-keeps, record-opens, record-reported,
}
use field_cage.Agent.Opened.{receive-Keeps}

All-imply :
    {P Q : Bytes → Type 0} (xs : List Bytes) → ((x : Bytes) → P x → Q x) → All P xs → All Q xs
All-imply [] f h = tt
All-imply (x ∷ xs) f h = (f x h.0, All-imply xs f h.1)

-- what holds of all holds of some one
All-Any :
    {P Q : Bytes → Type 0} {R : Type 0} (xs : List Bytes)
    → ((x : Bytes) → P x → Q x → R)
    → All P xs
    → Any Q xs
    → R
All-Any [] f h k = absurd k
All-Any (x ∷ xs) f h (inl k) = f x h.0 k
All-Any (x ∷ xs) f h (inr k) = All-Any xs f h.1 k

module _ (lib : KernelMaps) (check : Check lib) (lasting : IsLasting lib check) (dns : Parser)
    (self : ℕ) (s : Setup lib) where
  open check use {reach}
  open reach use {opens, host}

  -- nothing that a record gave is lost: it is open, still in hand, or was reported
  abbrev IsRecorded : Agent lib → Type 0
  IsRecorded a =
      (opens a.block ≡ true)
      ⊎ (((a.may ≡ true) × (any host a.pending ≡ true)) ⊎ (is_reported a.failed ≡ true))

  abbrev AllRecorded : Agent lib → Type 0
  AllRecorded a = All (λ raw. IsHeard dns s.watch host raw → IsRecorded a) a.received

  step-AllRecorded :
      (a b : Agent lib)
      → b.received ≡ a.received
      → (IsRecorded a → IsRecorded b)
      → AllRecorded a
      → AllRecorded b
  step-AllRecorded a b e f h =
      subst (All (λ raw. IsHeard dns s.watch host raw → IsRecorded b)) (sym e)
        (All-imply a.received (λ raw g heard. f (g heard)) h)

  seed-IsRecorded :
      (a : Agent lib) (v : Write) (vs : List Write)
      → IsRecorded a
      → IsRecorded (seed_next lib v vs a)
  unfolding seed_next
  seed-IsRecorded a v vs (inl h) = inl (perform-keeps lib check lasting v _ h)
  seed-IsRecorded a v vs (inr h) = inr h

  record-IsRecorded :
      (a : Agent lib) (ip : Ip) (rest : List Ip)
      → a.pending ≡ ip ∷ rest
      → IsRecorded a
      → IsRecorded (record_next lib ip rest a)
  unfolding record_next
  record-IsRecorded a ip rest q (inl h) =
      inl (record-keeps lib check lasting a.may a.domain (dns_state lib a) ip h)
  record-IsRecorded a ip rest q (inr (inr h)) =
      inr (inr (record-reported lib check lasting a.may a.domain (dns_state lib a) ip h))
  record-IsRecorded a ip rest q (inr (inl (m, h))) =
      let here_or_later = ap (any host) q in
      elim (Bool-cases (host ip)) [
        | inr away ↦ inr (inl (m, ground arith))
        | inl hit ↦
            elim (subst
              (λ may.
                (opens (Dns.record_ip lib may a.domain (dns_state lib a) ip).block ≡ true)
                ⊎ (is_reported (Dns.record_ip lib may a.domain (dns_state lib a) ip).failed ≡ true))
              (sym m) (record-opens lib check lasting a.domain (dns_state lib a) ip hit)) [
                | inl now ↦ inl now
                | inr lost ↦ inr (inr lost)
              ]
      ]

  -- with nothing in hand, what arrives changes nothing
  receive-old :
      (a : Agent lib) (raw : Bytes)
      → a.pending ≡ []
      → IsRecorded a
      → IsRecorded (receive lib dns s.watch raw a)
  receive-old a raw q (inl h) =
      inl (ap (λ b. opens b) (receive-Keeps lib check lasting dns self s a raw).block ∙ h)
  receive-old a raw q (inr (inr h)) =
      inr (inr (ap is_reported (receive-Keeps lib check lasting dns self s a raw).failed ∙ h))
  receive-old a raw q (inr (inl (m, h))) = let nothing = ap (any host) q in absurd (ground arith)

  no_block : (b : Block lib) → Dns.is_block lib b ≡ false → opens b ≡ true
  no_block none h = lasting.loose
  no_block (some m) h = absurd (ground arith)

  receive-new :
      (a : Agent lib) (raw : Bytes)
      → IsHeard dns s.watch host raw
      → IsRecorded (receive lib dns s.watch raw a)
  unfolding receive may_allow
  receive-new a raw h =
      let found = h.justifies.answered in
      let allowed = h.justifies.allowed in
      let trusted = h.justifies.trusted in
      elim (Bool-cases (Dns.is_block lib a.block)) [
        | inr loose ↦ inl (
            ap (λ b. opens b) (receive-Keeps lib check lasting dns self s a raw).block
            ∙ no_block a.block loose)
        | inl blocks ↦ rw (h.long, h.whole, h.named, receive) (inr (inl (ground arith, found)))
      ]

  Step-AllRecorded : {a b : Agent lib} → Step lib dns self s a b → AllRecorded a → AllRecorded b
  unfolding record_next read_next seed_next
  Step-AllRecorded (seed a v vs q) g =
      step-AllRecorded a (seed_next lib v vs a) refl (seed-IsRecorded a v vs) g
  Step-AllRecorded (receive_record a raw q) g =
      let b = receive lib dns s.watch raw a in
      subst (All (λ r. IsHeard dns s.watch host r → IsRecorded b))
        (sym (receive-Keeps lib check lasting dns self s a raw).received)
        (receive-new a raw, All-imply a.received (λ r f heard. receive-old a raw q (f heard)) g)
  Step-AllRecorded (record_address a ip rest q) g =
      step-AllRecorded a (record_next lib ip rest a) refl (record-IsRecorded a ip rest q) g
  Step-AllRecorded (read_event a raw) g = elim (Option-cases (parse_event raw)) [
    | inl p ↦ rw (p, read_next) g
    | inr (ev, p) ↦ rw (p, read_next) g
  ]

  Reach-AllRecorded : {a b : Agent lib} → Reach lib dns self s a b → AllRecorded a → AllRecorded b
  Reach-AllRecorded here g = g
  Reach-AllRecorded (next r st) g = Step-AllRecorded st (Reach-AllRecorded r g)

  pub heard-opened :
      (resolve : Bytes → Option (List Ip)) (a : Agent lib)
      → Reach lib dns self s (agent_of lib resolve s) a
      → a.pending ≡ []
      → a.failed ≡ []
      → Any (IsHeard dns s.watch host) a.received
      → opens a.block ≡ true
  unfolding agent_of
  heard-opened resolve a r idle clean heard =
      elim (All-Any a.received (λ raw f h. f h) (Reach-AllRecorded r tt) heard) [
        | inl h ↦ h
        | inr (inl (m, h)) ↦ let nothing = ap (any host) idle in absurd (ground arith)
        | inr (inr h) ↦ let none_said = ap is_reported clean in absurd (ground arith)
      ]
