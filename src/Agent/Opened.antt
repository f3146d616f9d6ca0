-- ===== src/Agent/Opened.antt =====
-- What the policy lists is open once the agent has written it, whatever its parts do in between.
use field_cage.Base.{
  ℕ, ◌-◌, Bool, true, false, ◌||◌, List, [], ◌∷◌, Option, some, ◌==◌, ltb, if◌then◌else◌, length,
  any, ◌≡◌, ◌⊎◌, refl, ap, ◌∙◌, arith, Option-cases, Bool-cases, inl, inr,
}
use field_cage.Text.Bytes.{Bytes, is_empty}
use field_cage.Net.Ip.{Ip}
use field_cage.Policy.Engine.{Engine}
use field_cage.Ebpf.Maps.{KernelMaps}
use field_cage.Ebpf.Event.{little_endian, slice, parse_event}
use field_cage.Ebpf.Dns.{Parser, parse_dns_response}
use field_cage.Agent.Start.{Setup}
use field_cage.Agent.Steps.{
  Write, Agent, agent_of, seed_next, receive, record_next, read_next, dns_state, seed_todo-writes,
  Step, seed, receive_record, record_address, read_event, Reach, here, next,
}
use field_cage.Agent.Check.{Check, reaches, is_listed, any-writes}
use field_cage.Agent.Complete.{
  IsLasting, is_reported, perform-keeps, perform-Opened, perform-reported, record-keeps,
}

module _ (lib : KernelMaps) (check : Check lib) (lasting : IsLasting lib check) (dns : Parser)
    (self : ℕ) (s : Setup lib) where
  open check use {reach}
  open reach use {opens, host}

  -- nothing about the destination is lost: it is open, still to be written, or was warned about
  abbrev IsPlanned : Agent lib → Type 0
  IsPlanned a =
      (opens a.block ≡ true)
      ⊎ ((any (reaches lib check) a.todo ≡ true) ⊎ (is_reported a.warnings ≡ true))

  seed-IsPlanned :
      (a : Agent lib) (v : Write) (vs : List Write)
      → a.todo ≡ v ∷ vs
      → IsPlanned a
      → IsPlanned (seed_next lib v vs a)
  unfolding seed_next
  seed-IsPlanned a v vs q (inl h) = inl (perform-keeps lib check lasting v _ h)
  seed-IsPlanned a v vs q (inr (inr h)) = inr (inr (perform-reported lib check lasting v _ h))
  seed-IsPlanned a v vs q (inr (inl h)) =
      let todo = ap (any (reaches lib check)) q in
      elim (Bool-cases (reaches lib check v)) [
        | inr away ↦ inr (inl (ground arith))
        | inl hit ↦ elim (perform-Opened lib check lasting v _ hit) [
          | inl now ↦ inl now
          | inr warned ↦ inr (inr warned)
        ]
      ]

  -- a record that arrives changes nothing but what is in hand
  pub record Keeps (raw : Bytes) (a b : Agent lib) : Type 0 where
    pub block : b.block ≡ a.block
    pub todo : b.todo ≡ a.todo
    pub warnings : b.warnings ≡ a.warnings
    pub failed : b.failed ≡ a.failed
    pub received : b.received ≡ raw ∷ a.received

  if-Keeps :
      (raw : Bytes) (a x y : Agent lib) (c : Bool)
      → Keeps raw a x
      → Keeps raw a y
      → Keeps raw a (if c then x else y)
  if-Keeps raw a x y true h k = h
  if-Keeps raw a x y false h k = k

  pub receive-Keeps : (a : Agent lib) (raw : Bytes) → Keeps raw a (receive lib dns s.watch raw a)
  unfolding receive
  receive-Keeps a raw =
      let size = little_endian (slice 0 4 raw) in
      if-Keeps raw a _ _ (ltb (length raw) 8)
        (record { block = refl; todo = refl; warnings = refl; failed = refl; received = refl })
        (if-Keeps raw a _ _ (size == 0 || ltb (length raw - 8) size)
          (record { block = refl; todo = refl; warnings = refl; failed = refl; received = refl })
          (if-Keeps raw a _ _ (is_empty (parse_dns_response dns (slice 8 size raw)).domain)
            (record { block = refl; todo = refl; warnings = refl; failed = refl; received = refl })
            (record {
              block = refl;
              todo = refl;
              warnings = refl;
              failed = refl;
              received = refl;
            })))

  Step-IsPlanned : {a b : Agent lib} → Step lib dns self s a b → IsPlanned a → IsPlanned b
  unfolding record_next read_next
  Step-IsPlanned (seed a v vs q) g = seed-IsPlanned a v vs q g
  Step-IsPlanned (receive_record a raw q) (inl h) =
      inl (ap (λ b. opens b) (receive-Keeps a raw).block ∙ h)
  Step-IsPlanned (receive_record a raw q) (inr (inl h)) =
      inr (inl (ap (any (reaches lib check)) (receive-Keeps a raw).todo ∙ h))
  Step-IsPlanned (receive_record a raw q) (inr (inr h)) =
      inr (inr (ap is_reported (receive-Keeps a raw).warnings ∙ h))
  Step-IsPlanned (record_address a ip rest q) (inl h) =
      inl (record-keeps lib check lasting a.may a.domain (dns_state lib a) ip h)
  Step-IsPlanned (record_address a ip rest q) (inr h) = inr h
  Step-IsPlanned (read_event a raw) g = elim (Option-cases (parse_event raw)) [
    | inl p ↦ rw (p, read_next) g
    | inr (ev, p) ↦ rw (p, read_next) g
  ]

  Reach-IsPlanned : {a b : Agent lib} → Reach lib dns self s a b → IsPlanned a → IsPlanned b
  Reach-IsPlanned here g = g
  Reach-IsPlanned (next r st) g = Step-IsPlanned st (Reach-IsPlanned r g)

  pub listed-opened :
      (resolve : Bytes → Option (List Ip)) (e : Engine) (a : Agent lib)
      → s.engine ≡ some e
      → s.seeding ≡ true
      → Reach lib dns self s (agent_of lib resolve s) a
      → a.todo ≡ []
      → a.warnings ≡ []
      → is_listed lib check resolve e ≡ true
      → opens a.block ≡ true
  unfolding agent_of
  listed-opened resolve e a has seeding r done quiet listed =
      let plan =
        ap (any (reaches lib check))
          (seed_todo-writes lib resolve e s.seeding s.engine seeding has) in
      let about = any-writes lib check resolve e in
      elim (Reach-IsPlanned r (inr (inl (ground (arith, plan, about, listed))))) [
        | inl h ↦ h
        | inr (inl h) ↦ let none_left = ap (any (reaches lib check)) done in absurd (ground arith)
        | inr (inr h) ↦ let none_said = ap is_reported quiet in absurd (ground arith)
      ]
