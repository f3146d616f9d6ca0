-- ===== src/Agent/Grounds.antt =====
-- Why the kernel permits a destination, whatever the agent does at the same time.
use field_cage.Base.{
  ℕ, Bool, true, ◌||◌, ◌&&◌, List, ◌∷◌, ◌-◌, Option, some, ◌==◌, ltb, length, any, Any, ◌≡◌, ◌⊎◌,
  ◌∙◌, ap, arith, Option-cases, Bool-cases, inl, inr, ok,
}
use field_cage.Text.Bytes.{Bytes, equal, is_empty}
use field_cage.Net.Ip.{Ip}
use field_cage.Policy.Engine.{Engine, block}
use field_cage.Ebpf.Maps.{KernelMaps, BlockMaps}
use field_cage.Ebpf.Event.{little_endian, slice, parse_event}
use field_cage.Ebpf.Dns.{Parser, parse_dns_response, may_allow}
use field_cage.Ebpf.Trust.{Justifies, record_ip-open}
use field_cage.Agent.Start.{World, Setup, start, fresh_block}
use field_cage.Agent.Started.{start-IsReady}
use field_cage.Agent.Steps.{
  Write, Agent, agent_of, seed_next, receive, record_next, read_next, dns_state, seed_todo-writes,
  Step, seed, receive_record, record_address, read_event, Reach, here, next,
}
use field_cage.Agent.Check.{
  Check, reaches, is_listed, is_served, any-writes, perform-opened, fresh-opened,
}

module _ (lib : KernelMaps) (check : Check lib) (resolve : Bytes → Option (List Ip)) (e : Engine)
    (dns : Parser) (s : Setup lib) where
  open check use {reach, dport, loopback}
  open reach use {opens, host, host_law}

  -- The reasons that the policy and the host give: a loopback address, DNS to a nameserver, or what
  -- the policy lists and its domains resolved to.
  abbrev pub is_granted : Bool
  is_granted =
      loopback
      || (dport == 53 && (e.allow_all_dns || any (is_served lib check) s.resolvers))
      || is_listed lib check resolve e

  -- some record so far justifies the destination
  abbrev pub IsAnswered : Agent lib → Type 0
  IsAnswered a = Any (Justifies dns s.watch host) a.received

  abbrev pub Grounds : Agent lib → Type 0
  Grounds a = (is_granted ≡ true) ⊎ IsAnswered a

  -- What is permitted has its grounds, and so has what is still to be written.
  record IsGrounded (a : Agent lib) : Type 0 where
    opened : opens a.block ≡ true → Grounds a
    planned : any (reaches lib check) a.todo ≡ true → is_granted ≡ true
    answered : a.may ≡ true → any host a.pending ≡ true → IsAnswered a

  module _ (w : World) (self : ℕ) where
    seed-IsGrounded :
        (a : Agent lib) (v : Write) (vs : List Write)
        → a.todo ≡ v ∷ vs
        → IsGrounded a
        → IsGrounded (seed_next lib v vs a)
    unfolding seed_next
    seed-IsGrounded a v vs q g =
        let todo : any (reaches lib check) a.todo
            ≡ (reaches lib check v || any (reaches lib check) vs) =
          ap (any (reaches lib check)) q in
        record {
          opened = λ h. elim (perform-opened lib check v _ h) [
            | inl before ↦ g.opened before
            | inr now ↦ inl (g.planned (ground arith))
          ];
          planned = λ h. g.planned (ground arith);
          answered = g.answered;
        }

    read-IsGrounded :
        (a : Agent lib) (raw : Bytes) → IsGrounded a → IsGrounded (read_next lib self s raw a)
    unfolding read_next
    read-IsGrounded a raw g = elim (Option-cases (parse_event raw)) [
      | inl p ↦
          rw (p, read_next)
            (record { opened = g.opened; planned = g.planned; answered = g.answered })
      | inr (ev, p) ↦
          rw (p, read_next)
            (record { opened = g.opened; planned = g.planned; answered = g.answered })
    ]

    record-IsGrounded :
        (a : Agent lib) (ip : Ip) (rest : List Ip)
        → a.pending ≡ ip ∷ rest
        → IsGrounded a
        → IsGrounded (record_next lib ip rest a)
    unfolding record_next
    record-IsGrounded a ip rest q g =
        let pending : any host a.pending ≡ (host ip || any host rest) = ap (any host) q in
        record {
          opened = λ h.
              elim (record_ip-open lib opens host host_law a.may a.domain (dns_state lib a) ip h) [
                | inl before ↦ g.opened before
                | inr (may, now) ↦ inr (g.answered may (ground arith))
              ];
          planned = g.planned;
          answered = λ may h. g.answered may (ground arith);
        }

    later-Grounds :
        (a : Agent lib) (raw : Bytes)
        → Grounds a
        → Grounds (record a { received = raw ∷ a.received })
    later-Grounds a raw (inl h) = inl h
    later-Grounds a raw (inr h) = inr (inr h)

    skip-IsGrounded :
        (a : Agent lib) (raw : Bytes)
        → IsGrounded a
        → IsGrounded (record a { received = raw ∷ a.received })
    skip-IsGrounded a raw g = record {
      opened = λ h. later-Grounds a raw (g.opened h);
      planned = g.planned;
      answered = λ may h. inr (g.answered may h);
    }

    receive-IsGrounded :
        (a : Agent lib) (raw : Bytes) → IsGrounded a → IsGrounded (receive lib dns s.watch raw a)
    unfolding receive may_allow
    receive-IsGrounded a raw g =
        let size = little_endian (slice 0 4 raw) in
        let r = parse_dns_response dns (slice 8 size raw) in
        elim (Bool-cases (ltb (length raw) 8)) [
          | inl p ↦ rw (p, receive) (skip-IsGrounded a raw g)
          | inr p ↦ elim (Bool-cases (size == 0 || ltb (length raw - 8) size)) [
            | inl q ↦ rw (p, q, receive) (skip-IsGrounded a raw g)
            | inr q ↦ elim (Bool-cases (is_empty r.domain)) [
              | inl d ↦ rw (p, q, d, receive) (skip-IsGrounded a raw g)
              | inr d ↦
                  rw (p, q, d, receive)
                    (record {
                      opened = λ h. later-Grounds a raw (g.opened h);
                      planned = g.planned;
                      answered = λ may h.
                          inl (record {
                            trusted = ground arith;
                            allowed = ground arith;
                            answered = h;
                          });
                    })
            ]
          ]
        ]

    Step-IsGrounded : {a b : Agent lib} → Step lib dns self s a b → IsGrounded a → IsGrounded b
    Step-IsGrounded (seed a v vs q) g = seed-IsGrounded a v vs q g
    Step-IsGrounded (receive_record a raw q) g = receive-IsGrounded a raw g
    Step-IsGrounded (record_address a ip rest q) g = record-IsGrounded a ip rest q g
    Step-IsGrounded (read_event a raw) g = read-IsGrounded a raw g

    Reach-IsGrounded : {a b : Agent lib} → Reach lib dns self s a b → IsGrounded a → IsGrounded b
    Reach-IsGrounded here g = g
    Reach-IsGrounded (next r st) g = Step-IsGrounded st (Reach-IsGrounded r g)

    agent_of-IsGrounded :
        (m : BlockMaps lib)
        → (opens (some m) ≡ true → loopback ≡ true)
        → s.engine ≡ some e
        → s.maps ≡ fresh_block lib m true s.resolvers
        → s.seeding ≡ true
        → IsGrounded (agent_of lib resolve s)
    unfolding agent_of
    agent_of-IsGrounded m f has maps seeding =
        let same_maps = ap (λ b. opens b) maps in
        let same_todo =
          ap (any (reaches lib check))
            (seed_todo-writes lib resolve e s.seeding s.engine seeding has) in
        record {
          opened = λ h. inl (ground (arith, same_maps, fresh-opened lib check m s.resolvers, f));
          planned = λ h. ground (arith, same_todo, any-writes lib check resolve e);
          answered = λ may h. absurd (ground arith);
        }

    ready-IsGrounded :
        (m : BlockMaps lib) (path flag : Bytes)
        → (opens (some m) ≡ true → loopback ≡ true)
        → start lib w m path flag ≡ ok s
        → equal s.mode block ≡ true
        → s.engine ≡ some e
        → IsGrounded (agent_of lib resolve s)
    ready-IsGrounded m path flag f started blocks has =
        let ready = start-IsReady lib w m path flag s started in
        agent_of-IsGrounded m f has
          (ready.maps_fresh ∙ ap (λ b. fresh_block lib m b s.resolvers) blocks)
          (ready.seeds ∙ blocks)

    -- the grounds of whatever is permitted behind a start in block mode, for one kind of check
    pub opened-Grounds :
        (m : BlockMaps lib) (path flag : Bytes) (a : Agent lib)
        → (opens (some m) ≡ true → loopback ≡ true)
        → start lib w m path flag ≡ ok s
        → equal s.mode block ≡ true
        → s.engine ≡ some e
        → Reach lib dns self s (agent_of lib resolve s) a
        → opens a.block ≡ true
        → Grounds a
    opened-Grounds m path flag a f started blocks has r h =
        let g = Reach-IsGrounded r (ready-IsGrounded m path flag f started blocks has) in g.opened h
