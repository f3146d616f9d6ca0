-- ===== src/Ebpf/Replay.antt =====
-- The replay of a log of acquisitions and releases, and steps that keep it balanced.
use field_cage.Base.{
  ℕ, true, List, [], ◌∷◌, ◌++◌, Option, none, some, ◌==◌, if◌then◌else◌, ◌≡◌, refl, ◌∙◌, arith,
  Bool-cases, inl, inr, Result, ok, err,
}
use field_cage.Ebpf.Resources.{
  ◌>>=◌, Resource, Action, acquire, release, Opening, connect_objects, enter_tracepoint,
  exit_tracepoint, event_reader, block_objects, link4, link6, send4, send6, dns_objects, dns_socket,
  dns_reader,
}

abbrev pub number : Resource → ℕ
number connect_objects = 0
number enter_tracepoint = 1
number exit_tracepoint = 2
number event_reader = 3
number block_objects = 4
number link4 = 5
number link6 = 6
number send4 = 7
number send6 = 8
number dns_objects = 9
number dns_socket = 10
number dns_reader = 11

-- The open resources after a log, the last one first. Only the last one can be released.
abbrev pub replay : List Action → List Resource → Option (List Resource)
replay [] open_now = some open_now
replay (acquire r ∷ log) open_now = replay log (r ∷ open_now)
replay (release r ∷ log) [] = none
replay (release r ∷ log) (q ∷ open_now) =
    let rest = replay log open_now in if number r == number q then rest else none

-- a second log behind a first one
abbrev pub continue : Option (List Resource) → List Action → Option (List Resource)
continue none log = none
continue (some held) log = replay log held

pub replay-append :
    (a b : List Action) (held : List Resource) → replay (a ++ b) held ≡ continue (replay a held) b
replay-append [] b held = refl
replay-append (acquire r ∷ a) b held = replay-append a b (r ∷ held)
replay-append (release r ∷ a) b [] = refl
replay-append (release r ∷ a) b (q ∷ held) = elim (Bool-cases (number r == number q)) [
  | inl e ↦ rw e (replay-append a b held)
  | inr e ↦ rw e refl
]

-- The resources that the log leaves open are those that the cleanups release.
pub record IsBalanced (s : Opening) : Type 0 where
  pub held : List Resource
  pub opened : replay s.log [] ≡ some held
  pub undone : replay s.cleanups held ≡ some []

-- the log goes on
pub onward :
    (log more : List Action) (held now : List Resource)
    → replay log [] ≡ some held
    → replay more held ≡ some now
    → replay (log ++ more) [] ≡ some now
onward log more held now h g = replay-append log more [] ∙ rw h g

-- both ends of a step, with the cleanups that are due when it succeeds
abbrev pub Balanced : List Action → Result Opening Opening → Type 0
Balanced due (ok s) = IsBalanced s × (s.cleanups ≡ due)
Balanced due (err s) = IsBalanced s

pub bind-Balanced :
    (due more : List Action) (r : Result Opening Opening) (f : Opening → Result Opening Opening)
    → Balanced due r
    → ((s : Opening) → IsBalanced s → s.cleanups ≡ due → Balanced more (f s))
    → Balanced more (r >>= f)
bind-Balanced due more (ok s) f h g = g s h.0 h.1
bind-Balanced due more (err s) f h g = h

pub number_refl : (r : Resource) → (number r == number r) ≡ true
number_refl r = ground arith
