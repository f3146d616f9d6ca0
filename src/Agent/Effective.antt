-- ===== src/Agent/Effective.antt =====
-- The effective mode of the agent.
use field_cage.Base.{
  true, false, ◌&&◌, [], ◌∷◌, Option, if◌then◌else◌, ◌≡◌, ◌⊎◌, ◌↔◌, refl, arith, ok,
}
use field_cage.Text.Bytes.{Bytes, equal, is_empty}
use field_cage.Text.Equal.{equal_iff}
use field_cage.Policy.Engine.{Mode, audit, block, Engine}
use field_cage.Agent.Mode.{is_nil, policy_mode, resolve_mode}

-- A mode that the agent accepts: a flag is a known mode, and to block takes a policy.
pub record IsEffective (flag : Bytes) (engine : Option Engine) (mode : Mode) : Type 0 where
  pub flag_first : mode ≡ (if is_empty flag then policy_mode engine else flag)
  pub known_flag : (flag ≡ []) ⊎ (flag ≡ audit) ⊎ (flag ≡ block)
  pub has_policy : (equal mode block && is_nil engine) ≡ false

empty_iff : (s : Bytes) → (is_empty s ≡ true) ↔ (s ≡ [])
empty_iff [] = (λ h. refl, λ h. refl)
empty_iff (c ∷ s) = (λ h. absurd (ground arith), λ h. absurd (ground arith))

resolve_mode_sound :
    (flag : Bytes) (engine : Option Engine) (mode : Mode)
    → resolve_mode flag engine ≡ ok mode
    → IsEffective flag engine mode
unfolding resolve_mode policy_mode
resolve_mode_sound flag engine mode h = record {
  flag_first = ground arith;
  known_flag = ground (arith, empty_iff flag, equal_iff flag audit, equal_iff flag block);
  has_policy = ground arith;
}

resolve_mode_complete :
    (flag : Bytes) (engine : Option Engine) (mode : Mode)
    → IsEffective flag engine mode
    → resolve_mode flag engine ≡ ok mode
unfolding resolve_mode
resolve_mode_complete flag engine mode h = ground (
  arith,
  h.flag_first,
  h.known_flag,
  h.has_policy,
  empty_iff flag,
  equal_iff flag audit,
  equal_iff flag block,
  equal_iff mode block,
)

-- The agent resolves a mode exactly when it is the flag, or the policy's mode without a flag, the
-- flag is empty or a known mode, and a policy is loaded if the mode is to block.
pub resolve_mode_iff :
    (flag : Bytes) (engine : Option Engine) (mode : Mode)
    → (resolve_mode flag engine ≡ ok mode) ↔ IsEffective flag engine mode
resolve_mode_iff flag engine mode =
    (resolve_mode_sound flag engine mode, resolve_mode_complete flag engine mode)
