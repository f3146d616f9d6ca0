-- ===== src/Agent/Mode.antt =====
-- `resolveMode` and the label of the mode that `run` logs.
use field_cage.Base.{
  Bool, true, false, ◌||◌, ◌&&◌, not, ◌++◌, Option, none, some, if◌then◌else◌, Result, ok, err,
}
use field_cage.Text.Bytes.{Bytes, codes, equal, is_empty}
use field_cage.Policy.Engine.{Mode, audit, block, Engine}

pub data ModeError : Type 0 where
  invalid_flag : Bytes → ModeError
  block_without_policy : ModeError

abbrev pub is_nil : Option Engine → Bool
is_nil none = true
is_nil (some e) = false

-- the mode of the policy file, or audit
unfoldable pub policy_mode : Option Engine → Mode
policy_mode none = audit
policy_mode (some e) = if is_empty e.mode then audit else e.mode

abbrev refuse_block : Option Engine → Mode → Result ModeError Mode
refuse_block engine mode =
    if equal mode block && is_nil engine then err block_without_policy else ok mode

unfoldable pub resolve_mode : Bytes → Option Engine → Result ModeError Mode
unfolding policy_mode
resolve_mode flag engine =
    if is_empty flag
    then refuse_block engine (policy_mode engine)
    else if not (equal flag audit || equal flag block)
    then err (invalid_flag flag)
    else refuse_block engine flag

-- the label of the startup message
unfoldable pub mode_label : Mode → Option Engine → Bytes
mode_label mode engine = if is_nil engine then mode ++ codes " (no policy)" else mode
