-- ===== src/Policy/Load.antt =====
-- `LoadFile` of internal/policy/policy.go. The reading of a file and the YAML decoder are parameters.
use field_cage.Base.{false, [], Option, none, some, Result, ok, err}
use field_cage.Text.Bytes.{Bytes}
use field_cage.Text.Case.{Tables}
use field_cage.Policy.Engine.{Config, Engine}
use field_cage.Policy.Build.{PolicyError, new_engine}

-- What the strict decoder makes of a text: `io.EOF` for a text that holds no document, a
-- configuration, or another error, such as an unknown key.
pub data Decoding : Type 0 where
  end_of_file malformed : Decoding
  decoded : Config → Decoding

pub data LoadError : Type 0 where
  unreadable unparsed : LoadError
  refused : PolicyError → LoadError

-- the configuration before it is decoded
abbrev pub zero_config : Config
zero_config = record { mode = []; allowlist = []; allow_all_dns = false }

abbrev pub checked : Result PolicyError Engine → Result LoadError Engine
checked (ok e) = ok e
checked (err x) = err (refused x)

unfoldable pub decoded_engine : Tables → Decoding → Result LoadError Engine
unfolding new_engine
decoded_engine t end_of_file = checked (new_engine t zero_config)
decoded_engine t malformed = err unparsed
decoded_engine t (decoded cfg) = checked (new_engine t cfg)

-- `LoadFile`
unfoldable pub load_file :
    (Bytes → Option Bytes) → (Bytes → Decoding) → Tables → Bytes → Result LoadError Engine
unfolding decoded_engine
load_file read_file decode t path = elim (read_file path) [
  | none ↦ err unreadable
  | some content ↦ decoded_engine t (decode content)
]
