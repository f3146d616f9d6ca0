-- ===== src/Net/HostPort.antt =====
-- net.SplitHostPort, its host.
use field_cage.Base.{◌||◌, not, ◌∷◌, Option, none, some, if◌then◌else◌, drop}
use field_cage.Text.Bytes.{Bytes, codes, equal, cut_first, cut_last, has_byte}
use field_cage.Net.Ip.{first_is}

-- `[host]:port`: the first `]` stands just in front of the last colon
bracketed : Bytes → Bytes → Option Bytes
unfolding equal cut_first
bracketed whole port = elim (cut_first (codes "]") whole) [
  | none ↦ none
  | some p ↦
      if not (equal p.1 (b':' ∷ port)) || has_byte (drop 1 whole) b'[' || has_byte p.1 b']'
      then none
      else some (drop 1 p.0)
]

plain : Bytes → Bytes → Option Bytes
plain whole host =
    if has_byte host b':' || has_byte whole b'[' || has_byte whole b']' then none else some host

unfoldable pub split_host_port : Bytes → Option Bytes
unfolding cut_last bracketed plain
split_host_port s = elim (cut_last (codes ":") s) [
  | none ↦ none
  | some p ↦ if first_is b'[' s then bracketed s p.1 else plain s p.0
]
