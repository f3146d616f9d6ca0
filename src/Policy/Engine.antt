-- ===== src/Policy/Engine.antt =====
-- The types of internal/policy/policy.go. A Go map is the list of its keys, or of its pairs.
use field_cage.Base.{Bool, List, [], ◌∷◌, ◌++◌, if◌then◌else◌, any, map}
use field_cage.Text.Bytes.{Bytes, codes, equal}
use field_cage.Net.Ip.{Ip}
use field_cage.Net.Cidr.{IpNet}

abbrev pub Mode : Type 0
Mode = Bytes

abbrev pub audit : Mode
audit = codes "audit"

abbrev pub block : Mode
block = codes "block"

pub record Config : Type 0 where
  pub mode : Mode
  pub allowlist : List Bytes
  pub allow_all_dns : Bool

pub record Engine : Type 0 where
  pub mode : Mode
  pub domains : List Bytes
  pub wildcards : List Bytes
  pub allowed_ip : List (Bytes × Ip)
  pub cidrs : List IpNet
  pub allow_all_dns : Bool

-- `_, ok := m[k]` on a map with string keys, given its keys
unfoldable pub has_key : List Bytes → Bytes → Bool
unfolding equal
has_key ks k = any (λ j. equal j k) ks

-- `m[k] = struct{}{}`
unfoldable pub add_key : Bytes → List Bytes → List Bytes
unfolding has_key
add_key k ks = if has_key ks k then ks else ks ++ k ∷ []

-- `m[k] = v`
unfoldable pub put_ip : Bytes → Ip → List (Bytes × Ip) → List (Bytes × Ip)
unfolding equal
put_ip k v [] = (k, v) ∷ []
put_ip k v ((j, w) ∷ m) = if equal j k then (k, v) ∷ m else (j, w) ∷ put_ip k v m

-- The keys of the map from canonical texts to addresses.
abbrev pub ip_keys : List (Bytes × Ip) → List Bytes
ip_keys = map (λ (p : Bytes × Ip). p.0)
