-- ===== src/Policy/Build.antt =====
-- `newEngine`: the allowlist entries are read in order, and the first malformed one is the error.
use field_cage.Base.{
  Bool, ◌||◌, List, [], ◌∷◌, ◌++◌, none, some, ltb, if◌then◌else◌, any, length, Result, ok, err,
}
use field_cage.Text.Bytes.{Bytes, codes, equal, is_empty, has_byte, cut_prefix, split}
use field_cage.Text.Space.{trim_space}
use field_cage.Text.Case.{Tables, to_lower}
use field_cage.Net.Ip
use field_cage.Net.Ip.{Ip}
use field_cage.Net.Parse.{parse_ip}
use field_cage.Net.Cidr.{parse_cidr}
use field_cage.Net.HostPort.{split_host_port}
use field_cage.Policy.Engine.{Mode, audit, block, Config, Engine, add_key, put_ip}

-- The errors of `newEngine`, with the mode or the entry that they quote.
pub data PolicyError : Type 0 where
  invalid_mode : Bytes → PolicyError
  unsupported_wildcard : Bytes → PolicyError
  malformed_wildcard : Bytes → PolicyError
  too_broad : Bytes → PolicyError
  empty_label : Bytes → PolicyError
  malformed_entry : Bytes → PolicyError

abbrev pub Built : Type 0
Built = Result PolicyError Engine

-- `e.allowedIP[ip.String()] = ip`
unfoldable pub add_ip : Engine → Ip → Engine
add_ip e ip = record e { allowed_ip = put_ip (Ip.string ip) ip e.allowed_ip }

-- the host of an entry with a port, or the entry
unfoldable pub host_of : Bytes → Bytes
host_of entry = elim (split_host_port entry) [ none ↦ entry | some host ↦ host ]

-- an entry whose host holds `*`, behind its prefix `*.`
unfoldable pub add_suffix : Tables → Engine → Bytes → Bytes → Built
add_suffix t e entry suffix =
    if has_byte suffix b'*'
    then err (unsupported_wildcard entry)
    else if has_byte suffix b':'
    then err (malformed_wildcard entry)
    else if ltb (length (split suffix b'.')) 2
    then err (too_broad entry)
    else if any is_empty (split suffix b'.')
    then err (empty_label entry)
    else ok (record e { wildcards = e.wildcards ++ (codes "." ++ to_lower t suffix) ∷ [] })

unfoldable pub add_wildcard : Tables → Engine → Bytes → Bytes → Built
unfolding add_suffix
add_wildcard t e entry host = elim (cut_prefix (codes "*.") host) [
  | none ↦ err (unsupported_wildcard entry)
  | some suffix ↦ add_suffix t e entry suffix
]

-- an entry that is no address as it stands, and has no `*`
unfoldable pub add_name : Tables → Engine → Bytes → Bytes → Built
add_name t e entry host =
    if has_byte host b':'
    then err (malformed_entry entry)
    else ok (record e { domains = add_key (to_lower t host) e.domains })

unfoldable pub add_plain : Tables → Engine → Bytes → Bytes → Built
unfolding add_ip add_name
add_plain t e entry host = elim (parse_ip host) [
  | some ip ↦ ok (add_ip e ip)
  | none ↦ elim (parse_cidr host) [
    | some cidr ↦ ok (record e { cidrs = e.cidrs ++ cidr ∷ [] })
    | none ↦ add_name t e entry host
  ]
]

unfoldable pub add_host : Tables → Engine → Bytes → Bytes → Built
unfolding add_wildcard add_plain
add_host t e entry host =
    if is_empty host
    then ok e
    else if has_byte host b'*'
    then add_wildcard t e entry host
    else add_plain t e entry host

unfoldable pub add_trimmed : Tables → Engine → Bytes → Built
unfolding add_ip host_of add_host
add_trimmed t e entry = elim (parse_ip entry) [
  | some ip ↦ ok (add_ip e ip)
  | none ↦ add_host t e entry (host_of entry)
]

-- one round of the loop over the allowlist
unfoldable pub add_entry : Tables → Engine → Bytes → Built
unfolding add_trimmed
add_entry t e raw = add_trimmed t e (trim_space raw)

-- the loop over the allowlist
unfoldable pub add_entries : Tables → Engine → List Bytes → Built
unfolding add_entry
add_entries t e [] = ok e
add_entries t e (raw ∷ raws) = elim (add_entry t e raw) [
  | ok e' ↦ add_entries t e' raws
  | err x ↦ err x
]

unfoldable pub is_mode : Mode → Bool
is_mode m = equal m audit || equal m block || is_empty m

abbrev pub empty_engine : Config → Engine
empty_engine cfg = record {
  mode = cfg.mode;
  domains = [];
  wildcards = [];
  allowed_ip = [];
  cidrs = [];
  allow_all_dns = cfg.allow_all_dns;
}

unfoldable pub new_engine : Tables → Config → Built
unfolding is_mode add_entries
new_engine t cfg =
    if is_mode cfg.mode
    then add_entries t (empty_engine cfg) cfg.allowlist
    else err (invalid_mode cfg.mode)
