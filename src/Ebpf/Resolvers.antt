-- ===== src/Ebpf/Resolvers.antt =====
-- The nameservers of the host (internal/ebpf/dns_parse.go): `SystemResolvers`, `parseResolvConf` and `resolversFrom`,
-- and the source check of `isTrustedSourceIP`.
use field_cage.Base.{
  Bool, true, false, ◌||◌, List, [], ◌∷◌, ◌++◌, Option, none, some, if◌then◌else◌, all,
}
use field_cage.Text.Bytes.{
  Bytes, codes, equal, is_empty, has_prefix, trim_prefix, trim_suffix, cut_first, split,
}
use field_cage.Text.Space.{trim_space, fields}
use field_cage.Net.Ip.{Ip, string, to4, is_loopback}
use field_cage.Net.Parse.{parse_ip}
use field_cage.Policy.Engine.{has_key}

-- the host of a nameserver field, without brackets and without a zone
host_address : Bytes → Bytes
host_address field =
    let host = trim_suffix (trim_prefix field (codes "[")) (codes "]") in
    elim (cut_first (codes "%") host) [ none ↦ host | some p ↦ p.0 ]

-- the fields of a line that is neither empty nor a comment
nameserver : List Bytes → List Ip
unfolding host_address
nameserver (key ∷ field ∷ rest) =
    if equal key (codes "nameserver")
    then elim (parse_ip (host_address field)) [ none ↦ [] | some ip ↦ ip ∷ [] ]
    else []
nameserver _ = []

unfoldable pub parse_line : Bytes → List Ip
unfolding nameserver
parse_line raw =
    let line = trim_space raw in
    if is_empty line || has_prefix line (codes "#") || has_prefix line (codes ";")
    then []
    else nameserver (fields line)

parse_lines : List Bytes → List Ip
unfolding parse_line
parse_lines [] = []
parse_lines (line ∷ lines) = parse_line line ++ parse_lines lines

unfoldable pub parse_resolv_conf : Bytes → List Ip
unfolding parse_lines
parse_resolv_conf content = parse_lines (split content b'\n')

-- the loop that drops duplicates, with the texts seen so far
unfoldable pub dedup : List Bytes → List Ip → List Ip
dedup seen [] = []
dedup seen (ip ∷ ips) =
    let known = has_key seen (string ip) in
    let rest = dedup (if known then seen else string ip ∷ seen) ips in
    if known then rest else ip ∷ rest

unfoldable pub resolvers_from : Bytes → Bytes → List Ip
unfolding parse_resolv_conf dedup
resolvers_from etc run =
    let found = parse_resolv_conf etc in
    dedup [] (if all is_loopback found then found ++ parse_resolv_conf run else found)

-- `trusted` holds the texts of the nameservers
unfoldable pub is_trusted_source : Ip → List Bytes → Bool
is_trusted_source ip trusted =
    if is_empty ip
    then false
    else if is_loopback ip
    then true
    else elim (to4 ip) [ none ↦ false | some ip4 ↦ has_key trusted (string ip4) ]

abbrev pub resolv_conf : Bytes
resolv_conf = codes "/etc/resolv.conf"

abbrev pub systemd_resolv_conf : Bytes
systemd_resolv_conf = codes "/run/systemd/resolve/resolv.conf"

-- a file that may be absent, which reads as an empty one
abbrev pub content_or_empty : Option Bytes → Bytes
content_or_empty none = []
content_or_empty (some content) = content

-- `SystemResolvers`, over the reading of a file; `none` is the error of an unreadable resolv.conf
unfoldable pub system_resolvers : (Bytes → Option Bytes) → Option (List Ip)
unfolding resolvers_from
system_resolvers read_file = elim (read_file resolv_conf) [
  | none ↦ none
  | some etc ↦ some (resolvers_from etc (content_or_empty (read_file systemd_resolv_conf)))
]
