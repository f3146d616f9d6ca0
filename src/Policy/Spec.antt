-- ===== src/Policy/Spec.antt =====
-- What an allowlist entry means, by itself and without the engine's maps: which destinations it
-- covers, and which entries are well-formed.
use field_cage.Base.{Bool, false, ◌&&◌, not, ◌++◌, none, some, if◌then◌else◌}
use field_cage.Text.Bytes.{Bytes, codes, equal, is_empty, has_suffix, cut_prefix}
use field_cage.Text.Space.{trim_space}
use field_cage.Text.Case.{Tables, to_lower}
use field_cage.Net.Ip
use field_cage.Net.Ip.{Ip}
use field_cage.Net.Parse.{parse_ip}
use field_cage.Net.Cidr.{IpNet, parse_cidr, net_contains}
use field_cage.Policy.Build.{host_of}

-- A destination as the engine is asked about it: a domain, empty if unknown, and an address.
unfoldable pub is_address : Ip → Ip → Bool
is_address a ip = not (is_empty ip) && equal (Ip.string a) (Ip.string ip)

unfoldable pub is_inside : IpNet → Ip → Bool
is_inside n ip = not (is_empty ip) && net_contains n ip

unfoldable pub is_named : Tables → Bytes → Bytes → Bool
is_named t host domain = not (is_empty domain) && equal (to_lower t host) (to_lower t domain)

unfoldable pub is_below : Tables → Bytes → Bytes → Bool
is_below t suffix domain =
    not (is_empty domain) && has_suffix (to_lower t domain) (codes "." ++ to_lower t suffix)

unfoldable pub covers_plain : Tables → Bytes → Bytes → Ip → Bool
covers_plain t host domain ip = elim (parse_ip host) [
  | some a ↦ is_address a ip
  | none ↦ elim (parse_cidr host) [ some n ↦ is_inside n ip | none ↦ is_named t host domain ]
]

unfoldable pub covers_host : Tables → Bytes → Bytes → Ip → Bool
covers_host t host domain ip =
    if is_empty host then false else elim (cut_prefix (codes "*.") host) [
      | some suffix ↦ is_below t suffix domain
      | none ↦ covers_plain t host domain ip
    ]

-- An entry covers its address, the addresses of its network, its domain, or the proper subdomains
-- of its wildcard.
unfoldable pub covers : Tables → Bytes → Bytes → Ip → Bool
unfolding is_address is_inside is_named is_below covers_plain covers_host
covers t raw domain ip = elim (parse_ip (trim_space raw)) [
  | some a ↦ is_address a ip
  | none ↦ covers_host t (host_of (trim_space raw)) domain ip
]
