-- ===== src/Policy/Decide.antt =====
-- The decisions of the engine: `IsAllowedDomain`, `matchesWildcard` and `Allow`, with the lists that
-- seed the enforcement.
use field_cage.Base.{Bool, true, false, ◌||◌, ◌&&◌, not, List, if◌then◌else◌, any, map}
use field_cage.Text.Bytes.{Bytes, is_empty, has_suffix}
use field_cage.Text.Case.{Tables, to_lower}
use field_cage.Net.Ip
use field_cage.Net.Ip.{Ip}
use field_cage.Net.Cidr.{IpNet, net_contains}
use field_cage.Policy.Engine.{Engine, has_key, ip_keys}

unfoldable pub matches_wildcard : Engine → Bytes → Bool
matches_wildcard e domain = any (λ suffix. has_suffix domain suffix) e.wildcards

unfoldable pub is_allowed_domain : Tables → Engine → Bytes → Bool
unfolding matches_wildcard
is_allowed_domain t e domain =
    if is_empty domain
    then false
    else if has_key e.domains (to_lower t domain)
    then true
    else matches_wildcard e (to_lower t domain)

-- the part of `Allow` that looks at the address
unfoldable pub allows_ip : Engine → Ip → Bool
allows_ip e ip =
    not (is_empty ip)
    && (has_key (ip_keys e.allowed_ip) (Ip.string ip) || any (λ n. net_contains n ip) e.cidrs)

unfoldable pub allow : Tables → Engine → Bytes → Ip → Bool
unfolding allows_ip is_allowed_domain
allow t e domain ip =
    if allows_ip e ip then true else if is_empty domain then false else is_allowed_domain t e domain

-- `Domains`, in some order: the order of a Go map is not fixed
abbrev pub domains : Engine → List Bytes
domains e = e.domains

-- `IPs`
abbrev pub ips : Engine → List Ip
ips e = map (λ (p : Bytes × Ip). p.1) e.allowed_ip

-- `CIDRs`
abbrev pub cidrs : Engine → List IpNet
cidrs e = e.cidrs
