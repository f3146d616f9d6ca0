-- ===== src/Tests/PolicyRuns.antt =====
-- Runs of the policy engine.
use field_cage.Base.{true, false, [], ◌∷◌, ◌≡◌, refl, replicate, ◌++◌, ok, err}
use field_cage.Text.Bytes.{codes, split, cut_prefix, equal, has_suffix}
use field_cage.Text.Space.{trim_space}
use field_cage.Text.Case.{to_lower}
use field_cage.Net.Ip.{string}
use field_cage.Net.Parse.{parse_ip}
use field_cage.Net.Cidr.{parse_cidr, net_contains}
use field_cage.Net.HostPort.{split_host_port}
use field_cage.Policy.Engine.{Engine, block, put_ip, add_key, has_key}
use field_cage.Policy.Build.{new_engine, too_broad, unsupported_wildcard, malformed_entry}
use field_cage.Policy.Decide.{allow}
use field_cage.Tests.Samples.{plain_tables, sample}

abbrev pub the_engine : Engine
the_engine = record {
  mode = block;
  domains = codes "github.com" ∷ codes "kayac.com" ∷ [];
  wildcards = codes ".githubusercontent.com" ∷ [];
  allowed_ip =
      (codes "1.2.3.4", replicate 10 0 ++ 255 ∷ 255 ∷ 1 ∷ 2 ∷ 3 ∷ 4 ∷ [])
      ∷ (codes "2001:db8::1", 0x20 ∷ 1 ∷ 0x0d ∷ 0xb8 ∷ (replicate 11 0 ++ 1 ∷ []))
      ∷ (codes "203.0.113.10", replicate 10 0 ++ 255 ∷ 255 ∷ 203 ∷ 0 ∷ 113 ∷ 10 ∷ [])
      ∷ [];
  cidrs =
      record { ip = 10 ∷ 0 ∷ 0 ∷ 0 ∷ []; ones = 8; bits = 32 }
      ∷ record { ip = 0x20 ∷ 1 ∷ 0x0d ∷ 0xb8 ∷ replicate 12 0; ones = 32; bits = 128 }
      ∷ [];
  allow_all_dns = false;
}

pub builds : new_engine plain_tables sample ≡ ok the_engine
unfolding new_engine string to_lower trim_space parse_ip parse_cidr split_host_port split cut_prefix
    equal put_ip add_key
builds = refl

rejects :
    (new_engine plain_tables (record sample { allowlist = codes "*.com" ∷ [] })
      ≡ err (too_broad (codes "*.com")))
    × (new_engine plain_tables (record sample { allowlist = codes "api.*.com" ∷ [] })
        ≡ err (unsupported_wildcard (codes "api.*.com")))
    × (new_engine plain_tables (record sample { allowlist = codes "example.com::443" ∷ [] })
        ≡ err (malformed_entry (codes "example.com::443")))
unfolding new_engine string to_lower trim_space parse_ip parse_cidr split_host_port split cut_prefix
    equal put_ip add_key
rejects = (refl, refl, refl)

decides :
    (allow plain_tables the_engine (codes "raw.GITHUBusercontent.com") [] ≡ true)
    × (allow plain_tables the_engine (codes "githubusercontent.com") [] ≡ false)
    × (allow plain_tables the_engine (codes "GitHub.com") [] ≡ true)
    × (allow plain_tables the_engine [] (10 ∷ 9 ∷ 8 ∷ 7 ∷ []) ≡ true)
    × (allow plain_tables the_engine [] (1 ∷ 2 ∷ 3 ∷ 4 ∷ []) ≡ true)
    × (allow plain_tables the_engine [] (1 ∷ 2 ∷ 3 ∷ 5 ∷ []) ≡ false)
unfolding allow string net_contains to_lower has_suffix has_key
decides = (refl, refl, refl, refl, refl, refl)
