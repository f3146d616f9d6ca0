-- ===== src/Agent/Seed.antt =====
-- `seedAllowlist`. The lookups run concurrently and each writes its own slot of the results, which
-- are read in order once all have ended; the resolver is the parameter `resolve`, with `none` for
-- a failed lookup.
use field_cage.Base.{Bool, List, [], ◌∷◌, Option, none, some}
use field_cage.Text.Bytes.{Bytes}
use field_cage.Net.Ip.{Ip}
use field_cage.Net.Cidr.{IpNet}
use field_cage.Policy.Engine.{Engine}
use field_cage.Policy.Decide.{domains, ips, cidrs}
use field_cage.Ebpf.Maps.{KernelMaps}
use field_cage.Ebpf.Watcher.{Block, allow_ip, allow_cidr, set_allow_all_dns}

-- what `slog.Warn` reports
pub data Warning : Type 0 where
  set_dns_failed : Warning
  ip_failed : Ip → Warning
  cidr_failed : IpNet → Warning
  resolve_failed : Bytes → Warning
  resolved_ip_failed : Bytes → Ip → Warning

module _ (lib : KernelMaps) where
  -- the maps, and the warnings so far, the last one first
  pub record Seeded : Type 0 where
    pub block : Block lib
    pub warnings : List Warning

  -- a write that is logged if it fails
  unfoldable pub attempt : Warning → Seeded → Option (Block lib) → Seeded
  attempt w s none = record s { warnings = w ∷ s.warnings }
  attempt w s (some b) = record s { block = b }

  unfoldable pub seed_dns : Bool → Seeded → Seeded
  unfolding attempt
  seed_dns enabled s = attempt set_dns_failed s (set_allow_all_dns lib s.block enabled)

  unfoldable pub seed_ips : (Ip → Warning) → List Ip → Seeded → Seeded
  unfolding attempt
  seed_ips w [] s = s
  seed_ips w (ip ∷ rest) s = seed_ips w rest (attempt (w ip) s (allow_ip lib s.block ip))

  unfoldable pub seed_cidrs : List IpNet → Seeded → Seeded
  unfolding attempt
  seed_cidrs [] s = s
  seed_cidrs (n ∷ rest) s = seed_cidrs rest (attempt (cidr_failed n) s (allow_cidr lib s.block n))

  unfoldable pub seed_result : Bytes → Option (List Ip) → Seeded → Seeded
  unfolding seed_ips
  seed_result domain none s = record s { warnings = resolve_failed domain ∷ s.warnings }
  seed_result domain (some found) s = seed_ips (resolved_ip_failed domain) found s

  unfoldable pub seed_domains : (Bytes → Option (List Ip)) → List Bytes → Seeded → Seeded
  unfolding seed_result
  seed_domains resolve [] s = s
  seed_domains resolve (d ∷ ds) s = seed_domains resolve ds (seed_result d (resolve d) s)

  unfoldable pub seed_allowlist : (Bytes → Option (List Ip)) → Engine → Block lib → Seeded
  unfolding seed_dns seed_ips seed_cidrs seed_domains
  seed_allowlist resolve e b = seed_domains resolve (domains e) (
      seed_cidrs (cidrs e) (
        seed_ips ip_failed (ips e)
          (seed_dns e.allow_all_dns (record { block = b; warnings = [] }))))
