-- ===== src/Tests/Witnesses/Policies.antt =====
-- Instances of the theorems on the policy and the verdicts.
use field_cage.Base.{◌≤◌, ◌&&◌, not, [], ◌∷◌, none, some, any, All, ◌≡◌, ◌⊎◌, ◌↔◌, refl, ok, err}
use field_cage.Text.Bytes.{codes, equal, split, cut_prefix, has_suffix}
use field_cage.Text.Space.{trim_space}
use field_cage.Net.Parse.{parse_ip}
use field_cage.Net.HostPort.{split_host_port}
use field_cage.Text.Count.{count}
use field_cage.Text.Case.{to_lower}
use field_cage.Net.Ip.{string}
use field_cage.Net.Cidr.{parse_cidr}
use field_cage.Policy.Engine.{Config, Engine, has_key, block, put_ip, add_key}
use field_cage.Policy.Build.{new_engine, too_broad, invalid_mode}
use field_cage.Policy.Decide.{allow, is_allowed_domain}
use field_cage.Policy.Spec.{covers}
use field_cage.Policy.Refine.{allow-covers}
use field_cage.Policy.Judge.{IsEntry, IsMode}
use field_cage.Policy.Errors.{StopsAt, new_engine_iff, new_engine_refuses}
use field_cage.Policy.Wildcards.{allowed-dots}
use field_cage.Agent.Mode.{resolve_mode}
use field_cage.Agent.Effective.{IsEffective, resolve_mode_iff}
use field_cage.Agent.Judged.{passes, verdict-covers}
use field_cage.Report.Verdict.{verdict_for, is_skip, is_deny, is_allow}
use field_cage.Tests.Samples.{remote, plain_tables, sample}
use field_cage.Tests.PolicyRuns.{the_engine, builds}

allow-covers_example :
    allow plain_tables the_engine (codes "github.com") []
    ≡ any (λ raw. covers plain_tables raw (codes "github.com") []) sample.allowlist
allow-covers_example = allow-covers plain_tables sample the_engine (codes "github.com") [] builds

new_engine_iff_example :
    ((e : Engine) × (new_engine plain_tables sample ≡ ok e))
    ↔ (IsMode sample.mode × All IsEntry sample.allowlist)
new_engine_iff_example = new_engine_iff plain_tables sample

abbrev broad : Config
broad = record sample { allowlist = codes "github.com" ∷ codes "*.com" ∷ [] }

broad_refused : new_engine plain_tables broad ≡ err (too_broad (codes "*.com"))
unfolding new_engine string to_lower trim_space parse_ip parse_cidr split_host_port split cut_prefix
    equal put_ip add_key
broad_refused = refl

new_engine_refuses_example :
    (¬ IsMode broad.mode × (too_broad (codes "*.com") ≡ invalid_mode broad.mode))
    ⊎ StopsAt broad.allowlist (too_broad (codes "*.com"))
new_engine_refuses_example =
    new_engine_refuses plain_tables broad (too_broad (codes "*.com")) broad_refused

allowed-dots_example : 2 ≤ count b'.' (codes "raw.githubusercontent.com")
unfolding is_allowed_domain to_lower has_key equal has_suffix
allowed-dots_example =
    allowed-dots plain_tables sample the_engine (codes "raw.githubusercontent.com") builds refl refl

verdict-covers_example :
    (is_skip (verdict_for 443 remote [] (some (allow plain_tables the_engine)) none)
      ≡ passes 443 remote [] none)
    × (is_deny (verdict_for 443 remote [] (some (allow plain_tables the_engine)) none)
        ≡ not (passes 443 remote [] none)
          && not (any (λ raw. covers plain_tables raw [] remote) sample.allowlist))
    × (is_allow (verdict_for 443 remote [] (some (allow plain_tables the_engine)) none)
        ≡ not (passes 443 remote [] none)
          && any (λ raw. covers plain_tables raw [] remote) sample.allowlist)
verdict-covers_example = verdict-covers plain_tables sample the_engine 443 remote [] none builds

resolve_mode_iff_example :
    (resolve_mode block (some the_engine) ≡ ok block) ↔ IsEffective block (some the_engine) block
resolve_mode_iff_example = resolve_mode_iff block (some the_engine) block
