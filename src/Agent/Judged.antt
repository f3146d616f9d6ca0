-- ===== src/Agent/Judged.antt =====
-- The verdict of a connection against the allowlist.
use field_cage.Base.{ℕ, Bool, ◌||◌, ◌&&◌, not, some, ◌==◌, any, ◌≡◌, arith, ok}
use field_cage.Text.Bytes.{Bytes, equal, has_prefix, cut_prefix}
use field_cage.Text.Case.{Tables}
use field_cage.Net.Ip.{Ip, is_loopback}
use field_cage.Policy.Engine.{Config, Engine}
use field_cage.Policy.Build.{new_engine}
use field_cage.Policy.Decide.{allow}
use field_cage.Policy.Spec.{covers}
use field_cage.Policy.Refine.{allow-covers}
use field_cage.Report.Verdict.{DnsExempt, exempts, verdict_for, is_deny, is_allow, is_skip}

module _ (dport : ℕ) (daddr : Ip) (domain : Bytes) (exempt : DnsExempt) where
  -- traffic that is never judged
  abbrev pub passes : Bool
  passes = (dport == 53 && exempts exempt daddr) || is_loopback daddr

  verdict-cases :
      (f : Bytes → Ip → Bool)
      → (is_skip (verdict_for dport daddr domain (some f) exempt) ≡ passes)
        × (is_deny (verdict_for dport daddr domain (some f) exempt)
            ≡ not passes && not (f domain daddr))
        × (is_allow (verdict_for dport daddr domain (some f) exempt) ≡ not passes && f domain daddr)
  unfolding verdict_for is_skip is_deny is_allow has_prefix cut_prefix equal
  verdict-cases f = (ground arith, ground arith, ground arith)

-- With a policy that was built, a connection is skipped if it is exempt DNS traffic or goes to a
-- loopback address, and else it is allowed if an entry of the allowlist covers it and denied if none
-- does.
pub verdict-covers :
    (t : Tables) (cfg : Config) (e : Engine) (dport : ℕ) (daddr : Ip) (domain : Bytes)
    (exempt : DnsExempt)
    → new_engine t cfg ≡ ok e
    → (is_skip (verdict_for dport daddr domain (some (allow t e)) exempt)
        ≡ passes dport daddr domain exempt)
      × (is_deny (verdict_for dport daddr domain (some (allow t e)) exempt)
          ≡ not (passes dport daddr domain exempt)
            && not (any (λ raw. covers t raw domain daddr) cfg.allowlist))
      × (is_allow (verdict_for dport daddr domain (some (allow t e)) exempt)
          ≡ not (passes dport daddr domain exempt)
            && any (λ raw. covers t raw domain daddr) cfg.allowlist)
verdict-covers t cfg e dport daddr domain exempt built =
    let (skips, denies, allows) = verdict-cases dport daddr domain exempt (allow t e) in
    let same = allow-covers t cfg e domain daddr built in
    (skips, rw same at denies, rw same at allows)
