-- ===== src/Agent/Exempt.antt =====
-- `dnsExemptFor` and `verdictForEvent`.
use field_cage.Base.{ℕ, Bool, true, false, List, Option, none, some, ◌==◌, if◌then◌else◌, map}
use field_cage.Text.Bytes.{Bytes, is_empty}
use field_cage.Net.Ip.{Ip, string, is_loopback}
use field_cage.Policy.Engine.{Engine, has_key}
use field_cage.Report.Verdict.{Verdict, skip_self, Allower, DnsExempt, verdict_for}

-- the predicate over the nameservers
unfoldable pub is_resolver : List Ip → Ip → Bool
is_resolver resolvers ip =
    if is_empty ip
    then false
    else if is_loopback ip
    then true
    else has_key (map string resolvers) (string ip)

unfoldable pub dns_exempt_for : Option Engine → List Ip → DnsExempt
unfolding is_resolver
dns_exempt_for none resolvers = none
dns_exempt_for (some e) resolvers =
    some (λ ip. if e.allow_all_dns then true else is_resolver resolvers ip)

unfoldable pub verdict_for_event : ℕ → ℕ → Ip → Bytes → ℕ → Allower → DnsExempt → Verdict
verdict_for_event tgid dport daddr domain self allower exempt =
    if tgid == self then skip_self else verdict_for dport daddr domain allower exempt
