-- ===== src/Report/Verdict.antt =====
-- internal/report/verdict.go
use field_cage.Base.{
  ℕ, ◌-◌, Bool, true, false, ◌&&◌, not, ◌++◌, Option, none, some, ◌==◌, if◌then◌else◌, replicate,
  length,
}
use field_cage.Text.Bytes.{Bytes, codes, equal, is_empty, has_prefix}
use field_cage.Text.Utf8.{chunks}
use field_cage.Text.Number.{decimal}
use field_cage.Net.Ip.{Ip, string, is_loopback}

abbrev pub Verdict : Type 0
Verdict = Bytes

abbrev pub allow : Verdict
allow = codes "ALLOW"

abbrev pub skip_dns : Verdict
skip_dns = codes "SKIP(dns)"

abbrev pub skip_loopback : Verdict
skip_loopback = codes "SKIP(loopback)"

abbrev pub skip_self : Verdict
skip_self = codes "SKIP(self)"

abbrev pub deny_no_domain : Verdict
deny_no_domain = codes "DENY(no-domain)"

abbrev pub deny_policy : Verdict
deny_policy = codes "DENY(not-in-policy)"

-- `Allower`; `none` is the nil interface
abbrev pub Allower : Type 0
Allower = Option (Bytes → Ip → Bool)

-- `DNSExempt`; `none` is the nil function
abbrev pub DnsExempt : Type 0
DnsExempt = Option (Ip → Bool)

abbrev pub exempts : DnsExempt → Ip → Bool
exempts none ip = true
exempts (some f) ip = f ip

abbrev pub refuses : Allower → Bytes → Ip → Bool
refuses none domain ip = false
refuses (some f) domain ip = not (f domain ip)

unfoldable pub verdict_for : ℕ → Ip → Bytes → Allower → DnsExempt → Verdict
verdict_for dport daddr domain allower exempt =
    if dport == 53 && exempts exempt daddr
    then skip_dns
    else if is_loopback daddr
    then skip_loopback
    else if refuses allower domain daddr
    then (if is_empty domain then deny_no_domain else deny_policy)
    else allow

-- `Dst`
unfoldable pub dst : Bytes → Ip → Bytes
dst domain daddr =
    if is_empty domain then string daddr else domain ++ (codes " (" ++ (string daddr ++ codes ")"))

-- `Line`
pub record Line : Type 0 where
  pub verdict : Verdict
  pub pid : ℕ
  pub tgid : ℕ
  pub comm : Bytes
  pub dst : Bytes
  pub dport : ℕ

-- `%-ns`: spaces up to a width, which is counted in runes
unfoldable pub pad : ℕ → Bytes → Bytes
pad n s = s ++ replicate (n - length (chunks s)) b' '

-- `Line.String`
unfoldable pub line_string : Line → Bytes
line_string l =
    codes "verdict="
    ++ (pad 20 l.verdict
        ++ (codes " pid="
            ++ (pad 6 (decimal l.pid)
                ++ (codes " tgid="
                    ++ (pad 6 (decimal l.tgid)
                        ++ (codes " comm="
                            ++ (pad 16 l.comm
                                ++ (codes " dst="
                                    ++ (l.dst ++ (codes ":" ++ decimal l.dport))))))))))

unfoldable pub is_deny : Verdict → Bool
is_deny v = has_prefix v (codes "DENY")

unfoldable pub is_skip : Verdict → Bool
is_skip v = has_prefix v (codes "SKIP")

unfoldable pub is_allow : Verdict → Bool
is_allow v = equal v allow
