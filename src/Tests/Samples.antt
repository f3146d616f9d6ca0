-- ===== src/Tests/Samples.antt =====
-- Test data that several modules share.
use field_cage.Base.{false, List, [], ◌∷◌, refl}
use field_cage.Text.Bytes.{Bytes, codes}
use field_cage.Net.Ip.{Ip}
use field_cage.Text.Case.{Tables}
use field_cage.Policy.Engine.{Config, block}

-- Tables that know no letter beyond ASCII: each such rune is printed, and is its own lower case
-- but for the marks.
abbrev pub plain_tables : Tables
plain_tables = record { lower = λ r. b'x'; print = λ r. false; lower-ne-mark = λ r h. refl }

abbrev pub entries : List Bytes
entries =
    codes "github.com"
    ∷ codes "*.GithubUserContent.com"
    ∷ codes " 1.2.3.4 "
    ∷ codes "2001:db8::1"
    ∷ codes "10.0.0.0/8"
    ∷ codes "2001:db8::/32"
    ∷ codes "kayac.com:443"
    ∷ codes "203.0.113.10:443"
    ∷ []

abbrev pub sample : Config
sample = record { mode = block; allowlist = entries; allow_all_dns = false }

-- addresses of servers
abbrev pub remote : Ip
remote = 10 ∷ 1 ∷ 2 ∷ 3 ∷ []

abbrev pub github : Ip
github = 140 ∷ 82 ∷ 112 ∷ 4 ∷ []
