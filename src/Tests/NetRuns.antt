-- ===== src/Tests/NetRuns.antt =====
-- Runs of the model of the package net.
use field_cage.Base.{[], ◌∷◌, ◌≡◌, refl, none, some, replicate, ◌++◌}
use field_cage.Text.Bytes.{codes}
use field_cage.Text.Number.{decimal, parse_uint}
use field_cage.Net.Ip
use field_cage.Net.Parse.{parse_ip}
use field_cage.Net.Cidr.{parse_cidr}
use field_cage.Net.HostPort.{split_host_port}

parse_v4 : parse_ip (codes "192.168.0.1") ≡ some (Ip.mapped_prefix ++ 192 ∷ 168 ∷ 0 ∷ 1 ∷ [])
unfolding parse_ip
parse_v4 = refl

parse_v4_bad :
    (parse_ip (codes "1.2.3") ≡ none)
    × (parse_ip (codes "1.2.3.256") ≡ none)
    × (parse_ip (codes "01.2.3.4") ≡ none)
    × (parse_ip (codes "1..3.4") ≡ none)
    × (parse_ip (codes "1.2.3.4.5") ≡ none)
unfolding parse_ip
parse_v4_bad = (refl, refl, refl, refl, refl)

parse_v6 :
    (parse_ip (codes "2001:db8::1") ≡ some (0x20 ∷ 1 ∷ 0x0d ∷ 0xb8 ∷ (replicate 11 0 ++ 1 ∷ [])))
    × (parse_ip (codes "::1") ≡ some Ip.loopback6)
    × (parse_ip (codes "::") ≡ some (replicate 16 0))
    × (parse_ip (codes "::ffff:1.2.3.4") ≡ some (Ip.mapped_prefix ++ 1 ∷ 2 ∷ 3 ∷ 4 ∷ []))
    × (parse_ip (codes "1:2:3:4:5:6:7::")
        ≡ some (0 ∷ 1 ∷ 0 ∷ 2 ∷ 0 ∷ 3 ∷ 0 ∷ 4 ∷ 0 ∷ 5 ∷ 0 ∷ 6 ∷ 0 ∷ 7 ∷ 0 ∷ 0 ∷ []))
    × (parse_ip (codes "1:2:3:4:5:6:7:8::") ≡ none)
    × (parse_ip (codes "fe80::1%eth0") ≡ none)
    × (parse_ip (codes "1::2::3") ≡ none)
unfolding parse_ip
parse_v6 = (refl, refl, refl, refl, refl, refl, refl, refl)

strings :
    (Ip.string (192 ∷ 168 ∷ 0 ∷ 1 ∷ []) ≡ codes "192.168.0.1")
    × (Ip.string (Ip.mapped_prefix ++ 1 ∷ 2 ∷ 3 ∷ 4 ∷ []) ≡ codes "1.2.3.4")
    × (Ip.string Ip.loopback6 ≡ codes "::1")
    × (Ip.string (replicate 16 0) ≡ codes "::")
    × (Ip.string (0x20 ∷ 1 ∷ 0x0d ∷ 0xb8 ∷ (replicate 11 0 ++ 1 ∷ [])) ≡ codes "2001:db8::1")
    × (Ip.string (0 ∷ 1 ∷ 0 ∷ 2 ∷ 0 ∷ 3 ∷ 0 ∷ 4 ∷ 0 ∷ 5 ∷ 0 ∷ 6 ∷ 0 ∷ 7 ∷ 0 ∷ 0xab ∷ [])
        ≡ codes "1:2:3:4:5:6:7:ab")
    × (Ip.string [] ≡ codes "<nil>")
unfolding Ip.string
strings = (refl, refl, refl, refl, refl, refl, refl)

hosts :
    (split_host_port (codes "kayac.com:443") ≡ some (codes "kayac.com"))
    × (split_host_port (codes "[2001:db8::1]:443") ≡ some (codes "2001:db8::1"))
    × (split_host_port (codes "2001:db8::1") ≡ none)
    × (split_host_port (codes "example.com") ≡ none)
    × (split_host_port (codes ":443") ≡ some [])
unfolding split_host_port
hosts = (refl, refl, refl, refl, refl)

nets :
    (parse_cidr (codes "10.1.2.3/8")
      ≡ some (record { ip = 10 ∷ 0 ∷ 0 ∷ 0 ∷ []; ones = 8; bits = 32 }))
    × (parse_cidr (codes "10.1.2.3/33") ≡ none)
    × (parse_cidr (codes "10.1.2.3") ≡ none)
unfolding parse_cidr
nets = (refl, refl, refl)

numbers :
    (decimal 0 ≡ codes "0")
    × (decimal 65535 ≡ codes "65535")
    × (parse_uint 16 (codes "65536") ≡ none)
unfolding decimal parse_uint
numbers = (refl, refl, refl)
