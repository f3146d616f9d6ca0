-- ===== src/Ebpf/Cache.antt =====
-- internal/ebpf/dns_cache.go: the map from canonical address texts to domains. The mutex makes each
-- operation atomic, so that a run of the program is a sequence of these.
use field_cage.Base.{List, [], ◌∷◌, if◌then◌else◌}
use field_cage.Text.Bytes.{Bytes, equal}
use field_cage.Net.Ip.{Ip, string}

abbrev pub DnsCache : Type 0
DnsCache = List (Bytes × Bytes)

-- `newDNSCache`
abbrev pub empty_cache : DnsCache
empty_cache = []

-- `c.entries[k]`, the empty text if there is none
unfoldable pub entry : DnsCache → Bytes → Bytes
entry [] k = []
entry ((j, v) ∷ c) k = if equal j k then v else entry c k

-- `c.entries[k] = v`
unfoldable pub put_entry : Bytes → Bytes → DnsCache → DnsCache
put_entry k v [] = (k, v) ∷ []
put_entry k v ((j, w) ∷ c) = if equal j k then (k, v) ∷ c else (j, w) ∷ put_entry k v c

unfoldable pub lookup : DnsCache → Ip → Bytes
unfolding entry
lookup c ip = entry c (string ip)

unfoldable pub set : DnsCache → Ip → Bytes → DnsCache
unfolding put_entry
set c ip domain = put_entry (string ip) domain c
