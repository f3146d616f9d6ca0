-- ===== src/Ebpf/Distinct.antt =====
-- The nameservers without duplicates.
use field_cage.Base.{
  Bool, true, ◌||◌, ◌&&◌, not, List, [], ◌∷◌, ◌++◌, if◌then◌else◌, all, map, ◌≡◌, refl, arith,
  Bool-cases, inl, inr,
}
use field_cage.Text.Bytes.{Bytes}
use field_cage.Text.Equal.{equal_iff, equal_refl}
use field_cage.Net.Ip.{Ip, string, is_loopback}
use field_cage.Policy.Engine.{has_key}
use field_cage.Ebpf.Resolvers.{dedup, parse_resolv_conf, resolvers_from}

-- the texts that a list holds once
abbrev pub texts : List Ip → List Bytes
texts = map string

abbrev pub is_distinct : List Bytes → Bool
is_distinct [] = true
is_distinct (k ∷ ks) = not (has_key ks k) && is_distinct ks

has_key-dedup :
    (ips : List Ip) (seen : List Bytes) (k : Bytes)
    → has_key (texts (dedup seen ips)) k ≡ not (has_key seen k) && has_key (texts ips) k
unfolding dedup has_key
has_key-dedup [] seen k = ground arith
has_key-dedup (ip ∷ ips) seen k = elim (Bool-cases (has_key seen (string ip))) [
  | inl a ↦ rw (a, dedup) (ground (arith, has_key-dedup ips seen k, equal_iff (string ip) k))
  | inr a ↦
      rw (a, dedup)
        (ground (arith, has_key-dedup ips (string ip ∷ seen) k, equal_iff (string ip) k))
]

is_distinct-dedup :
    (ips : List Ip) (seen : List Bytes) → is_distinct (texts (dedup seen ips)) ≡ true
unfolding dedup has_key
is_distinct-dedup [] seen = refl
is_distinct-dedup (ip ∷ ips) seen = elim (Bool-cases (has_key seen (string ip))) [
  | inl a ↦ rw (a, dedup) (is_distinct-dedup ips seen)
  | inr a ↦
      rw (a, dedup)
        (ground (
          arith,
          is_distinct-dedup ips (string ip ∷ seen),
          has_key-dedup ips (string ip ∷ seen) (string ip),
          equal_refl (string ip),
        ))
]

has_key-texts_append :
    (ips jps : List Ip) (k : Bytes)
    → has_key (texts (ips ++ jps)) k ≡ has_key (texts ips) k || has_key (texts jps) k
unfolding has_key
has_key-texts_append [] jps k = refl
has_key-texts_append (ip ∷ ips) jps k = ground (arith, has_key-texts_append ips jps k)

-- the lists that are joined before the duplicates are dropped
joined :
    (found more : List Ip) (k : Bytes)
    → (is_distinct (texts (dedup [] (if all is_loopback found then found ++ more else found)))
        ≡ true)
      × (has_key (texts (dedup [] (if all is_loopback found then found ++ more else found))) k
          ≡ has_key (texts found) k || all is_loopback found && has_key (texts more) k)
unfolding has_key
joined found more k =
    let ips = if all is_loopback found then found ++ more else found in
    (
      is_distinct-dedup ips [],
      ground (arith, has_key-dedup ips [] k, has_key-texts_append found more k),
    )

-- The nameservers of a host have distinct texts, and are those of /etc/resolv.conf, with those of
-- the file of systemd-resolved if the former name loopback addresses only.
pub resolvers_from-distinct :
    (etc run : Bytes) (k : Bytes)
    → (is_distinct (texts (resolvers_from etc run)) ≡ true)
      × (has_key (texts (resolvers_from etc run)) k
          ≡ has_key (texts (parse_resolv_conf etc)) k
            || all is_loopback (parse_resolv_conf etc) && has_key (texts (parse_resolv_conf run)) k)
unfolding resolvers_from
resolvers_from-distinct etc run k = joined (parse_resolv_conf etc) (parse_resolv_conf run) k
