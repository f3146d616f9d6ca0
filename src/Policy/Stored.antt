-- ===== src/Policy/Stored.antt =====
-- What the engine stores: each address under its own text, and networks of one of the two widths.
use field_cage.Base.{
  ℕ, List, [], ◌∷◌, ◌++◌, some, All, All-append, ◌≡◌, ◌⊎◌, refl, arith, Bool-cases, Option-cases,
  inl, inr, ok, Result-cases,
}
use field_cage.Text.Bytes.{Bytes, is_empty, has_byte, cut_first, codes, equal}
use field_cage.Text.Space.{trim_space}
use field_cage.Text.Case.{Tables}
use field_cage.Net.Ip
use field_cage.Net.Ip.{Ip}
use field_cage.Net.Parse.{Addr, parse_addr, form, parse_ip}
use field_cage.Net.Cidr.{IpNet, parse_cidr, prefix_length, masked}
use field_cage.Policy.Engine.{Config, Engine, put_ip}
use field_cage.Policy.Build.{
  Built, add_ip, host_of, add_suffix, add_wildcard, add_name, add_plain, add_host, add_trimmed,
  add_entry, add_entries, empty_engine, new_engine,
}

-- a pair of the map from texts to addresses
abbrev pub IsKeyed : Bytes × Ip → Type 0
IsKeyed p = p.0 ≡ Ip.string p.1

-- a network of IPv4 or of IPv6
abbrev pub IsWide : IpNet → Type 0
IsWide n = (n.bits ≡ 32) ⊎ (n.bits ≡ 128)

pub record IsStored (e : Engine) : Type 0 where
  pub keyed : All IsKeyed e.allowed_ip
  pub wide : All IsWide e.cidrs

put_ip-IsKeyed :
    (ip : Ip) (m : List (Bytes × Ip)) → All IsKeyed m → All IsKeyed (put_ip (Ip.string ip) ip m)
unfolding put_ip
put_ip-IsKeyed ip [] h = (refl, tt)
put_ip-IsKeyed ip ((k, v) ∷ m) h = elim (Bool-cases (equal k (Ip.string ip))) [
  | inl e ↦ rw e (refl, h.1)
  | inr e ↦ rw e (h.0, put_ip-IsKeyed ip m h.1)
]

add_ip-IsStored : (e : Engine) (ip : Ip) → IsStored e → IsStored (add_ip e ip)
unfolding add_ip
add_ip-IsStored e ip h = record { keyed = put_ip-IsKeyed ip e.allowed_ip h.keyed; wide = h.wide }

-- the width of a parsed address
abbrev HasWidth : Addr → Type 0
HasWidth a = (a.bits ≡ 32) ⊎ (a.bits ≡ 128)

form-HasWidth : (whole s : Bytes) (a : Addr) → form whole s ≡ some a → HasWidth a
unfolding form
form-HasWidth whole [] a h = absurd (ground arith)
form-HasWidth whole (c ∷ s) a h = ground (arith, form-HasWidth whole s a)

parse_addr-HasWidth : (s : Bytes) (a : Addr) → parse_addr s ≡ some a → HasWidth a
unfolding parse_addr
parse_addr-HasWidth s a h = elim (Bool-cases (has_byte s b'%')) [
  | inl p ↦ absurd (ground arith)
  | inr p ↦ form-HasWidth s s a (rw (p, parse_addr) at h)
]

network_of-IsWide :
    (a : Addr) (ones : ℕ) (n : IpNet)
    → HasWidth a
    → some (record { ip = masked ones a.bits a.as16; ones = ones; bits = a.bits }) ≡ some n
    → IsWide n
network_of-IsWide a ones n w h = ground arith

parse_cidr-IsWide : (s : Bytes) (n : IpNet) → parse_cidr s ≡ some n → IsWide n
unfolding parse_cidr
parse_cidr-IsWide s n h = elim (Option-cases (cut_first (codes "/") s)) [
  | inl p ↦ absurd (ground arith)
  | inr (cut, p) ↦ elim (Option-cases (parse_addr cut.0)) [
    | inl q ↦ absurd (ground arith)
    | inr (a, q) ↦ elim (Option-cases (prefix_length a.bits cut.1)) [
      | inl r ↦ absurd (ground arith)
      | inr (ones, r) ↦
          network_of-IsWide a ones n (parse_addr-HasWidth cut.0 a q) (rw (p, q, r, parse_cidr) at h)
    ]
  ]
]

add_cidr-IsStored :
    (e : Engine) (n : IpNet)
    → IsWide n
    → IsStored e
    → IsStored (record e { cidrs = e.cidrs ++ n ∷ [] })
add_cidr-IsStored e n w h = record {
  keyed = h.keyed;
  wide = All-append IsWide e.cidrs (n ∷ []) h.wide (w, tt);
}

-- a step keeps what is stored
abbrev Keeps : Engine → Engine → Type 0
Keeps e e' = IsStored e → IsStored e'

-- an engine with the same addresses and networks
same-Keeps : (e e' : Engine) → e'.allowed_ip ≡ e.allowed_ip → e'.cidrs ≡ e.cidrs → Keeps e e'
same-Keeps e e' p q h = record { keyed = rw p h.keyed; wide = rw q h.wide }

ok-Keeps : (e e₁ e' : Engine) → ◌≡◌ {A = Built} (ok e₁) (ok e') → Keeps e e₁ → Keeps e e'
ok-Keeps e e₁ e' p k = let same : e₁ ≡ e' = ground arith in rw (← same) k

module _ (t : Tables) (e e' : Engine) (entry : Bytes) where
  add_wildcard-Keeps : (host : Bytes) → add_wildcard t e entry host ≡ ok e' → Keeps e e'
  unfolding add_wildcard add_suffix
  add_wildcard-Keeps host h = same-Keeps e e' (ground arith) (ground arith)

  add_name-Keeps : (host : Bytes) → add_name t e entry host ≡ ok e' → Keeps e e'
  unfolding add_name
  add_name-Keeps host h = same-Keeps e e' (ground arith) (ground arith)

  add_plain-Keeps : (host : Bytes) → add_plain t e entry host ≡ ok e' → Keeps e e'
  unfolding add_plain
  add_plain-Keeps host h = elim (Option-cases (parse_ip host)) [
    | inr (ip, p) ↦ ok-Keeps e (add_ip e ip) e' (rw (p, add_plain) at h) (add_ip-IsStored e ip)
    | inl p ↦ elim (Option-cases (parse_cidr host)) [
      | inr (n, q) ↦
          ok-Keeps e (record e { cidrs = e.cidrs ++ n ∷ [] }) e' (rw (p, q, add_plain) at h)
            (add_cidr-IsStored e n (parse_cidr-IsWide host n q))
      | inl q ↦ add_name-Keeps host (rw (p, q, add_plain) at h)
    ]
  ]

  add_host-Keeps : (host : Bytes) → add_host t e entry host ≡ ok e' → Keeps e e'
  unfolding add_host
  add_host-Keeps host h = elim (Bool-cases (is_empty host)) [
    | inl a ↦ ok-Keeps e e e' (rw (a, add_host) at h) (λ k. k)
    | inr a ↦ elim (Bool-cases (has_byte host b'*')) [
      | inl b ↦ add_wildcard-Keeps host (rw (a, b, add_host) at h)
      | inr b ↦ add_plain-Keeps host (rw (a, b, add_host) at h)
    ]
  ]

module _ (t : Tables) where
  add_entry-Keeps : (e e' : Engine) (raw : Bytes) → add_entry t e raw ≡ ok e' → Keeps e e'
  unfolding add_entry add_trimmed
  add_entry-Keeps e e' raw h = elim (Option-cases (parse_ip (trim_space raw))) [
    | inr (ip, p) ↦
        ok-Keeps e (add_ip e ip) e' (rw (p, add_entry, add_trimmed) at h) (add_ip-IsStored e ip)
    | inl p ↦
        add_host-Keeps t e e' (trim_space raw) (host_of (trim_space raw))
          (rw (p, add_entry, add_trimmed) at h)
  ]

  add_entries-Keeps :
      (raws : List Bytes) (e e' : Engine) → add_entries t e raws ≡ ok e' → Keeps e e'
  unfolding add_entries
  add_entries-Keeps [] e e' h = ok-Keeps e e e' h (λ k. k)
  add_entries-Keeps (raw ∷ raws) e e' h = elim (Result-cases (add_entry t e raw)) [
    | inl (e₁, s) ↦
        λ k. add_entries-Keeps raws e₁ e' (rw (s, add_entries) at h) (add_entry-Keeps e e₁ raw s k)
    | inr (x, s) ↦ absurd (ground arith)
  ]

  pub new_engine-IsStored : (cfg : Config) (e : Engine) → new_engine t cfg ≡ ok e → IsStored e
  unfolding new_engine
  new_engine-IsStored cfg e h =
      add_entries-Keeps cfg.allowlist (empty_engine cfg) e (ground arith)
        (record { keyed = tt; wide = tt })
