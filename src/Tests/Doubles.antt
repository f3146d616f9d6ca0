-- ===== src/Tests/Doubles.antt =====
-- Maps and a message parser that stand for those outside the program.
use field_cage.Base.{
  ℕ, zero, suc, ◌<◌, Bool, true, false, ◌||◌, List, [], ◌∷◌, Option, none, some, ltb, if◌then◌else◌,
  any, length, take, drop, ◌≡◌, refl, arith,
}
use field_cage.Text.Bytes.{Bytes, codes, equal}
use field_cage.Ebpf.Maps.{KernelMaps, BlockMaps, LpmKey, covers_key}
use field_cage.Ebpf.Dns.{Parser, AnswerHeader}

pub prefix_law :
    (bits : ℕ) (k : LpmKey) (m m' : List LpmKey) (a : Bytes)
    → (if ltb bits k.prefixlen then none else some (k ∷ m)) ≡ some m'
    → any (λ j. covers_key j a) m' ≡ (any (λ j. covers_key j a) m || covers_key k a)
prefix_law bits k m m' a h = let same : k ∷ m ≡ m' = ground arith in rw (← same) (ground arith)

pub member_law :
    (k : Bytes) (m m' : List Bytes) (a : Bytes)
    → some (k ∷ m) ≡ some m'
    → any (λ j. equal j a) m' ≡ (any (λ j. equal j a) m || equal k a)
member_law k m m' a h = let same : k ∷ m ≡ m' = ground arith in rw (← same) (ground arith)

pub refusal_law :
    (bits : ℕ) (k : LpmKey) (m : List LpmKey)
    → ltb bits k.prefixlen ≡ true
    → (if ltb bits k.prefixlen then none else some (k ∷ m)) ≡ none
refusal_law bits k m h = ground arith

pub slot_law : (b : Bool) (m m' : Bool) → some b ≡ some m' → m' ≡ b
slot_law b m m' h = ground arith

-- tries and sets as lists, which are never full
abbrev pub list_maps : KernelMaps
list_maps = record {
  Trie = List LpmKey;
  HashSet = List Bytes;
  Slot = Bool;
  put_prefix = λ bits k m. if ltb bits k.prefixlen then none else some (k ∷ m);
  has_prefix_of = λ m a. any (λ k. covers_key k a) m;
  put_member = λ k m. some (k ∷ m);
  has_member = λ m a. any (λ k. equal k a) m;
  put_slot = λ b m. some b;
  slot_is_set = λ m. m;
  has_prefix_of-put_prefix = prefix_law;
  put_prefix_refuses = refusal_law;
  has_member-put_member = member_law;
  slot_is_set-put_slot = slot_law;
}

abbrev pub empty_maps : BlockMaps list_maps
empty_maps = record {
  allowed_ips = [];
  allowed_ips6 = [];
  dns_resolvers = [];
  dns_resolvers6 = [];
  config = false;
}

-- the addresses of a payload, four bytes each
abbrev pub addresses : ℕ → Bytes → List Bytes
addresses zero s = []
addresses (suc n) [] = []
addresses (suc n) (c ∷ s) = take 4 (c ∷ s) ∷ addresses n (drop 3 s)

abbrev pub header_of : List Bytes → Option (AnswerHeader × List Bytes)
header_of [] = none
header_of (ip ∷ ips) = some (record { kind = 1; size = 4 }, ip ∷ ips)

abbrev pub address_of : List Bytes → Option (Bytes × List Bytes)
address_of [] = none
address_of (ip ∷ ips) = some (ip, ips)

abbrev pub skip_of : List Bytes → Option (List Bytes)
skip_of [] = none
skip_of (ip ∷ ips) = some ips

pub header_law :
    (p p' : List Bytes) (h : AnswerHeader)
    → header_of p ≡ some (h, p')
    → 0 < length p × (length p' ≡ length p)
header_law [] p' h e = absurd (ground arith)
header_law (ip ∷ ips) p' h e =
    let same : ip ∷ ips ≡ p' = ground arith in rw (← same) (omega arith, refl)

pub address_law :
    (p p' : List Bytes) (ip : Bytes) → address_of p ≡ some (ip, p') → length p' < length p
address_law [] p' ip e = absurd (ground arith)
address_law (jp ∷ ips) p' ip e = let same : ips ≡ p' = ground arith in rw (← same) (omega arith)

pub skip_law : (p p' : List Bytes) → skip_of p ≡ some p' → length p' < length p
skip_law [] p' e = absurd (ground arith)
skip_law (jp ∷ ips) p' e = let same : ips ≡ p' = ground arith in rw (← same) (omega arith)

-- a parser of responses about github.com that hold nothing but IPv4 addresses
abbrev pub list_parser : Parser
list_parser = record {
  P = List Bytes;
  start = λ s. some (true, addresses (length s) s);
  question = λ p. some (codes "github.com.", p);
  skip_questions = λ p. some p;
  answer_header = header_of;
  a_resource = address_of;
  aaaa_resource = address_of;
  skip_answer = skip_of;
  answers_left = length;
  header_left = header_law;
  a_left = address_law;
  aaaa_left = address_law;
  skip_left = skip_law;
}
