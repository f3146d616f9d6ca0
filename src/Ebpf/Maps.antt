-- ===== src/Ebpf/Maps.antt =====
-- The eBPF maps of internal/ebpf/bpf/block.c, behind an interface: the kernel implements them, and
-- github.com/cilium/ebpf writes them. The laws are what the kernel documents of an LPM trie and of
-- a hash map.
use field_cage.Base.{ℕ, Bool, ◌||◌, Option, none, some, ◌≡◌, ltb, true}
use field_cage.Text.Bytes.{Bytes, equal}
use field_cage.Net.Cidr.{same_prefix}

-- `lpmKey` and `lpmKey6`; the address has 4 or 16 bytes.
pub record LpmKey : Type 0 where
  pub prefixlen : ℕ
  pub addr : Bytes

-- The prefix of a key covers an address of the same width.
unfoldable pub covers_key : LpmKey → Bytes → Bool
covers_key k a = same_prefix k.prefixlen k.addr a

pub record KernelMaps : Type 1 where
  pub Trie : Type 0
  pub HashSet : Type 0
  pub Slot : Type 0
  -- `Put` into a trie whose keys have at most `bits` bits; `none` is an error
  pub put_prefix : (bits : ℕ) → LpmKey → Trie → Option Trie
  pub has_prefix_of : Trie → Bytes → Bool
  pub put_member : Bytes → HashSet → Option HashSet
  pub has_member : HashSet → Bytes → Bool
  -- the one-element array that holds the configuration
  pub put_slot : Bool → Slot → Option Slot
  pub slot_is_set : Slot → Bool
  -- A lookup finds a prefix of the address if there is one.
  pub has_prefix_of-put_prefix :
      (bits : ℕ) (k : LpmKey) (m m' : Trie) (a : Bytes)
      → put_prefix bits k m ≡ some m'
      → has_prefix_of m' a ≡ (has_prefix_of m a || covers_key k a)
  -- A prefix longer than the address is refused.
  pub put_prefix_refuses :
      (bits : ℕ) (k : LpmKey) (m : Trie) → ltb bits k.prefixlen ≡ true → put_prefix bits k m ≡ none
  pub has_member-put_member :
      (k : Bytes) (m m' : HashSet) (a : Bytes)
      → put_member k m ≡ some m'
      → has_member m' a ≡ (has_member m a || equal k a)
  pub slot_is_set-put_slot : (b : Bool) (m m' : Slot) → put_slot b m ≡ some m' → slot_is_set m' ≡ b

-- `BlockObjects`: the maps of the enforcement programs.
pub record BlockMaps (lib : KernelMaps) : Type 0 where
  pub allowed_ips : KernelMaps.Trie lib
  pub allowed_ips6 : KernelMaps.Trie lib
  pub dns_resolvers : KernelMaps.HashSet lib
  pub dns_resolvers6 : KernelMaps.HashSet lib
  pub config : KernelMaps.Slot lib
