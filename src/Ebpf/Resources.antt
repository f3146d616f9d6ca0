-- ===== src/Ebpf/Resources.antt =====
-- The kernel resources of a watcher: `newWatcher`, `attachBlock` and `Close` of
-- internal/ebpf/loader.go, and `newDNSWatcher` and `Close` of internal/ebpf/dns_watcher.go, as the
-- log of what they acquire and release. Which acquisitions succeed is a parameter.
use field_cage.Base.{
  Bool, true, false, ◌||◌, ◌&&◌, not, List, [], ◌∷◌, ◌++◌, if◌then◌else◌, Result, ok, err,
}

pub data Resource : Type 0 where
  connect_objects enter_tracepoint exit_tracepoint event_reader : Resource
  block_objects link4 link6 send4 send6 : Resource
  dns_objects dns_socket dns_reader : Resource

pub data Action : Type 0 where
  acquire release : Resource → Action

-- What succeeds: the removal of the limit on locked memory, each acquisition, and the attachment of
-- the DNS filter to its socket.
pub record Kernel : Type 0 where
  pub removes_memlock : Bool
  pub grants : Resource → Bool
  pub attaches_filter : Bool

-- the log of a function that may fail
pub record Attempt : Type 0 where
  pub succeeds : Bool
  pub log : List Action

abbrev pub fail : List Action → Attempt
fail log = record { succeeds = false; log = log }

-- The log so far, and the releases that are due on an error, the first one first.
pub record Opening : Type 0 where
  pub log : List Action
  pub cleanups : List Action

-- What a watcher holds, with its log.
pub record Watcher : Type 0 where
  pub block : Bool
  pub dns : Bool
  pub log : List Action

abbrev pub block_cleanups : List Action
block_cleanups =
    release send6 ∷ release send4 ∷ release link6 ∷ release link4 ∷ release block_objects ∷ []

infixl 5 ◌>>=◌
abbrev pub ◌>>=◌ :
    Result Opening Opening → (Opening → Result Opening Opening) → Result Opening Opening
ok s >>= f = f s
err s >>= f = err s

module _ (k : Kernel) where
  open k use {grants}

  -- `attachBlock`
  unfoldable pub attach_block : Attempt
  attach_block =
      if not (grants block_objects)
      then fail []
      else if not (grants link4)
      then fail (acquire block_objects ∷ release block_objects ∷ [])
      else if not (grants link6)
      then fail (acquire block_objects ∷ acquire link4 ∷ release link4 ∷ release block_objects ∷ [])
      else if not (grants send4)
      then fail (
          acquire block_objects
          ∷ acquire link4
          ∷ acquire link6
          ∷ release link6
          ∷ release link4
          ∷ release block_objects
          ∷ [])
      else if not (grants send6)
      then fail (
          acquire block_objects
          ∷ acquire link4
          ∷ acquire link6
          ∷ acquire send4
          ∷ release send4
          ∷ release link6
          ∷ release link4
          ∷ release block_objects
          ∷ [])
      else record {
        succeeds = true;
        log =
            acquire block_objects
            ∷ acquire link4
            ∷ acquire link6
            ∷ acquire send4
            ∷ acquire send6
            ∷ [];
      }

  -- `newDNSWatcher`
  unfoldable pub new_dns_watcher : Attempt
  new_dns_watcher =
      if not (grants dns_objects)
      then fail []
      else if not (grants dns_socket)
      then fail (acquire dns_objects ∷ release dns_objects ∷ [])
      else if not k.attaches_filter || not (grants dns_reader)
      then fail
          (acquire dns_objects ∷ acquire dns_socket ∷ release dns_socket ∷ release dns_objects ∷ [])
      else record {
        succeeds = true;
        log = acquire dns_objects ∷ acquire dns_socket ∷ acquire dns_reader ∷ [];
      }

  -- a resource with its release on the cleanup stack
  unfoldable pub acquire_one : Resource → Opening → Result Opening Opening
  acquire_one r s =
      if grants r
      then ok (record { log = s.log ++ acquire r ∷ []; cleanups = release r ∷ s.cleanups })
      else err s

  unfoldable pub attach : Bool → Opening → Result Opening Opening
  unfolding attach_block
  attach with_block s =
      let logged = record s { log = s.log ++ attach_block.log } in
      if not with_block
      then ok s
      else if attach_block.succeeds
      then ok (record logged { cleanups = block_cleanups ++ s.cleanups })
      else err logged

  abbrev no_resource : Opening
  no_resource = record { log = []; cleanups = [] }

  abbrev pub start : Result Opening Opening
  start = if k.removes_memlock then ok no_resource else err no_resource

  -- everything but the DNS watcher
  unfoldable pub open_all : Bool → Result Opening Opening
  unfolding acquire_one attach
  open_all with_block =
      start
      >>= acquire_one connect_objects
      >>= acquire_one enter_tracepoint
      >>= acquire_one exit_tracepoint
      >>= acquire_one event_reader
      >>= attach with_block

  -- The DNS watcher is required in block mode, and else left out if it fails.
  abbrev pub with_dns : Bool → Result Opening Opening → Attempt → Result (List Action) Watcher
  with_dns with_block (err s) dns = err (s.log ++ s.cleanups)
  with_dns with_block (ok s) dns =
      if not dns.succeeds && with_block
      then err (s.log ++ (dns.log ++ s.cleanups))
      else ok (record { block = with_block; dns = dns.succeeds; log = s.log ++ dns.log })

  -- `newWatcher`: an error leaves the log that ends with the cleanups
  unfoldable pub new_watcher : Bool → Result (List Action) Watcher
  unfolding open_all new_dns_watcher
  new_watcher with_block = with_dns with_block (open_all with_block) new_dns_watcher

-- `dnsWatcher.Close`
abbrev pub close_dns : List Action
close_dns = release dns_reader ∷ release dns_socket ∷ release dns_objects ∷ []

-- `Watcher.Close`, which goes on after an error
unfoldable pub close : Watcher → List Action
close w =
    (if w.dns then close_dns else [])
    ++ ((if w.block then block_cleanups else [])
        ++ (release event_reader
            ∷ release exit_tracepoint
            ∷ release enter_tracepoint
            ∷ release connect_objects
            ∷ []))
