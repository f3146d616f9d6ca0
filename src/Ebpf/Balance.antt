-- ===== src/Ebpf/Balance.antt =====
-- No resource of a watcher leaks.
use field_cage.Base.{
  Bool, true, false, ◌||◌, not, List, [], ◌∷◌, ◌++◌, some, if◌then◌else◌, ◌≡◌, refl, ◌∙◌,
  Bool-cases, inl, inr, Result, ok, err,
}
use field_cage.Ebpf.Resources.{
  Resource, Action, acquire, release, Kernel, Attempt, Opening, Watcher, attach_block,
  new_dns_watcher, acquire_one, attach, open_all, new_watcher, close, connect_objects,
  enter_tracepoint, exit_tracepoint, event_reader, block_objects, link4, link6, send4, send6,
  dns_objects, dns_socket, dns_reader, start, with_dns, block_cleanups,
}
use field_cage.Ebpf.Replay.{
  replay, replay-append, IsBalanced, onward, Balanced, bind-Balanced, number_refl,
}

module _ (k : Kernel) where
  acquire_one-Balanced :
      (due : List Action) (r : Resource) (s : Opening)
      → IsBalanced s
      → s.cleanups ≡ due
      → Balanced (release r ∷ due) (acquire_one k r s)
  unfolding acquire_one
  acquire_one-Balanced due r s h d = elim (Bool-cases (k.grants r)) [
    | inr e ↦ rw (e, acquire_one) h
    | inl e ↦
        rw (e, acquire_one)
          (
            record {
              held = r ∷ h.held;
              opened = onward s.log (acquire r ∷ []) h.held (r ∷ h.held) h.opened refl;
              undone = rw (number_refl r) h.undone;
            },
            cc d,
          )
  ]

  -- a log that opens some resources, or none if it fails
  abbrev Opens : List Resource → List Resource → Attempt → Type 0
  Opens new held a = replay a.log held ≡ some (if a.succeeds then new ++ held else held)

  if-Opens :
      (new held : List Resource) (b : Bool) (x y : Attempt)
      → Opens new held x
      → Opens new held y
      → Opens new held (if b then x else y)
  if-Opens new held true x y p q = p
  if-Opens new held false x y p q = q

  abbrev block_resources : List Resource
  block_resources = send6 ∷ send4 ∷ link6 ∷ link4 ∷ block_objects ∷ []

  attach_block-Opens : (held : List Resource) → Opens block_resources held (attach_block k)
  unfolding attach_block
  attach_block-Opens held = if-Opens block_resources held (not (k.grants block_objects)) _ _ refl (
      if-Opens block_resources held (not (k.grants link4)) _ _ refl (
        if-Opens block_resources held (not (k.grants link6)) _ _ refl (
          if-Opens block_resources held (not (k.grants send4)) _ _ refl
            (if-Opens block_resources held (not (k.grants send6)) _ _ refl refl))))

  abbrev dns_resources : List Resource
  dns_resources = dns_reader ∷ dns_socket ∷ dns_objects ∷ []

  new_dns_watcher-Opens : (held : List Resource) → Opens dns_resources held (new_dns_watcher k)
  unfolding new_dns_watcher
  new_dns_watcher-Opens held = if-Opens dns_resources held (not (k.grants dns_objects)) _ _ refl (
      if-Opens dns_resources held (not (k.grants dns_socket)) _ _ refl (
        if-Opens dns_resources held (not k.attaches_filter || not (k.grants dns_reader)) _ _ refl
          refl))

  abbrev cleanups_of_block : Bool → List Action
  cleanups_of_block b = if b then block_cleanups else []

  attach-Balanced :
      (due : List Action) (with_block : Bool) (s : Opening)
      → IsBalanced s
      → s.cleanups ≡ due
      → Balanced (cleanups_of_block with_block ++ due) (attach k with_block s)
  unfolding attach
  attach-Balanced due false s h d = (h, d)
  attach-Balanced due true s h d = elim (Bool-cases (attach_block k).succeeds) [
    | inl e ↦
        rw (e, attach)
          (
            record {
              held = block_resources ++ h.held;
              opened =
                  onward s.log (attach_block k).log h.held (block_resources ++ h.held) h.opened
                    (rw e at (attach_block-Opens h.held));
              undone = h.undone;
            },
            cc d,
          )
    | inr e ↦
        rw (e, attach)
          (record {
            held = h.held;
            opened =
                onward s.log (attach_block k).log h.held h.held h.opened
                  (rw e at (attach_block-Opens h.held));
            undone = h.undone;
          })
  ]

  start-Balanced : Balanced [] (start k)
  start-Balanced = elim (Bool-cases k.removes_memlock) [
    | inl e ↦ rw e (record { held = []; opened = refl; undone = refl }, refl)
    | inr e ↦ rw e (record { held = []; opened = refl; undone = refl })
  ]

  abbrev trace_cleanups : List Action
  trace_cleanups =
      release event_reader
      ∷ release exit_tracepoint
      ∷ release enter_tracepoint
      ∷ release connect_objects
      ∷ []

  open_all-Balanced :
      (with_block : Bool)
      → Balanced (cleanups_of_block with_block ++ trace_cleanups) (open_all k with_block)
  unfolding open_all
  open_all-Balanced with_block =
      bind-Balanced trace_cleanups _ _ _
        (bind-Balanced _ _ _ _
          (bind-Balanced _ _ _ _
            (bind-Balanced _ _ _ _
              (bind-Balanced _ _ _ _ start-Balanced (acquire_one-Balanced _ connect_objects))
              (acquire_one-Balanced _ enter_tracepoint))
            (acquire_one-Balanced _ exit_tracepoint))
          (acquire_one-Balanced _ event_reader))
        (attach-Balanced trace_cleanups with_block)

  -- What `newWatcher` returns: an error has released everything, and what a watcher holds is released
  -- by its `Close`.
  abbrev Releases : Result (List Action) Watcher → Type 0
  Releases (err log) = replay log [] ≡ some []
  Releases (ok w) = replay (w.log ++ close w) [] ≡ some []

  with_dns-Releases :
      (with_block : Bool) (r : Result Opening Opening)
      → Balanced (cleanups_of_block with_block ++ trace_cleanups) r
      → Releases (with_dns k with_block r (new_dns_watcher k))
  unfolding close
  with_dns-Releases with_block (err s) h = onward s.log s.cleanups h.held [] h.opened h.undone
  with_dns-Releases with_block (ok s) (h, due) =
      let dns = new_dns_watcher k in
      let undone = rw due at h.undone in
      elim (Bool-cases (new_dns_watcher k).succeeds) [
        | inl e ↦
            let more = dns_resources ++ h.held in
            let opened =
              onward s.log dns.log h.held more h.opened (rw e at (new_dns_watcher-Opens h.held)) in
            rw (e, close) (onward (s.log ++ dns.log) _ more [] opened undone)
        | inr e ↦
            let same = rw e at (new_dns_watcher-Opens h.held) in
            let opened = onward s.log dns.log h.held h.held h.opened same in
            elim (Bool-cases with_block) [
              | inl b ↦
                  rw (e, b)
                    (onward s.log (dns.log ++ s.cleanups) h.held [] h.opened
                      (replay-append dns.log s.cleanups h.held ∙ rw same h.undone))
              | inr b ↦
                  let rest = rw b at undone in
                  rw (e, b, close) (onward (s.log ++ dns.log) _ h.held [] opened rest)
            ]
      ]

  new_watcher-Releases : (with_block : Bool) → Releases (new_watcher k with_block)
  unfolding new_watcher
  new_watcher-Releases with_block =
      with_dns-Releases with_block (open_all k with_block) (open_all-Balanced with_block)

-- Whatever the kernel grants, a watcher that fails to start has released each resource that it
-- acquired, the last acquired first.
pub new_watcher_undone :
    (k : Kernel) (with_block : Bool) (log : List Action)
    → new_watcher k with_block ≡ err log
    → replay log [] ≡ some []
new_watcher_undone k with_block log h = rw h at (new_watcher-Releases k with_block)

-- Whatever the kernel grants, the `Close` of a watcher that has started releases each resource that
-- it acquired, the last acquired first.
pub close_undone :
    (k : Kernel) (with_block : Bool) (w : Watcher)
    → new_watcher k with_block ≡ ok w
    → replay (w.log ++ close w) [] ≡ some []
close_undone k with_block w h = rw h at (new_watcher-Releases k with_block)
