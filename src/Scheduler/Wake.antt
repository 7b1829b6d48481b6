-- ===== src/Scheduler/Wake.antt =====
-- `Suspension::wakeUp` and `scheduleWakers` together.
use crouton.Common.{
  ℕ, ◌==◌, ==_iff, eq_refl, Bool, true, false, Option, none, some, List, [], ◌∷◌, ◌++◌, ◌≡◌, refl,
  arith, elem, Bool-cases, inl, inr,
}
use crouton.Common.Result.{ok}
use crouton.Scheduler.{
  SuspensionImpl, Scheduler, find, store, wakers, sleepers, emplace, fresh, add_waker, woken,
  wake_up, stop_loop, SuspensionImpl_wake_up, Suspension_wake_up, is_ready, is_waiting,
  schedule_wakers, suspend,
}
use crouton.Scheduler.Entries.{Distinct, find-store, find-append, All-find, find-sleepers-none}
use crouton.Scheduler.Queue.{elem-append}
use crouton.Scheduler.Invariant.{IsValid, IsNoticed}
use crouton.Scheduler.Waking.{wake_up_frame, Suspension_wake_up-IsValid}
use crouton.Scheduler.Calls.{suspend-IsValid}

elem-add_waker :
    (h k : ℕ) (w : Bool) (o : Option ℕ) (hs : List ℕ)
    → elem h hs ≡ true
    → elem h (add_waker w o hs) ≡ true
unfolding add_waker
elem-add_waker h k false o hs i = i
elem-add_waker h k true none hs i = i
elem-add_waker h k true (some x) hs i = ground arith

elem-wakers_found :
    (h k : ℕ) (e : SuspensionImpl) (es : List SuspensionImpl)
    → find k es ≡ some e
    → e.wake_me ≡ true
    → e.handle ≡ some h
    → elem h (wakers es) ≡ true
unfolding find wakers
elem-wakers_found h k e [] found awake live = cc
elem-wakers_found h k e (d ∷ es) found awake live = elim (Bool-cases (k == d.key)) [
  | inl here ↦ ground (arith, eq_refl h)
  | inr there ↦
      elem-add_waker h k d.wake_me d.handle (wakers es)
        (elem-wakers_found h k e es (ground arith) awake live)
]

find-sleepers_found :
    (k : ℕ) (e : SuspensionImpl) (es : List SuspensionImpl)
    → Distinct es
    → find k es ≡ some e
    → e.wake_me ≡ true
    → find k (sleepers es) ≡ none
unfolding find sleepers
find-sleepers_found k e [] d found awake = refl
find-sleepers_found k e (c ∷ es) (n, d) found awake =
    ground (arith, find-sleepers_found k e es d, find-sleepers-none c.key es n, ==_iff k c.key)

-- The next pass moves a woken live coroutine out of the suspended set and into the ready queue.
pub schedule_wakers_woken :
    (s : Scheduler) (h : ℕ) (e : SuspensionImpl)
    → IsValid s
    → find h s.suspended ≡ some e
    → e.wake_me ≡ true
    → e.handle ≡ some h
    → (is_ready h (schedule_wakers s) ≡ true) × (is_waiting h (schedule_wakers s) ≡ false)
unfolding schedule_wakers is_ready is_waiting
schedule_wakers_woken s h e v found awake live =
    let set : s.woke ≡ true =
      ground (arith, All-find (IsNoticed s.woke) h s.suspended v.noticed found) in
    rw (set, schedule_wakers)
      (
        rw (elem-append, elem-wakers_found h h e s.suspended found awake live) (ground arith),
        rw (find-sleepers_found h e s.suspended v.distinct found awake),
      )

-- With an event loop a wake-up does not fail, on whichever thread it runs.
wake_up_total :
    (c : Bool) (s : Scheduler) → s.has_event_loop ≡ true → (t : Scheduler) × (wake_up c s ≡ ok t)
unfolding wake_up stop_loop
wake_up_total c s loop = elim (Bool-cases s.woke) [
  | inl set ↦ (s, ground arith)
  | inr unset ↦ stopped c loop unset
]
  where
    stopped :
        (c : Bool)
        → s.has_event_loop ≡ true
        → s.woke ≡ false
        → (t : Scheduler) × (wake_up c s ≡ ok t)
    stopped true loop unset = elim (Bool-cases s.running) [
      | inl on ↦ (record s { woke = true; stops = s.stops ++ false ∷ [] }, ground arith)
      | inr off ↦ (record s { woke = true }, ground arith)
    ]
    stopped false loop unset =
        (record s { woke = true; stops = s.stops ++ true ∷ [] }, ground arith)

impl_wake_up_total :
    (c : Bool) (e : SuspensionImpl) (s : Scheduler)
    → s.has_event_loop ≡ true
    → e.visible ≡ true
    → e.wake_me ≡ false
    → e.attached ≡ true
    → (t : Scheduler) × (SuspensionImpl_wake_up c e s ≡ ok t)
      × (t.suspended ≡ store (woken e) s.suspended)
unfolding SuspensionImpl_wake_up
impl_wake_up_total c e s loop seen asleep bound =
    let s' : Scheduler = record s { suspended = store (woken e) s.suspended } in
    let (t, done) = wake_up_total c s' loop in (t, ground arith, (wake_up_frame c s' t done).1)

Suspension_wake_up_found :
    (c : Bool) (k : ℕ) (e : SuspensionImpl) (s t : Scheduler)
    → find k s.suspended ≡ some e
    → SuspensionImpl_wake_up c e s ≡ ok t
    → Suspension_wake_up c (some k) s ≡ ok (none, t)
unfolding Suspension_wake_up
Suspension_wake_up_found c k e s t found done = rw (found, Suspension_wake_up, done)

-- A coroutine that is suspended and then woken through the `Suspension` that it got, from its own
-- thread or from another one, is ready after the next pass and is suspended no more. Neither call
-- fails, if the coroutine was neither ready nor suspended before.
pub suspend_wake_up :
    (s : Scheduler) (c : Bool) (h : ℕ)
    → IsValid s
    → is_ready h s ≡ false
    → is_waiting h s ≡ false
    → (s' : Scheduler) × (s'' : Scheduler) × (suspend true h s ≡ ok (some h, s'))
      × (Suspension_wake_up c (some h) s' ≡ ok (none, s''))
      × (is_ready h (schedule_wakers s'') ≡ true)
      × (is_waiting h (schedule_wakers s'') ≡ false)
unfolding suspend is_ready is_waiting
suspend_wake_up s c h v idle gone =
    let missing : find h s.suspended ≡ none = ground arith in
    let s' : Scheduler = record s { has_event_loop = true; suspended = emplace h s.suspended } in
    let grown : s'.suspended ≡ s.suspended ++ fresh h ∷ [] =
      unfold emplace in rw (missing, emplace) in
    let called : suspend true h s ≡ ok (some h, s') = ground arith in
    let found : find h s'.suspended ≡ some (fresh h) =
      rw (grown, find-append, missing) (ground (arith, eq_refl h)) in
    let (s'', done, stored) = impl_wake_up_total c (fresh h) s' refl refl refl refl in
    let woke : Suspension_wake_up c (some h) s' ≡ ok (none, s'') =
      Suspension_wake_up_found c h (fresh h) s' s'' found done in
    let v'' : IsValid s'' =
      Suspension_wake_up-IsValid c s' s'' (suspend-IsValid true h (some h) s s' v called) (some h)
        none woke in
    let found'' : find h s''.suspended ≡ some (woken (fresh h)) =
      rw (stored, find-store, found) (ground (arith, eq_refl h)) in
    let (ready, left) = schedule_wakers_woken s'' h (woken (fresh h)) v'' found'' refl refl in
    (s', s'', called, woke, ready, left)
