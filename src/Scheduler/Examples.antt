-- ===== src/Scheduler/Examples.antt =====
-- Concrete runs, and the theorems at concrete inputs.
use crouton.Common.{true, false, none, some, [], ◌∷◌, ◌≡◌, refl, arith}
use crouton.Common.Result.{ok, err, assertion}
use crouton.Scheduler.{
  Scheduler, find, store, wakers, sleepers, emplace, fresh, woken, wake_up, stop_loop,
  SuspensionImpl_wake_up, Suspension_wake_up, SuspensionImpl_cancel, Suspension_cancel, is_ready,
  is_waiting, schedule_wakers, pop_ready, next_or, suspend, schedule, destroying, forget,
}
use crouton.Scheduler.Invariant.{IsValid}
use crouton.Scheduler.Reach.{new_scheduler, start, next, step_suspend, Reach-IsValid}
use crouton.Scheduler.Wake.{suspend_wake_up}

-- Coroutine 7 has been suspended, and 9 is ready.
abbrev one_asleep : Scheduler
one_asleep = record new_scheduler {
  suspended = fresh 7 ∷ [];
  ready = 9 ∷ [];
  has_event_loop = true;
}

-- Then another thread has woken it.
abbrev one_woken : Scheduler
one_woken = record one_asleep { suspended = woken (fresh 7) ∷ []; woke = true; stops = true ∷ [] }

wake_from_other_thread : Suspension_wake_up false (some 7) one_asleep ≡ ok (none, one_woken)
unfolding Suspension_wake_up SuspensionImpl_wake_up wake_up stop_loop find store
wake_from_other_thread = refl

-- A coroutine that is destroyed while its `Suspension` may still be used fails a check.
destroyed_too_early : destroying true 7 one_asleep ≡ err assertion
unfolding destroying forget find
destroyed_too_early = refl

-- A canceled suspension is dropped by the next pass, and its coroutine does not run.
canceled :
    (s : Scheduler) × (Suspension_cancel true (some 7) one_asleep ≡ ok (none, s))
    × (schedule_wakers s ≡ record one_asleep { suspended = [] })
unfolding Suspension_cancel SuspensionImpl_cancel wake_up stop_loop find store schedule_wakers
    wakers sleepers
canceled = (
  record one_asleep { suspended = record (woken (fresh 7)) { handle = none } ∷ []; woke = true },
  refl,
  refl,
)

schedule_suspended : schedule true 7 one_asleep ≡ err assertion
unfolding schedule is_waiting find
schedule_suspended = refl

one_woken-IsValid : IsValid one_woken
one_woken-IsValid = record {
  unqueued = (refl, tt);
  named = (ground arith, tt);
  noticed = (refl, tt);
  bound = (refl, tt);
  distinct = (unfold find in refl, tt);
  nodup = (refl, tt);
}

suspended_first : suspend true 7 new_scheduler ≡ ok (some 7, record one_asleep { ready = [] })
unfolding suspend is_ready emplace find
suspended_first = refl

Reach-IsValid_example : IsValid (record one_asleep { ready = [] })
Reach-IsValid_example = Reach-IsValid (next start (step_suspend true 7 (some 7) suspended_first))

suspend_wake_up_example :
    (s' : Scheduler) × (s'' : Scheduler) × (suspend true 3 one_woken ≡ ok (some 3, s'))
    × (Suspension_wake_up false (some 3) s' ≡ ok (none, s''))
    × (is_ready 3 (schedule_wakers s'') ≡ true)
    × (is_waiting 3 (schedule_wakers s'') ≡ false)
suspend_wake_up_example =
    suspend_wake_up one_woken false 3 one_woken-IsValid (unfold is_ready in refl)
      (unfold is_waiting find in refl)

drained : Scheduler
drained = record one_woken { ready = []; suspended = []; woke = false }

idle_run :
    next_or true none (record one_woken { ready = []; suspended = []; woke = true })
    ≡ ok (none, drained)
unfolding next_or schedule_wakers wakers sleepers pop_ready drained
idle_run = refl

turn_run :
    next_or true none one_woken
    ≡ ok (some 9, record one_woken { ready = 7 ∷ []; suspended = []; woke = false })
unfolding next_or schedule_wakers wakers sleepers pop_ready
turn_run = refl
