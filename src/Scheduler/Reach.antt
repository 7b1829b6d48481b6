-- ===== src/Scheduler/Reach.antt =====
-- Every state that calls of the operations reach is valid.
use crouton.Common.{ℕ, Bool, false, Option, [], ◌≡◌}
use crouton.Common.Result.{ok}
use crouton.Scheduler.{
  Scheduler, Suspension, Suspension_wake_up, Suspension_cancel, schedule, yield_to, resumed,
  next_or, suspend, destroying,
}
use crouton.Scheduler.Entries.{}
use crouton.Scheduler.Queue.{}
use crouton.Scheduler.Invariant.{IsValid}
use crouton.Scheduler.Waking.{Suspension_wake_up-IsValid, Suspension_cancel-IsValid}
use crouton.Scheduler.Calls.{
  schedule-IsValid, yield_to-IsValid, resumed-IsValid, next_or-IsValid, suspend-IsValid,
  destroying-IsValid,
}

-- One call of an operation of the scheduler, or of a `Suspension` that points into it.
pub data Step (s t : Scheduler) : Type 0 where
  suspension_wake_up :
      (c : Bool) (p q : Suspension) → Suspension_wake_up c p s ≡ ok (q, t) → Step s t
  suspension_cancel : (c : Bool) (p q : Suspension) → Suspension_cancel c p s ≡ ok (q, t) → Step s t
  step_schedule : (c : Bool) (h : ℕ) → schedule c h s ≡ ok t → Step s t
  step_yield : (c : Bool) (h : ℕ) (n : Option ℕ) → yield_to c h s ≡ ok (n, t) → Step s t
  step_resumed : (c : Bool) (h : ℕ) → resumed c h s ≡ ok t → Step s t
  step_next_or : (c : Bool) (dflt n : Option ℕ) → next_or c dflt s ≡ ok (n, t) → Step s t
  step_suspend : (c : Bool) (h : ℕ) (p : Suspension) → suspend c h s ≡ ok (p, t) → Step s t
  step_destroying : (c : Bool) (h : ℕ) → destroying c h s ≡ ok t → Step s t

pub Step-IsValid : (s t : Scheduler) → Step s t → IsValid s → IsValid t
Step-IsValid s t (suspension_wake_up c p q h) v = Suspension_wake_up-IsValid c s t v p q h
Step-IsValid s t (suspension_cancel c p q h) v = Suspension_cancel-IsValid c s t v p q h
Step-IsValid s t (step_schedule c h e) v = schedule-IsValid c s t v h e
Step-IsValid s t (step_yield c h n e) v = yield_to-IsValid c h n s t v e
Step-IsValid s t (step_resumed c h e) v = resumed-IsValid c s t v h e
Step-IsValid s t (step_next_or c dflt n e) v = next_or-IsValid c dflt n s t v e
Step-IsValid s t (step_suspend c h p e) v = suspend-IsValid c h p s t v e
Step-IsValid s t (step_destroying c h e) v = destroying-IsValid c h s t v e

abbrev pub new_scheduler : Scheduler
new_scheduler = record {
  ready = [];
  suspended = [];
  woke = false;
  has_event_loop = false;
  running = false;
  stops = [];
}

pub data Reach : Scheduler → Type 0 where
  start : Reach new_scheduler
  next : {s t : Scheduler} → Reach s → Step s t → Reach t

-- In every state that calls of the operations reach from a new scheduler: no coroutine is both
-- suspended and ready, or twice ready; a suspended entry has its own coroutine's handle or none;
-- no two entries are for one coroutine; and while a live coroutine has been woken and is not yet
-- in the queue, `_woke` is set, so that the next pass moves it there.
pub Reach-IsValid : {s : Scheduler} → Reach s → IsValid s
Reach-IsValid start = record {
  unqueued = tt;
  named = tt;
  noticed = tt;
  bound = tt;
  distinct = tt;
  nodup = tt;
}
Reach-IsValid (next {s} {t} r st) = Step-IsValid s t st (Reach-IsValid r)
