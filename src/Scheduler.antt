-- ===== src/Scheduler.antt =====
-- src/Scheduler.cc and include/crouton/Scheduler.hh: the ready queue, the suspended coroutines and
-- the handles by which they are woken.
-- A coroutine handle is its address, a number, and a handle that may be null is an `Option`. The
-- hash map `_suspended` is a list of entries in its order of iteration, which is arbitrary.
-- Failed checks (`precondition`, `assert`) are errors. `current` says whether the caller runs on
-- the scheduler's own thread.
pub mod Entries
pub mod Queue
pub mod Invariant
pub mod Waking
pub mod Calls
pub mod Reach
pub mod Wake
pub mod Turn
mod Examples
use crouton.Common.{
  is_some, ℕ, ◌==◌, if◌then◌else◌, Bool, true, false, not, ◌&&◌, ◌||◌, Option, none, some, List, [],
  ◌∷◌, ◌++◌, is_empty, elem,
}
use crouton.Common.Result.{Result, ok, err, assertion, dangling, ◌>>=◌, ◌>>◌, guard}

-- `SuspensionImpl`: `attached` says that `_scheduler` is not null.
pub record SuspensionImpl : Type 0 where
  pub key : ℕ
  pub handle : Option ℕ
  pub attached : Bool
  pub wake_me : Bool
  pub visible : Bool

-- `stops` is the history of the calls of the event loop's `stop`, with their `threadSafe` argument.
pub record Scheduler : Type 0 where
  pub ready : List ℕ
  pub suspended : List SuspensionImpl
  pub woke : Bool
  pub has_event_loop : Bool
  pub running : Bool
  pub stops : List Bool

-- A `Suspension` is the pointer `_impl`, here the key of its entry.
abbrev pub Suspension : Type 0
Suspension = Option ℕ

pub find : ℕ → List SuspensionImpl → Option SuspensionImpl
find k [] = none
find k (e ∷ es) = if k == e.key then some e else find k es

pub erase : ℕ → List SuspensionImpl → List SuspensionImpl
erase k [] = []
erase k (e ∷ es) = if k == e.key then es else e ∷ erase k es

-- Writes through the pointer to the entry with the key of `e`.
pub store : SuspensionImpl → List SuspensionImpl → List SuspensionImpl
store e [] = []
store e (d ∷ es) = if e.key == d.key then e ∷ es else d ∷ store e es

-- `Scheduler::_wakeUp` and `Scheduler::wakeUp`.
pub stop_loop : Bool → Scheduler → Result Scheduler
stop_loop current s =
    if current
    then ok
        (if s.has_event_loop && s.running then record s { stops = s.stops ++ false ∷ [] } else s)
    else do guard s.has_event_loop assertion; ok (record s { stops = s.stops ++ true ∷ [] })

pub wake_up : Bool → Scheduler → Result Scheduler
wake_up current s = if s.woke then ok s else stop_loop current (record s { woke = true })

-- `SuspensionImpl::wakeUp` and `SuspensionImpl::cancel`: `_wakeMe.test_and_set()`, and what the
-- first caller goes on to do.
abbrev pub woken : SuspensionImpl → SuspensionImpl
woken e = record e { wake_me = true; visible = false; attached = false }

pub SuspensionImpl_wake_up : Bool → SuspensionImpl → Scheduler → Result Scheduler
SuspensionImpl_wake_up current e s = do
  guard e.visible assertion
  if e.wake_me then ok s else do
    guard e.attached assertion
    wake_up current (record s { suspended = store (woken e) s.suspended })

pub SuspensionImpl_cancel : Bool → SuspensionImpl → Scheduler → Result Scheduler
SuspensionImpl_cancel current e s = do
  guard e.visible assertion
  let e' = record e { handle = none }
  if e.wake_me then ok (record s { suspended = store e' s.suspended }) else do
    guard e.attached assertion
    wake_up current (record s { suspended = store (woken e') s.suspended })

abbrev pub leave_empty : Result Scheduler → Result (Suspension × Scheduler)
leave_empty (ok s) = ok (none, s)
leave_empty (err e) = err e

-- `Suspension::wakeUp` and `Suspension::cancel`. Both leave the `Suspension` empty.
pub Suspension_wake_up : Bool → Suspension → Scheduler → Result (Suspension × Scheduler)
Suspension_wake_up current none s = ok (none, s)
Suspension_wake_up current (some k) s = elim (find k s.suspended) [
  | none ↦ err dangling
  | some e ↦ leave_empty (SuspensionImpl_wake_up current e s)
]

pub Suspension_cancel : Bool → Suspension → Scheduler → Result (Suspension × Scheduler)
Suspension_cancel current none s = ok (none, s)
Suspension_cancel current (some k) s = elim (find k s.suspended) [
  | none ↦ err dangling
  | some e ↦ leave_empty (SuspensionImpl_cancel current e s)
]

pub is_ready : ℕ → Scheduler → Bool
is_ready h s = elem h s.ready

pub is_waiting : ℕ → Scheduler → Bool
is_waiting h s = is_some (find h s.suspended)

abbrev pub wants_to_wake : SuspensionImpl → Bool
wants_to_wake e = e.wake_me && is_some e.handle

pub any_waker : List SuspensionImpl → Bool
any_waker [] = false
any_waker (e ∷ es) = wants_to_wake e || any_waker es

pub has_wakers : Scheduler → Bool
has_wakers s = s.woke && any_waker s.suspended

pub is_idle : Scheduler → Bool
is_idle s = not (has_wakers s) && is_empty s.ready

pub is_empty_scheduler : Scheduler → Bool
is_empty_scheduler s = is_idle s && is_empty s.suspended

pub schedule : Bool → ℕ → Scheduler → Result Scheduler
schedule current h s = do
  guard current assertion
  guard (not (is_waiting h s)) assertion
  ok (if is_ready h s then s else record s { ready = s.ready ++ h ∷ [] })

-- The result is the coroutine that is to run next; null if that is for the scheduler to say.
pub yield_to : Bool → ℕ → Scheduler → Result (Option ℕ × Scheduler)
yield_to current h s =
    if is_idle s then ok (some h, s) else (schedule current h s >>= λ s'. ok (none, s'))

-- `_ready.erase(find(h))`
pub remove : ℕ → List ℕ → List ℕ
remove h [] = []
remove h (x ∷ xs) = if h == x then xs else x ∷ remove h xs

pub resumed : Bool → ℕ → Scheduler → Result Scheduler
resumed current h s = do guard current assertion; ok (record s { ready = remove h s.ready })

-- One round of the pass: `_handle` is null in a canceled entry.
pub add_waker : Bool → Option ℕ → List ℕ → List ℕ
add_waker false h hs = hs
add_waker true none hs = hs
add_waker true (some h) hs = h ∷ hs

-- The coroutines that a pass of `scheduleWakers` appends to `_ready`, and the entries that it keeps.
pub wakers : List SuspensionImpl → List ℕ
unfolding add_waker
wakers [] = []
wakers (e ∷ es) = add_waker e.wake_me e.handle (wakers es)

pub sleepers : List SuspensionImpl → List SuspensionImpl
sleepers [] = []
sleepers (e ∷ es) = if e.wake_me then sleepers es else e ∷ sleepers es

-- `_woke` is false after the first pass. A pass more is made only if another thread has set it
-- meanwhile: that is a later call.
pub schedule_wakers : Scheduler → Scheduler
schedule_wakers s =
    if s.woke
    then record s {
      ready = s.ready ++ wakers s.suspended;
      suspended = sleepers s.suspended;
      woke = false;
    }
    else s

pub pop_ready : Option ℕ → Scheduler → List ℕ → Option ℕ × Scheduler
pop_ready dflt s [] = (dflt, s)
pop_ready dflt s (h ∷ rest) = (some h, record s { ready = rest })

pub next_or : Bool → Option ℕ → Scheduler → Result (Option ℕ × Scheduler)
next_or current dflt s = do
  guard current assertion
  let s' = schedule_wakers s
  ok (pop_ready dflt s' s'.ready)

abbrev pub fresh : ℕ → SuspensionImpl
fresh h = record { key = h; handle = some h; attached = true; wake_me = false; visible = true }

-- `try_emplace`: an entry that is already there stays as it is.
pub emplace : ℕ → List SuspensionImpl → List SuspensionImpl
emplace h es = elim (find h es) [
  | none ↦ es ++ fresh h ∷ []
  | some e ↦ store (record e { visible = true }) es
]

pub suspend : Bool → ℕ → Scheduler → Result (Suspension × Scheduler)
suspend current h s = do
  guard current assertion
  guard (not (is_ready h s)) assertion
  ok (some h, record s { has_event_loop = true; suspended = emplace h s.suspended })

-- The part of `destroying` that deals with the suspended set.
pub forget : ℕ → List SuspensionImpl → Result (List SuspensionImpl)
forget h es = elim (find h es) [
  | none ↦ ok es
  | some e ↦ if e.wake_me then ok (erase h es) else do
    guard (not e.visible) assertion
    ok (store (record e { wake_me = true; handle = none }) es)
]

pub destroying : Bool → ℕ → Scheduler → Result Scheduler
destroying current h s = do
  guard current assertion
  es ← forget h s.suspended
  ok (record s { suspended = es; ready = remove h s.ready })
