-- ===== src/Future.antt =====
-- src/Future.cc and the class FutureState of include/crouton/Future.hh: the shared state of a
-- Future and its provider.
-- A coroutine, an `onReady` callback and a chained FutureState (with its `then` callback) are
-- numbers. `events` is the history of what the state has done to others. An operation returns its
-- result, or the error that it raises, with the state that it leaves.
pub mod Invariant
pub mod Once
pub mod Race
mod Examples
use crouton.Common.{
  is_some, ℕ, if◌then◌else◌, Bool, true, false, not, ◌&&◌, ◌||◌, Option, none, some, List, [], ◌∷◌,
  ◌++◌,
}
use crouton.Common.Result.{Result, ok, err, logic_error, assertion}

pub data State : Type 0 where
  is_empty_state waiting chained ready : State

-- `Result<T>` once it is set.
pub data Outcome (T E : Type 0) : Type 0 where
  value : T → Outcome T E
  failure : E → Outcome T E

pub data Event (T E : Type 0) : Type 0 where
  -- the coroutine has been made runnable; its suspension has been canceled
  woken canceled : ℕ → Event T E
  -- an `onReady` callback has been called
  notified : ℕ → Event T E
  -- a chained state has been given the error; its callback has been run, or scheduled, on the value
  failed : ℕ → E → Event T E
  continued : ℕ → T → Event T E

pub record FutureState (T E : Type 0) : Type 0 where
  pub state : State
  pub suspension : Option ℕ
  pub chained_future : Option ℕ
  pub on_ready_fn : Option ℕ
  pub result : Option (Outcome T E)
  pub events : List (Event T E)

-- True if Empty, false if Ready, else an error.
unfoldable pub check_empty : State → Result Bool
check_empty is_empty_state = ok true
check_empty waiting = err logic_error
check_empty chained = err logic_error
check_empty ready = ok false

module _ {T E : Type 0} where
  abbrev pub new_future : FutureState T E
  new_future = record {
    state = is_empty_state;
    suspension = none;
    chained_future = none;
    on_ready_fn = none;
    result = none;
    events = [];
  }

  abbrev pub emit : Event T E → FutureState T E → FutureState T E
  emit e s = record s { events = s.events ++ e ∷ [] }

  -- `Suspension::wakeUp` and `Suspension::cancel`, which do nothing where it is empty.
  abbrev pub wake_suspension : Option ℕ → FutureState T E → FutureState T E
  wake_suspension none s = s
  wake_suspension (some h) s = emit (woken h) (record s { suspension = none })

  abbrev pub cancel_suspension : Option ℕ → FutureState T E → FutureState T E
  cancel_suspension none s = s
  cancel_suspension (some h) s = emit (canceled h) (record s { suspension = none })

  unfoldable pub has_result : FutureState T E → Bool
  has_result s = elim s.state [ ready ↦ true | _ ↦ false ]

  -- The compare and exchange of `changeState`, from Empty to the new state.
  unfoldable pub change_state : State → FutureState T E → Result Bool × FutureState T E
  change_state new s = elim s.state [
    | is_empty_state ↦ (ok true, record s { state = new })
    | ready ↦ (ok false, s)
    | _ ↦ (err logic_error, s)
  ]

  -- The two parts of `suspend` once the state was found Empty, between which a provider on another
  -- thread may run.
  unfoldable pub suspend_set : ℕ → FutureState T E → FutureState T E
  suspend_set h s = record s { suspension = some h }

  abbrev pub after_exchange : Result Bool → FutureState T E → Result (Option ℕ) × FutureState T E
  after_exchange (ok true) s = (ok none, s)
  after_exchange (ok false) s = (ok none, wake_suspension s.suspension s)
  after_exchange (err e) s = (err e, s)

  unfoldable pub suspend_exchange : FutureState T E → Result (Option ℕ) × FutureState T E
  unfolding change_state
  suspend_exchange s = after_exchange (change_state waiting s).0 (change_state waiting s).1

  -- The result is the coroutine that goes on: `h` itself, or none where it is suspended.
  unfoldable pub suspend : ℕ → FutureState T E → Result (Option ℕ) × FutureState T E
  unfolding check_empty suspend_set suspend_exchange
  suspend h s = elim (check_empty s.state) [
    | err e ↦ (err e, s)
    | ok empty ↦
        if empty
        then if is_some s.suspension then (err assertion, s) else suspend_exchange (suspend_set h s)
        else (ok (some h), s)
  ]

  unfoldable pub no_future : FutureState T E → FutureState T E
  no_future s =
      let state' : State = elim s.state [ waiting ↦ is_empty_state | other ↦ other ] in
      if is_some s.suspension
      then cancel_suspension s.suspension (record s { state = state' })
      else s

  -- `resolveChain`, with what `_chainedFuture` and `_result` hold.
  abbrev pub resolve_with :
      Option ℕ → Option (Outcome T E) → FutureState T E → Result (Unit {0}) × FutureState T E
  resolve_with none r s = (err assertion, s)
  resolve_with (some f) none s = (err assertion, s)
  resolve_with (some f) (some (value v)) s =
      (ok tt, emit (continued f v) (record s { chained_future = none }))
  resolve_with (some f) (some (failure e)) s =
      (ok tt, emit (failed f e) (record s { chained_future = none }))

  unfoldable pub resolve_chain : FutureState T E → Result (Unit {0}) × FutureState T E
  unfolding has_result
  resolve_chain s =
      if has_result s then resolve_with s.chained_future s.result s else (err assertion, s)

  abbrev pub after_chain : Result Bool → FutureState T E → Result (Unit {0}) × FutureState T E
  after_chain (ok true) s = (ok tt, s)
  after_chain (ok false) s = resolve_chain s
  after_chain (err e) s = (err e, s)

  -- `_chain`: `f` is the state that is chained, with its callback.
  unfoldable pub chain : ℕ → FutureState T E → Result (Unit {0}) × FutureState T E
  unfolding check_empty change_state resolve_chain
  chain f s = elim (check_empty s.state) [
    | err e ↦ (err e, s)
    | ok empty ↦
        let s' = record s { chained_future = some f } in
        if is_some s.chained_future
        then (err assertion, s)
        else if empty
        then after_chain (change_state chained s').0 (change_state chained s').1
        else resolve_chain s'
  ]

  -- `onReady`; a null function takes the callback away.
  unfoldable pub on_ready : Option ℕ → FutureState T E → FutureState T E
  unfolding has_result
  on_ready none s = record s { on_ready_fn = none }
  on_ready (some f) s =
      if has_result s then emit (notified f) s else record s { on_ready_fn = some f }

  abbrev pub call_on_ready : Option ℕ → FutureState T E → FutureState T E
  call_on_ready none s = s
  call_on_ready (some f) s = emit (notified f) (record s { on_ready_fn = none })

  -- `setResult` and `setError` in their steps: the result is stored, the state is exchanged with
  -- Ready, and `_notify` goes on by the state that the exchange returned.
  unfoldable pub store_result : Outcome T E → FutureState T E → FutureState T E
  store_result r s = record s { result = some r }

  unfoldable pub notify_exchange : FutureState T E → State × FutureState T E
  notify_exchange s = (s.state, record s { state = ready })

  unfoldable pub notify_waiters : State → FutureState T E → Result (Unit {0}) × FutureState T E
  unfolding resolve_chain
  notify_waiters is_empty_state s = (ok tt, s)
  notify_waiters waiting s = (ok tt, wake_suspension s.suspension s)
  notify_waiters chained s = resolve_chain s
  notify_waiters ready s = (err logic_error, s)

  abbrev pub after_notify :
      Result (Unit {0}) → FutureState T E → Result (Unit {0}) × FutureState T E
  after_notify (ok u) s = (ok u, call_on_ready s.on_ready_fn s)
  after_notify (err e) s = (err e, s)

  unfoldable pub notify : FutureState T E → Result (Unit {0}) × FutureState T E
  unfolding notify_exchange notify_waiters
  notify s =
      let (prev, s') = notify_exchange s in
      after_notify (notify_waiters prev s').0 (notify_waiters prev s').1

  unfoldable pub set_result : Outcome T E → FutureState T E → Result (Unit {0}) × FutureState T E
  unfolding store_result notify
  set_result r s = notify (store_result r s)
