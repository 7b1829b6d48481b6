-- ===== src/Future/Invariant.antt =====
-- The state machine of a FutureState: what holds between its operations.
use crouton.Common.{is_some, ℕ, Bool, true, false, not, ◌||◌, Option, none, some, ◌≡◌, refl, arith}
use crouton.Future.{
  State, waiting, chained, ready, Outcome, FutureState, new_future, suspend, no_future, chain,
  on_ready, set_result,
}

abbrev pub is_waiting : State → Bool
is_waiting waiting = true
is_waiting _ = false

abbrev pub is_chained : State → Bool
is_chained chained = true
is_chained _ = false

abbrev pub is_ready : State → Bool
is_ready ready = true
is_ready _ = false

module _ {T E : Type 0} where
  -- A coroutine is held exactly while the state is Waiting, a chained state exactly while it is
  -- Chained, there is a result exactly when it is Ready, and then no callback is left.
  pub record IsValid (s : FutureState T E) : Type 0 where
    pub holds_coroutine : is_some s.suspension ≡ is_waiting s.state
    pub holds_chained : is_some s.chained_future ≡ is_chained s.state
    pub holds_result : is_some s.result ≡ is_ready s.state
    pub calls_back : (not (is_ready s.state) || not (is_some s.on_ready_fn)) ≡ true

  suspend-IsValid : (h : ℕ) (s : FutureState T E) → IsValid s → IsValid (suspend h s).1
  unfolding suspend
  suspend-IsValid h s v = ground arith

  no_future-IsValid : (s : FutureState T E) → IsValid s → IsValid (no_future s)
  unfolding no_future
  no_future-IsValid s v = ground arith

  chain-IsValid : (f : ℕ) (s : FutureState T E) → IsValid s → IsValid (chain f s).1
  unfolding chain
  chain-IsValid f s v = ground arith

  on_ready-IsValid : (f : Option ℕ) (s : FutureState T E) → IsValid s → IsValid (on_ready f s)
  unfolding on_ready
  on_ready-IsValid none s v = ground arith
  on_ready-IsValid (some f) s v = ground arith

  set_result-IsValid :
      (r : Outcome T E) (s : FutureState T E) → IsValid s → IsValid (set_result r s).1
  unfolding set_result
  set_result-IsValid r s v = ground arith

  pub data Step (s t : FutureState T E) : Type 0 where
    step_suspend : (h : ℕ) → t ≡ (suspend h s).1 → Step s t
    step_no_future : t ≡ no_future s → Step s t
    step_chain : (f : ℕ) → t ≡ (chain f s).1 → Step s t
    step_on_ready : (f : Option ℕ) → t ≡ on_ready f s → Step s t
    step_set_result : (r : Outcome T E) → t ≡ (set_result r s).1 → Step s t

  pub data Reach : FutureState T E → Type 0 where
    start : Reach new_future
    next : {s t : FutureState T E} → Reach s → Step s t → Reach t

  Step-IsValid : (s t : FutureState T E) → Step s t → IsValid s → IsValid t
  Step-IsValid s t (step_suspend h e) v = rw e (suspend-IsValid h s v)
  Step-IsValid s t (step_no_future e) v = rw e (no_future-IsValid s v)
  Step-IsValid s t (step_chain f e) v = rw e (chain-IsValid f s v)
  Step-IsValid s t (step_on_ready f e) v = rw e (on_ready-IsValid f s v)
  Step-IsValid s t (step_set_result r e) v = rw e (set_result-IsValid r s v)

  -- Whatever operations are called on a new state, also where one of them raises an error: a
  -- coroutine is held exactly while the state is Waiting, a chained state exactly while it is
  -- Chained, there is a result exactly when it is Ready, and then no `onReady` callback is left.
  pub Reach-IsValid_future : {s : FutureState T E} → Reach s → IsValid s
  Reach-IsValid_future start = record {
    holds_coroutine = refl;
    holds_chained = refl;
    holds_result = refl;
    calls_back = refl;
  }
  Reach-IsValid_future (next {s} {t} r st) = Step-IsValid s t st (Reach-IsValid_future r)
