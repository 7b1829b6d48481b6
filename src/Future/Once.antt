-- ===== src/Future/Once.antt =====
-- The order of registration and result does not matter, and what a state refuses.
use crouton.Common.{ℕ, none, some, [], ◌∷◌, ◌++◌, ◌≡◌, ◌≢◌, arith, ◌⊎◌}
use crouton.Common.Result.{err, logic_error}
use crouton.Future.{
  is_empty_state, waiting, chained, ready, Outcome, value, failure, Event, woken, canceled,
  notified, failed, continued, FutureState, suspend, no_future, chain, on_ready, set_result,
}
use crouton.Future.Invariant.{IsValid}

module _ {T E : Type 0} where
  -- Chaining before the result or after it comes to the same: where no `onReady` callback is set,
  -- the two orders give the same results and leave the same state, so the chained state is
  -- resolved once, with the value or with the error.
  pub chain-set_result :
      (s : FutureState T E) (f : ℕ) (r : Outcome T E)
      → IsValid s
      → s.state ≡ is_empty_state
      → s.on_ready_fn ≡ none
      → set_result r (chain f s).1 ≡ chain f (set_result r s).1
  unfolding chain set_result
  chain-set_result s f r v e n = ground arith

  abbrev pub resolution : ℕ → Outcome T E → Event T E
  resolution f (value x) = continued f x
  resolution f (failure x) = failed f x

  -- What a chained state gets, and nothing else happens: the value goes to its callback, an error
  -- to the state itself with no call of the callback.
  pub chain_resolves :
      (s : FutureState T E) (f : ℕ) (r : Outcome T E)
      → IsValid s
      → s.state ≡ is_empty_state
      → s.on_ready_fn ≡ none
      → (set_result r (chain f s).1).1.events ≡ s.events ++ resolution f r ∷ []
  unfolding chain set_result
  chain_resolves s f r v e n = ground arith

  -- An `onReady` callback is called once, whether it is set before the result or after it.
  pub on_ready-set_result :
      (s : FutureState T E) (f : ℕ) (r : Outcome T E)
      → IsValid s
      → s.state ≢ ready
      → s.on_ready_fn ≡ none
      → ((set_result r (on_ready (some f) s)).1 ≡ on_ready (some f) (set_result r s).1)
        × ((set_result r (on_ready (some f) s)).1.events
            ≡ (set_result r s).1.events ++ notified f ∷ [])
  unfolding on_ready set_result
  on_ready-set_result s f r v open_ n = ground arith

  -- A state has one consumer: while a coroutine waits or another state is chained, a further
  -- `suspend` or `chain` raises an error and changes nothing.
  pub one_consumer :
      (s : FutureState T E) (h f : ℕ)
      → (s.state ≡ waiting) ⊎ (s.state ≡ chained)
      → (suspend h s ≡ (err logic_error, s)) × (chain f s ≡ (err logic_error, s))
  unfolding suspend chain
  one_consumer s h f w = ground arith

  -- A second result is refused with an error and nobody is told of it, but it has taken the place
  -- of the first one.
  pub set_result_again :
      (s : FutureState T E) (r : Outcome T E)
      → s.state ≡ ready
      → set_result r s ≡ (err logic_error, record s { result = some r })
  unfolding set_result
  set_result_again s r e = ground arith

  -- A waiting coroutine is woken by the result, once; if the Future goes away first it is canceled
  -- instead, the state is Empty again, and the later result wakes nobody.
  pub waiting_outcome :
      (s : FutureState T E) (h : ℕ) (r : Outcome T E)
      → IsValid s
      → s.state ≡ is_empty_state
      → s.on_ready_fn ≡ none
      → ((set_result r (suspend h s).1).1.events ≡ s.events ++ woken h ∷ [])
        × ((no_future (suspend h s).1).state ≡ is_empty_state)
        × ((set_result r (no_future (suspend h s).1)).1.events ≡ s.events ++ canceled h ∷ [])
  unfolding suspend no_future set_result
  waiting_outcome s h r v e n = ground arith
