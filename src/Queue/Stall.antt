-- ===== src/Queue/Stall.antt =====
-- `closePush` while the generator waits on an empty queue.
use crouton.Common.{ℕ, false, Option, none, [], ◌≡◌, arith}
use crouton.Common.Result.{ok}
use crouton.CoCondition.{notify_one}
use crouton.Queue.{
  is_open, closing, AsyncQueue, close_push, set_close_when_empty, close, push, push_before,
  maybe_pop,
}

module _ {T E : Type 0} where
  -- `closePush` on an empty open queue wakes nobody, although the queue is to end now. After it
  -- neither a push, nor another `closePush`, nor a `maybePop` changes anything: a generator that
  -- waited before goes on waiting, until `close` or `closeWhenEmpty` is called.
  pub close_push_stalls :
      (e : Option E) (q : AsyncQueue T E)
      → q.state ≡ is_open
      → q.queue ≡ []
      → ((close_push e q).pull_cond ≡ q.pull_cond)
        × ((close_push e q).state ≡ closing)
        × ((t : T) → push t (close_push e q) ≡ (false, close_push e q))
        × ((i : ℕ) (t : T) → push_before i t (close_push e q) ≡ (false, close_push e q))
        × ((d : Option E) → close_push d (close_push e q) ≡ close_push e q)
        × (maybe_pop (close_push e q) ≡ ok (none, close_push e q))
        × ((d : Option E) → (close d (close_push e q)).pull_cond ≡ notify_one q.pull_cond)
        × ((d : Option E)
            → (set_close_when_empty d (close_push e q)).pull_cond ≡ notify_one q.pull_cond)
  unfolding close_push close set_close_when_empty push push_before maybe_pop
  close_push_stalls e q opened empty = (
    ground arith,
    ground arith,
    λ t. ground arith,
    λ i t. ground arith,
    λ d. ground arith,
    ground arith,
    λ d. ground arith,
    λ d. ground arith,
  )
