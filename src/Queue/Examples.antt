-- ===== src/Queue/Examples.antt =====
-- Concrete runs, and the theorems at concrete inputs.
use crouton.Common.{ℕ, true, false, Option, none, some, [], ◌∷◌, ◌++◌, ◌≡◌, refl, arith, map}
use crouton.Common.Result.{ok}
use crouton.CoCondition.{notify_one, await}
use crouton.Queue.{
  AsyncQueue, is_open, closing, closed, new_queue, push, push_before, close_push, close,
  set_close_when_empty, maybe_pop, item, failed, blocked, generate,
}
use crouton.Queue.Invariant.{IsValid, start, next, step_push, step_generate, Reach-IsValid_queue}
use crouton.Queue.Drain.{run, run_drains}
use crouton.Queue.Stall.{close_push_stalls}
use crouton.Queue.Bounded.{BoundedAsyncQueue, bounded_pop}
use crouton.Queue.Bounded.Capacity.{Fits, Reach-Fits}
use crouton.Queue.Bounded.Capacity

abbrev closing_queue : AsyncQueue ℕ ℕ
closing_queue = record {
  queue = 5 ∷ 6 ∷ [];
  pull_cond = record { awaiters = []; woken = [] };
  close_error = some 99;
  state = closing;
  close_when_empty = true;
}

abbrev waiting_queue : AsyncQueue ℕ ℕ
waiting_queue = record {
  queue = [];
  pull_cond = record { awaiters = 3 ∷ []; woken = [] };
  close_error = none;
  state = is_open;
  close_when_empty = false;
}

-- A push wakes the generator that waits.
push_wakes : push 8 waiting_queue ≡ (
  true,
  record waiting_queue { queue = 8 ∷ []; pull_cond = record { awaiters = []; woken = 3 ∷ [] } },
)
unfolding push notify_one
push_wakes = refl

generate_waits : generate 3 new_queue ≡ (blocked, waiting_queue)
unfolding generate new_queue await
generate_waits = refl

Reach-IsValid_queue_example :
    IsValid (record waiting_queue {
      pull_cond = record { awaiters = []; woken = 3 ∷ [] };
      queue = 8 ∷ [];
    })
unfolding push notify_one generate new_queue await
Reach-IsValid_queue_example =
    Reach-IsValid_queue
      (next (next {r = waiting_queue} start (step_generate 3 refl refl)) (step_push 8 refl))

run_drains_example :
    ((run 3 3 closing_queue).0 ≡ map item (5 ∷ 6 ∷ []) ++ failed 99 ∷ [])
    × ((run 3 3 closing_queue).1.state ≡ closed)
run_drains_example = run_drains 3 closing_queue (5 ∷ 6 ∷ []) refl (λ e. cc) refl

close_push_stalls_example :
    ((close_push none waiting_queue).pull_cond ≡ waiting_queue.pull_cond)
    × ((close_push none waiting_queue).state ≡ closing)
    × ((t : ℕ) → push t (close_push none waiting_queue) ≡ (false, close_push none waiting_queue))
    × ((i t : ℕ)
        → push_before i t (close_push none waiting_queue) ≡ (false, close_push none waiting_queue))
    × ((d : Option ℕ)
        → close_push d (close_push none waiting_queue) ≡ close_push none waiting_queue)
    × (maybe_pop (close_push none waiting_queue) ≡ ok (none, close_push none waiting_queue))
    × ((d : Option ℕ)
        → (close d (close_push none waiting_queue)).pull_cond ≡ notify_one waiting_queue.pull_cond)
    × ((d : Option ℕ)
        → (set_close_when_empty d (close_push none waiting_queue)).pull_cond
          ≡ notify_one waiting_queue.pull_cond)
close_push_stalls_example = close_push_stalls none waiting_queue refl refl

-- Two items of two, and coroutines 7 and 8 wait to push.
abbrev full_queue : BoundedAsyncQueue ℕ ℕ
full_queue = record {
  base = record closing_queue { state = is_open; close_when_empty = false };
  max_size = 2;
  push_cond = record { awaiters = 7 ∷ 8 ∷ []; woken = [] };
}

abbrev after_one : BoundedAsyncQueue ℕ ℕ
after_one = record full_queue {
  base = record (full_queue.base) { queue = 6 ∷ [] };
  push_cond = record { awaiters = 8 ∷ []; woken = 7 ∷ [] };
}

pop_full : bounded_pop full_queue ≡ ok (5, after_one)
unfolding bounded_pop notify_one
pop_full = refl

Reach-Fits_example : Fits after_one
Reach-Fits_example =
    Reach-Fits {b = full_queue} (omega arith)
      (Capacity.next Capacity.here (Capacity.step_pop 5 pop_full))
