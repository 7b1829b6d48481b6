-- ===== src/Queue.antt =====
-- include/crouton/Queue.hh: `AsyncQueue`, a producer-consumer queue with a generator that reads it,
-- and `BoundedAsyncQueue`, which holds at most `maxSize` items.
-- The generator's coroutine and those that wait to push are numbers; `E` is the type of errors.
pub mod Invariant
pub mod Drain
pub mod Stall
pub mod Bounded
mod Examples
use crouton.Common.{
  ℕ, zero, suc, ◌==◌, ltb, leb, if◌then◌else◌, Bool, true, false, not, ◌&&◌, ◌||◌, Option, none,
  some, List, [], ◌∷◌, ◌++◌, is_empty, length, take, drop,
}
use crouton.Common.Result.{Result, ok, err, assertion, ◌>>=◌, ◌>>◌, guard}
use crouton.CoCondition.{CoCondition, await, notify_one, notify_all}

pub data State : Type 0 where
  is_open closing closed : State

abbrev pub is_state : State → State → Bool
is_state is_open is_open = true
is_state closing closing = true
is_state closed closed = true
is_state _ _ = false

pub record AsyncQueue (T E : Type 0) : Type 0 where
  pub queue : List T
  pub pull_cond : CoCondition
  pub close_error : Option E
  pub state : State
  pub close_when_empty : Bool

-- `if (!_closeError) _closeError = err`
abbrev pub keep_error : {E : Type 0} → Option E → Option E → Option E
keep_error none e = e
keep_error (some d) e = some d

-- The search and the erasure of `remove`, over the test whether an item equals the given one.
unfoldable pub remove_first : {T : Type 0} → (T → Bool) → List T → List T
remove_first p [] = []
remove_first p (x ∷ xs) = if p x then xs else x ∷ remove_first p xs

unfoldable pub any : {T : Type 0} → (T → Bool) → List T → Bool
any p [] = false
any p (x ∷ xs) = p x || any p xs

-- What the generator does when it runs: it yields an item, ends, ends with an error, or waits.
pub data Yield (T E : Type 0) : Type 0 where
  item : T → Yield T E
  eof : Yield T E
  failed : E → Yield T E
  blocked : Yield T E

module _ {T E : Type 0} where
  unfoldable pub close_push : Option E → AsyncQueue T E → AsyncQueue T E
  close_push e q =
      if is_state q.state is_open
      then record q {
        state = closing;
        close_when_empty = true;
        close_error = keep_error q.close_error e;
      }
      else q

  unfoldable pub close : Option E → AsyncQueue T E → AsyncQueue T E
  unfolding notify_one
  close e q = if is_state q.state closed then q else record q {
    state = closed;
    close_error = keep_error q.close_error e;
    queue = [];
    pull_cond = notify_one q.pull_cond;
  }

  unfoldable pub set_close_when_empty : Option E → AsyncQueue T E → AsyncQueue T E
  unfolding close
  set_close_when_empty e q =
      if is_empty q.queue
      then close e q
      else record q { close_when_empty = true; close_error = keep_error q.close_error e }

  -- After an item has been added.
  abbrev pub notify_if_first : AsyncQueue T E → AsyncQueue T E
  notify_if_first q =
      if length q.queue == 1 then record q { pull_cond = notify_one q.pull_cond } else q

  unfoldable pub push : T → AsyncQueue T E → Bool × AsyncQueue T E
  push t q =
      if is_state q.state is_open
      then (true, notify_if_first (record q { queue = q.queue ++ t ∷ [] }))
      else (false, q)

  -- The iterator is the index of the item before which the new one goes.
  unfoldable pub push_before : ℕ → T → AsyncQueue T E → Bool × AsyncQueue T E
  push_before i t q =
      if is_state q.state is_open
      then (true, notify_if_first (record q { queue = take i q.queue ++ t ∷ drop i q.queue }))
      else (false, q)

  -- `push(Result<T>)`: the error of a `Result` that has no value closes the push end.
  unfoldable pub push_result : Option T → Option E → AsyncQueue T E → Bool × AsyncQueue T E
  unfolding push close_push
  push_result (some t) e q = push t q
  push_result none e q = (true, close_push e q)

  -- The end of `pop`, with the items that are left.
  abbrev pub after_pop : AsyncQueue T E → AsyncQueue T E
  after_pop q = if q.close_when_empty && is_empty q.queue then close none q else q

  unfoldable pub pop_from : AsyncQueue T E → List T → Result (T × AsyncQueue T E)
  pop_from q [] = err assertion
  pop_from q (t ∷ rest) = ok (t, after_pop (record q { queue = rest }))

  unfoldable pub pop : AsyncQueue T E → Result (T × AsyncQueue T E)
  unfolding pop_from
  pop q = pop_from q q.queue

  unfoldable pub maybe_pop : AsyncQueue T E → Result (Option T × AsyncQueue T E)
  unfolding pop
  maybe_pop q = if is_empty q.queue then ok (none, q) else (pop q >>= λ (t, q'). ok (some t, q'))

  unfoldable pub remove : (T → Bool) → AsyncQueue T E → Result (Bool × AsyncQueue T E)
  unfolding remove_first any
  remove p q = do
    guard (is_state q.state is_open) assertion
    ok (any p q.queue, record q { queue = remove_first p q.queue })

  -- After the loop of `generate`.
  abbrev pub finish : AsyncQueue T E → Yield T E × AsyncQueue T E
  finish q = elim q.close_error [ none ↦ (eof, q) | some e ↦ (failed e, q) ]

  unfoldable pub yield_front : AsyncQueue T E → List T → Yield T E × AsyncQueue T E
  yield_front q [] = finish q
  yield_front q (t ∷ rest) = (item t, after_pop (record q { queue = rest }))

  -- `generate` from the head of its loop, run by the coroutine `h`.
  unfoldable pub generate : ℕ → AsyncQueue T E → Yield T E × AsyncQueue T E
  unfolding yield_front close
  generate h q =
      if is_state q.state closed
      then finish q
      else if is_empty q.queue
      then if q.close_when_empty
        then finish (close none q)
        else (blocked, record q { pull_cond = await h q.pull_cond })
      else yield_front q q.queue

  -- `generate` from where it waits: a queue that is still empty ends the loop.
  pub generate_woken : AsyncQueue T E → Yield T E × AsyncQueue T E
  unfolding yield_front
  generate_woken q = yield_front q q.queue

  abbrev pub new_queue : AsyncQueue T E
  new_queue = record {
    queue = [];
    pull_cond = record { awaiters = []; woken = [] };
    close_error = none;
    state = is_open;
    close_when_empty = false;
  }
