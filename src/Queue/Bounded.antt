-- ===== src/Queue/Bounded.antt =====
-- include/crouton/Queue.hh, `BoundedAsyncQueue`: a queue of at most `maxSize` items. Its overrides
-- of the virtual `close`, `closePush`, `push`, `pushBefore`, `pop` and `remove` also wake the
-- coroutines that wait to push; the base class's `pop` calls the override of `close`.
pub mod Capacity
use crouton.Common.{
  ℕ, suc, ◌==◌, leb, if◌then◌else◌, Bool, true, false, not, ◌&&◌, Option, none, some, List, [], ◌∷◌,
  ◌++◌, is_empty, length,
}
use crouton.Common.Result.{Result, ok, err, assertion, ◌>>=◌, guard}
use crouton.CoCondition.{CoCondition, await, notify_one, notify_all}
use crouton.Queue.{
  AsyncQueue, is_state, is_open, close, close_push, set_close_when_empty, push, push_before, remove,
  Yield, finish, item, blocked,
}

pub record BoundedAsyncQueue (T E : Type 0) : Type 0 where
  pub base : AsyncQueue T E
  pub max_size : ℕ
  pub push_cond : CoCondition

module _ {T E : Type 0} where
  abbrev pub full : BoundedAsyncQueue T E → Bool
  full b = leb b.max_size (length b.base.queue)

  unfoldable pub bounded_close_push : Option E → BoundedAsyncQueue T E → BoundedAsyncQueue T E
  bounded_close_push e b = record b {
    base = close_push e b.base;
    push_cond = notify_all b.push_cond;
  }

  unfoldable pub bounded_close : Option E → BoundedAsyncQueue T E → BoundedAsyncQueue T E
  bounded_close e b = record b { base = close e b.base; push_cond = notify_all b.push_cond }

  -- `closeWhenEmpty` is the base class's, which calls the override of `close`.
  unfoldable pub bounded_close_when_empty : Option E → BoundedAsyncQueue T E → BoundedAsyncQueue T E
  unfolding bounded_close
  bounded_close_when_empty e b =
      if is_empty b.base.queue
      then bounded_close e b
      else record b { base = set_close_when_empty e b.base }

  unfoldable pub bounded_push : T → BoundedAsyncQueue T E → Bool × BoundedAsyncQueue T E
  bounded_push t b =
      if full b then (false, b) else ((push t b.base).0, record b { base = (push t b.base).1 })

  unfoldable pub bounded_push_before : ℕ → T → BoundedAsyncQueue T E → Bool × BoundedAsyncQueue T E
  bounded_push_before i t b =
      if full b
      then (false, b)
      else ((push_before i t b.base).0, record b { base = (push_before i t b.base).1 })

  -- The end of the base class's `pop`, with the items that are left.
  abbrev pub bounded_after_pop : List T → BoundedAsyncQueue T E → BoundedAsyncQueue T E
  bounded_after_pop rest b =
      let b' = record b { base = record (b.base) { queue = rest } } in
      if b.base.close_when_empty && is_empty rest then bounded_close none b' else b'

  abbrev pub bounded_pop_from : List T → BoundedAsyncQueue T E → Result (T × BoundedAsyncQueue T E)
  bounded_pop_from [] b = err assertion
  bounded_pop_from (t ∷ rest) b =
      let b' = bounded_after_pop rest b in
      ok (t, if full b then record b' { push_cond = notify_one b'.push_cond } else b')

  unfoldable pub bounded_pop : BoundedAsyncQueue T E → Result (T × BoundedAsyncQueue T E)
  unfolding bounded_close
  bounded_pop b = bounded_pop_from b.base.queue b

  unfoldable pub bounded_remove :
      (T → Bool) → BoundedAsyncQueue T E → Result (Bool × BoundedAsyncQueue T E)
  bounded_remove p b = do
    (removed, q) ← remove p b.base
    let b' = record b { base = q }
    ok (
      removed,
      if full b && removed then record b' { push_cond = notify_one b'.push_cond } else b',
    )

  -- One round of the loop of `asyncPush`, run by the coroutine `h`: `none` means that it waits.
  unfoldable pub async_push : ℕ → T → BoundedAsyncQueue T E → Option Bool × BoundedAsyncQueue T E
  unfolding bounded_push
  async_push h t b =
      if full b && is_state b.base.state is_open
      then (none, record b { push_cond = await h b.push_cond })
      else (some (bounded_push t b).0, (bounded_push t b).1)
