-- ===== src/Queue/Bounded/Capacity.antt =====
-- The bound on the size, and who is woken when there is room.
use crouton.Common.{
  ℕ, ◌≤◌, Bool, true, false, Option, none, some, List, [], ◌∷◌, ◌++◌, length, take, drop,
  length-append, length-take, length-drop, ◌≡◌, ◌↔◌, refl, arith,
}
use crouton.Common.Result.{ok}
use crouton.CoCondition.{notify_one}
use crouton.Queue.{
  is_state, is_open, close, close_push, set_close_when_empty, push, push_before, remove,
  remove_first,
}
use crouton.Queue.Bounded.{
  BoundedAsyncQueue, full, bounded_close_push, bounded_close, bounded_close_when_empty,
  bounded_push, bounded_push_before, bounded_pop, bounded_pop_from, bounded_remove, async_push,
}

length-remove_first :
    {T : Type 0} (p : T → Bool) (l : List T) → length (remove_first p l) ≤ length l
unfolding remove_first
length-remove_first p [] = omega arith
length-remove_first p (x ∷ l) = ground (arith, length-remove_first p l)

module _ {T E : Type 0} where
  abbrev pub Fits : BoundedAsyncQueue T E → Type 0
  Fits b = length b.base.queue ≤ b.max_size

  pub data Step (b c : BoundedAsyncQueue T E) : Type 0 where
    step_push : (t : T) → c ≡ (bounded_push t b).1 → Step b c
    step_push_before : (i : ℕ) (t : T) → c ≡ (bounded_push_before i t b).1 → Step b c
    step_async_push : (h : ℕ) (t : T) → c ≡ (async_push h t b).1 → Step b c
    step_close_push : (e : Option E) → c ≡ bounded_close_push e b → Step b c
    step_close : (e : Option E) → c ≡ bounded_close e b → Step b c
    step_close_when_empty : (e : Option E) → c ≡ bounded_close_when_empty e b → Step b c
    step_pop : (t : T) → bounded_pop b ≡ ok (t, c) → Step b c
    step_remove : (p : T → Bool) (r : Bool) → bounded_remove p b ≡ ok (r, c) → Step b c

  push-Fits : (t : T) (b : BoundedAsyncQueue T E) → Fits b → Fits (bounded_push t b).1
  unfolding bounded_push push
  push-Fits t b f = ground (arith, length-append b.base.queue (t ∷ []))

  push_before-Fits :
      (i : ℕ) (t : T) (b : BoundedAsyncQueue T E) → Fits b → Fits (bounded_push_before i t b).1
  unfolding bounded_push_before push_before
  push_before-Fits i t b f = ground (
    arith,
    length-append (take i b.base.queue) (t ∷ drop i b.base.queue),
    length-take i b.base.queue,
    length-drop i b.base.queue,
  )

  close-Fits : (e : Option E) (b : BoundedAsyncQueue T E) → Fits b → Fits (bounded_close e b)
  unfolding bounded_close close
  close-Fits e b f = ground arith

  pop_from-Fits :
      (l : List T) (b c : BoundedAsyncQueue T E) (t : T)
      → length l ≤ b.max_size
      → bounded_pop_from l b ≡ ok (t, c)
      → Fits c
  pop_from-Fits [] b c t f e = cc
  pop_from-Fits (x ∷ rest) b c t f e =
      let left : BoundedAsyncQueue T E = record b { base = record (b.base) { queue = rest } } in
      ground (arith, close-Fits none left)

  pop-Fits : (b c : BoundedAsyncQueue T E) (t : T) → Fits b → bounded_pop b ≡ ok (t, c) → Fits c
  unfolding bounded_pop
  pop-Fits b c t f e = pop_from-Fits b.base.queue b c t f e

  remove-Fits :
      (p : T → Bool) (b c : BoundedAsyncQueue T E) (r : Bool)
      → Fits b
      → bounded_remove p b ≡ ok (r, c)
      → Fits c
  unfolding bounded_remove remove
  remove-Fits p b c r f e = ground (arith, length-remove_first p b.base.queue)

  Step-Fits : (b c : BoundedAsyncQueue T E) → Step b c → Fits b → Fits c
  Step-Fits b c (step_push t e) f = rw e (push-Fits t b f)
  Step-Fits b c (step_push_before i t e) f = rw e (push_before-Fits i t b f)
  Step-Fits b c (step_async_push h t e) f =
      rw e (unfold async_push in ground (arith, push-Fits t b f))
  Step-Fits b c (step_close_push d e) f =
      rw e (unfold bounded_close_push close_push in ground arith)
  Step-Fits b c (step_close d e) f = rw e (close-Fits d b f)
  Step-Fits b c (step_close_when_empty d e) f =
      rw e
        (unfold bounded_close_when_empty set_close_when_empty in ground (arith, close-Fits d b f))
  Step-Fits b c (step_pop t e) f = pop-Fits b c t f e
  Step-Fits b c (step_remove p r e) f = remove-Fits p b c r f e

  pub data Reach (b : BoundedAsyncQueue T E) : BoundedAsyncQueue T E → Type 0 where
    here : Reach b b
    next : {c d : BoundedAsyncQueue T E} → Reach b c → Step c d → Reach b d

  -- A bounded queue never holds more than its maximum, whatever is called on it, if it did not at
  -- first.
  pub Reach-Fits : {b c : BoundedAsyncQueue T E} → Fits b → Reach b c → Fits c
  Reach-Fits f here = f
  Reach-Fits f (next {c} {d} r st) = Step-Fits c d st (Reach-Fits f r)

  pop_from_room :
      (l : List T) (b c : BoundedAsyncQueue T E) (t u : T)
      → length l ≡ b.max_size
      → b.base.queue ≡ l
      → b.base.state ≡ is_open
      → b.base.close_when_empty ≡ false
      → bounded_pop_from l b ≡ ok (t, c)
      → (c.push_cond ≡ notify_one b.push_cond) × ((bounded_push u c).0 ≡ true)
  unfolding bounded_push push
  pop_from_room [] b c t u size same opened lasting e = cc
  pop_from_room (x ∷ rest) b c t u size same opened lasting e = ground arith

  -- A pop from a full open queue that is not about to end wakes the first coroutine that waits to
  -- push, and makes room: the next push succeeds.
  pub pop_makes_room :
      (b c : BoundedAsyncQueue T E) (t u : T)
      → length b.base.queue ≡ b.max_size
      → b.base.state ≡ is_open
      → b.base.close_when_empty ≡ false
      → bounded_pop b ≡ ok (t, c)
      → (c.push_cond ≡ notify_one b.push_cond) × ((bounded_push u c).0 ≡ true)
  unfolding bounded_pop
  pop_makes_room b c t u size opened lasting e =
      pop_from_room b.base.queue b c t u size refl opened lasting e

  -- The three outcomes of a round of `asyncPush`: it waits exactly when the queue is open and full,
  -- it answers false exactly when the queue is not open, and else the item is at the end.
  pub async_push_outcome :
      (h : ℕ) (t : T) (b : BoundedAsyncQueue T E)
      → (((async_push h t b).0 ≡ none) ↔ ((full b ≡ true) × (is_state b.base.state is_open ≡ true)))
        × (((async_push h t b).0 ≡ some false) ↔ (is_state b.base.state is_open ≡ false))
        × ((async_push h t b).0 ≡ some true
            → (async_push h t b).1.base.queue ≡ b.base.queue ++ t ∷ [])
  unfolding async_push push
  async_push_outcome h t b = ground arith
