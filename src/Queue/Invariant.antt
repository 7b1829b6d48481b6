-- ===== src/Queue/Invariant.antt =====
-- The invariant of `AsyncQueue` under its operations and its generator.
use crouton.Common.{
  ℕ, ◌≤◌, Bool, true, not, ◌||◌, Option, none, List, [], ◌∷◌, is_empty, length, take, drop, ◌≡◌,
  refl, arith, length-append, length-take, length-drop,
}
use mathlib.Core.Path.{subst}
use crouton.Common.Result.{ok}
use crouton.CoCondition.{await, notify_one}
use crouton.Queue.{
  closing, closed, is_state, AsyncQueue, close_push, close, set_close_when_empty, push, push_before,
  pop, pop_from, remove, remove_first, finish, yield_front, generate, generate_woken, after_pop,
  new_queue,
}

is_empty-remove_first :
    {T : Type 0} (p : T → Bool) (l : List T)
    → is_empty l ≡ true
    → is_empty (remove_first p l) ≡ true
unfolding remove_first
is_empty-remove_first p [] h = refl
is_empty-remove_first p (x ∷ l) h = cc

module _ {T E : Type 0} where
  -- A closed queue holds nothing and keeps nobody waiting; a closing one will close when it is
  -- empty; at most one coroutine waits for an item, and only while there is none.
  pub record IsValid (q : AsyncQueue T E) : Type 0 where
    pub closed_empty : (not (is_state q.state closed) || is_empty q.queue) ≡ true
    pub closed_quiet : (not (is_state q.state closed) || is_empty q.pull_cond.awaiters) ≡ true
    pub closing_ends : (not (is_state q.state closing) || q.close_when_empty) ≡ true
    pub one_waits : length q.pull_cond.awaiters ≤ 1
    pub waits_empty : (is_empty q.pull_cond.awaiters || is_empty q.queue) ≡ true

  pub close-IsValid : (e : Option E) (q : AsyncQueue T E) → IsValid q → IsValid (close e q)
  unfolding close
  close-IsValid e q v = ground arith

  pub close_push-IsValid :
      (e : Option E) (q : AsyncQueue T E) → IsValid q → IsValid (close_push e q)
  unfolding close_push
  close_push-IsValid e q v = ground arith

  pub set_close_when_empty-IsValid :
      (e : Option E) (q : AsyncQueue T E) → IsValid q → IsValid (set_close_when_empty e q)
  unfolding set_close_when_empty
  set_close_when_empty-IsValid e q v = ground (arith, close-IsValid e q v)

  pub push-IsValid : (t : T) (q : AsyncQueue T E) → IsValid q → IsValid (push t q).1
  unfolding push notify_one
  push-IsValid t q v = ground (arith, length-append q.queue (t ∷ []))

  pub push_before-IsValid :
      (i : ℕ) (t : T) (q : AsyncQueue T E) → IsValid q → IsValid (push_before i t q).1
  unfolding push_before notify_one
  push_before-IsValid i t q v = ground (
    arith,
    length-append (take i q.queue) (t ∷ drop i q.queue),
    length-take i q.queue,
    length-drop i q.queue,
  )

  after_pop-IsValid :
      (q : AsyncQueue T E) (t : T) (rest : List T)
      → IsValid q
      → q.queue ≡ t ∷ rest
      → IsValid (after_pop (record q { queue = rest }))
  after_pop-IsValid q t rest v e = ground (arith, close-IsValid none (record q { queue = rest }))

  pub pop-IsValid : (q q' : AsyncQueue T E) (t : T) → IsValid q → pop q ≡ ok (t, q') → IsValid q'
  unfolding pop
  pop-IsValid q q' t v e = from q.queue refl (e)
    where
      from : (l : List T) → q.queue ≡ l → pop_from q l ≡ ok (t, q') → IsValid q'
      from [] same h = cc
      from (x ∷ rest) same h =
          let out : after_pop (record q { queue = rest }) ≡ q' = ground arith in
          subst IsValid out (after_pop-IsValid q x rest v same)

  pub remove-IsValid :
      (p : T → Bool) (q q' : AsyncQueue T E) (b : Bool)
      → IsValid q
      → remove p q ≡ ok (b, q')
      → IsValid q'
  unfolding remove
  remove-IsValid p q q' b v e = ground (arith, is_empty-remove_first p q.queue)

  yield_front-IsValid :
      (q : AsyncQueue T E) (l : List T) → IsValid q → q.queue ≡ l → IsValid (yield_front q l).1
  unfolding yield_front
  yield_front-IsValid q [] v e = ground arith
  yield_front-IsValid q (x ∷ rest) v e = after_pop-IsValid q x rest v e

  finish_keeps : (q : AsyncQueue T E) → (finish q).1 ≡ q
  finish_keeps q = ground arith

  pub generate-IsValid :
      (h : ℕ) (q : AsyncQueue T E)
      → IsValid q
      → q.pull_cond.awaiters ≡ []
      → IsValid (generate h q).1
  unfolding generate await
  generate-IsValid h q v quiet = ground (
    arith,
    finish_keeps q,
    finish_keeps (close none q),
    close-IsValid none q v,
    yield_front-IsValid q q.queue v refl,
  )

  pub generate_woken-IsValid : (q : AsyncQueue T E) → IsValid q → IsValid (generate_woken q).1
  unfolding generate_woken
  generate_woken-IsValid q v = yield_front-IsValid q q.queue v refl

  -- The generator's coroutine runs only while it is not waiting.
  pub data Step (q r : AsyncQueue T E) : Type 0 where
    step_push : (t : T) → r ≡ (push t q).1 → Step q r
    step_push_before : (i : ℕ) (t : T) → r ≡ (push_before i t q).1 → Step q r
    step_close_push : (e : Option E) → r ≡ close_push e q → Step q r
    step_close : (e : Option E) → r ≡ close e q → Step q r
    step_close_when_empty : (e : Option E) → r ≡ set_close_when_empty e q → Step q r
    step_pop : (t : T) → pop q ≡ ok (t, r) → Step q r
    step_remove : (p : T → Bool) (b : Bool) → remove p q ≡ ok (b, r) → Step q r
    step_generate : (h : ℕ) → q.pull_cond.awaiters ≡ [] → r ≡ (generate h q).1 → Step q r
    step_woken : q.pull_cond.awaiters ≡ [] → r ≡ (generate_woken q).1 → Step q r

  pub data Reach : AsyncQueue T E → Type 0 where
    start : Reach new_queue
    next : {q r : AsyncQueue T E} → Reach q → Step q r → Reach r

  Step-IsValid : (q r : AsyncQueue T E) → Step q r → IsValid q → IsValid r
  Step-IsValid q r (step_push t e) v = rw e (push-IsValid t q v)
  Step-IsValid q r (step_push_before i t e) v = rw e (push_before-IsValid i t q v)
  Step-IsValid q r (step_close_push o e) v = rw e (close_push-IsValid o q v)
  Step-IsValid q r (step_close o e) v = rw e (close-IsValid o q v)
  Step-IsValid q r (step_close_when_empty o e) v = rw e (set_close_when_empty-IsValid o q v)
  Step-IsValid q r (step_pop t e) v = pop-IsValid q r t v e
  Step-IsValid q r (step_remove p b e) v = remove-IsValid p q r b v e
  Step-IsValid q r (step_generate h quiet e) v = rw e (generate-IsValid h q v quiet)
  Step-IsValid q r (step_woken quiet e) v = rw e (generate_woken-IsValid q v)

  -- In every state that pushes, pops, removals, the ways to close and runs of one generator reach
  -- from a new queue: a closed queue holds no item and keeps nobody waiting, a closing one is to
  -- close when empty, and at most one coroutine waits for an item, and only while there is none.
  pub Reach-IsValid_queue : {q : AsyncQueue T E} → Reach q → IsValid q
  Reach-IsValid_queue start =
      unfold new_queue in
      record {
        closed_empty = refl;
        closed_quiet = refl;
        closing_ends = refl;
        one_waits = omega arith;
        waits_empty = refl;
      }
  Reach-IsValid_queue (next {q} {r} reach st) = Step-IsValid q r st (Reach-IsValid_queue reach)
