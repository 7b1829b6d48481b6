-- ===== src/Scheduler/Turn.antt =====
-- `nextOr`: which coroutine it resumes, and when it finds none.
use crouton.Common.{
  ℕ, zero, suc, true, false, Option, none, some, List, [], ◌∷◌, ◌++◌, ◌≡◌, refl, arith, All,
  Bool-cases, inl, inr, get_elem?,
}
use mathlib.Core.Path.{subst}
use crouton.Common.Result.{ok}
use crouton.Scheduler.{
  SuspensionImpl, Scheduler, wakers, sleepers, any_waker, schedule_wakers, pop_ready, next_or,
}
use crouton.Scheduler.Entries.{}
use crouton.Scheduler.Invariant.{IsValid, IsNoticed}

asleep_of_sleepers : (es : List SuspensionImpl) → any_waker (sleepers es) ≡ false
unfolding any_waker sleepers
asleep_of_sleepers [] = refl
asleep_of_sleepers (e ∷ es) = ground (arith, asleep_of_sleepers es)

asleep_of_noticed : (es : List SuspensionImpl) → All (IsNoticed false) es → any_waker es ≡ false
unfolding any_waker
asleep_of_noticed [] a = refl
asleep_of_noticed (e ∷ es) (p, a) = ground (arith, asleep_of_noticed es a)

pop_ready_cases :
    (s t : Scheduler) (r : List ℕ) → pop_ready none s r ≡ (none, t) → (r ≡ []) × (t ≡ s)
unfolding pop_ready
pop_ready_cases s t [] h = (refl, ground arith)
pop_ready_cases s t (x ∷ r) h = absurd (cc h)

schedule_wakers_asleep :
    (s : Scheduler) → IsValid s → any_waker (schedule_wakers s).suspended ≡ false
unfolding schedule_wakers
schedule_wakers_asleep s v = elim (Bool-cases s.woke) [
  | inl set ↦ rw (set, schedule_wakers) (asleep_of_sleepers s.suspended)
  | inr unset ↦
      let quiet : All (IsNoticed false) s.suspended =
        subst (λ w. All (IsNoticed w) s.suspended) unset v.noticed in
      rw (unset, schedule_wakers) (asleep_of_noticed s.suspended quiet)
]

-- Where `nextOr` finds nothing to run, the queue is empty and no live coroutine is left woken: no
-- wake-up has been lost.
pub next_or_idle :
    (s t : Scheduler)
    → IsValid s
    → next_or true none s ≡ ok (none, t)
    → (t.ready ≡ []) × (any_waker t.suspended ≡ false)
unfolding next_or
next_or_idle s t v h =
    let s' : Scheduler = schedule_wakers s in
    let popped : pop_ready none s' s'.ready ≡ (none, t) = ground arith in
    let (drained, same) = pop_ready_cases s' t s'.ready popped in
    (rw same drained, rw same (schedule_wakers_asleep s v))

pop_ready_turn :
    (d n : Option ℕ) (s t : Scheduler) (r : List ℕ) (i h : ℕ)
    → pop_ready d s r ≡ (n, t)
    → get_elem? r (suc i) ≡ some h
    → get_elem? t.ready i ≡ some h
unfolding pop_ready
pop_ready_turn d n s t [] i h e g = cc
pop_ready_turn d n s t (x ∷ r) i h e g =
    let rest : r ≡ t.ready = ground arith in subst (λ l. get_elem? l i ≡ some h) rest g

get_elem?-append :
    (xs ys : List ℕ) (i h : ℕ) → get_elem? xs i ≡ some h → get_elem? (xs ++ ys) i ≡ some h
get_elem?-append [] ys i h g = cc
get_elem?-append (x ∷ xs) ys zero h g = g
get_elem?-append (x ∷ xs) ys (suc i) h g = get_elem?-append xs ys i h g

schedule_wakers_turn :
    (s : Scheduler) (i h : ℕ)
    → get_elem? s.ready i ≡ some h
    → get_elem? (schedule_wakers s).ready i ≡ some h
unfolding schedule_wakers
schedule_wakers_turn s i h g = ground (arith, get_elem?-append s.ready (wakers s.suspended) i h)

pop_ready_first :
    (d n : Option ℕ) (s t : Scheduler) (r : List ℕ) (h : ℕ)
    → pop_ready d s r ≡ (n, t)
    → get_elem? r 0 ≡ some h
    → n ≡ some h
unfolding pop_ready
pop_ready_first d n s t [] h e g = cc
pop_ready_first d n s t (x ∷ r) h e g = ground arith

-- The ready queue is served in turn: `nextOr` resumes the coroutine at the front, whichever others
-- wake up meanwhile, and each other one moves up by one place.
pub next_or_turn :
    (s t : Scheduler) (d n : Option ℕ)
    → next_or true d s ≡ ok (n, t)
    → ((h : ℕ) → get_elem? s.ready 0 ≡ some h → n ≡ some h)
      × ((i h : ℕ) → get_elem? s.ready (suc i) ≡ some h → get_elem? t.ready i ≡ some h)
unfolding next_or
next_or_turn s t d n e =
    let s' : Scheduler = schedule_wakers s in
    let popped : pop_ready d s' s'.ready ≡ (n, t) = ground arith in
    (
      λ h g. pop_ready_first d n s' t s'.ready h popped (schedule_wakers_turn s 0 h g),
      λ i h g. pop_ready_turn d n s' t s'.ready i h popped (schedule_wakers_turn s (suc i) h g),
    )
