-- ===== src/Scheduler/Calls.antt =====
-- The scheduler's own operations keep the invariant.
use crouton.Common.{
  ℕ, Bool, true, false, Option, none, List, [], ◌∷◌, ◌++◌, ◌≡◌, refl, sym, ◌∙◌, All-append, arith,
  elem, All, Bool-cases, Option-cases, inl, inr,
}
use mathlib.Core.Path.{subst}
use crouton.Common.Result.{ok, >>=-eq-ok}
use crouton.Scheduler.{
  SuspensionImpl, Scheduler, Suspension, find, erase, wakers, sleepers, emplace, remove, is_ready,
  is_waiting, schedule, yield_to, resumed, schedule_wakers, pop_ready, next_or, suspend, fresh,
  is_idle, forget, destroying,
}
use crouton.Scheduler.Entries.{
  IsNodup, All-find, All-erase, All-sleepers, Distinct-erase, Distinct-sleepers, Distinct-append,
}
use crouton.Scheduler.Queue.{
  IsNamed, IsNodup-remove, IsNodup-wakers, All-ne, sleepers-wakers, wakers-apart, IsNodup-append,
}
use crouton.Scheduler.Invariant.{
  IsUnqueued, IsNoticed, IsBound, IsValid, IsUnqueued-append, IsUnqueued-both, IsUnqueued-remove,
  IsUnqueued-tail, stored-IsValid,
}

module _ (c : Bool) (s t : Scheduler) (v : IsValid s) where
  pub schedule-IsValid : (h : ℕ) → schedule c h s ≡ ok t → IsValid t
  unfolding schedule is_waiting is_ready
  schedule-IsValid h done = ground (
    arith,
    All-ne h s.suspended,
    IsUnqueued-append h s.ready s.suspended,
    IsNodup-append s.ready (h ∷ []) v.nodup,
    v.unqueued,
    v.named,
    v.noticed,
    v.bound,
    v.distinct,
    v.nodup,
  )

  pub resumed-IsValid : (h : ℕ) → resumed c h s ≡ ok t → IsValid t
  unfolding resumed
  resumed-IsValid h done = ground (
    arith,
    IsUnqueued-remove h s.ready s.suspended,
    IsNodup-remove h s.ready,
    v.unqueued,
    v.named,
    v.noticed,
    v.bound,
    v.distinct,
    v.nodup,
  )

pub sleepers-IsNoticed : (es : List SuspensionImpl) → All (IsNoticed false) (sleepers es)
unfolding sleepers
sleepers-IsNoticed [] = tt
sleepers-IsNoticed (e ∷ es) = ground (arith, sleepers-IsNoticed es)

pub schedule_wakers-IsValid : (s : Scheduler) → IsValid s → IsValid (schedule_wakers s)
unfolding schedule_wakers
schedule_wakers-IsValid s v = elim (Bool-cases s.woke) [
  | inl set ↦
      rw (set, schedule_wakers)
        (record {
          unqueued =
              IsUnqueued-both s.ready (wakers s.suspended) (sleepers s.suspended)
                (All-sleepers (IsUnqueued s.ready) s.suspended v.unqueued)
                (sleepers-wakers s.suspended v.named v.distinct);
          named = All-sleepers IsNamed s.suspended v.named;
          noticed = sleepers-IsNoticed s.suspended;
          bound = All-sleepers IsBound s.suspended v.bound;
          distinct = Distinct-sleepers s.suspended v.distinct;
          nodup =
              IsNodup-append s.ready (wakers s.suspended) v.nodup
                (IsNodup-wakers s.suspended v.named v.distinct)
                (wakers-apart s.ready s.suspended v.named v.unqueued);
        })
  | inr unset ↦ let same : s ≡ schedule_wakers s = ground arith in subst IsValid same v
]

pub pop_ready-IsValid :
    (dflt : Option ℕ) (s : Scheduler) → IsValid s → IsValid (pop_ready dflt s s.ready).1
unfolding pop_ready
pop_ready-IsValid dflt s v = pop dflt s s.ready refl v
  where
    pop :
        (dflt : Option ℕ) (s : Scheduler) (r : List ℕ)
        → s.ready ≡ r
        → IsValid s
        → IsValid (pop_ready dflt s r).1
    pop dflt s [] same v = v
    pop dflt s (h ∷ r) same v =
        let queue : All (IsUnqueued (h ∷ r)) s.suspended = rw same at v.unqueued in
        let distinct : IsNodup (h ∷ r) = rw same at v.nodup in
        record {
          unqueued = IsUnqueued-tail h r s.suspended queue;
          named = v.named;
          noticed = v.noticed;
          bound = v.bound;
          distinct = v.distinct;
          nodup = distinct.1;
        }

pub next_or-IsValid :
    (c : Bool) (dflt n : Option ℕ) (s t : Scheduler)
    → IsValid s
    → next_or c dflt s ≡ ok (n, t)
    → IsValid t
unfolding next_or
next_or-IsValid true dflt n s t v h =
    let same : (pop_ready dflt (schedule_wakers s) (schedule_wakers s).ready).1 ≡ t =
      ground arith in
    subst IsValid same (pop_ready-IsValid dflt (schedule_wakers s) (schedule_wakers-IsValid s v))
next_or-IsValid false dflt n s t v h = cc

-- After `try_emplace` of a coroutine that is not in the queue.
pub emplaced-IsValid :
    (h : ℕ) (s t : Scheduler)
    → IsValid s
    → elem h s.ready ≡ false
    → t.ready ≡ s.ready
    → t.woke ≡ s.woke
    → t.suspended ≡ emplace h s.suspended
    → IsValid t
unfolding emplace
emplaced-IsValid h s t v out same_ready same_woke same_suspended =
    elim (Option-cases (find h s.suspended)) [
      | inl missing ↦
          let grown : t.suspended ≡ s.suspended ++ fresh h ∷ [] =
            same_suspended ∙ rw (missing, emplace) in
          record {
            unqueued =
                rw (same_ready, grown)
                  (All-append (IsUnqueued s.ready) s.suspended _ v.unqueued (out, tt));
            named = rw grown (All-append IsNamed s.suspended _ v.named (inr refl, tt));
            noticed =
                rw (same_woke, grown)
                  (All-append (IsNoticed s.woke) s.suspended _ v.noticed (refl, tt));
            bound = rw grown (All-append IsBound s.suspended _ v.bound (refl, tt));
            distinct = rw grown (Distinct-append s.suspended (fresh h) v.distinct missing);
            nodup = rw same_ready v.nodup;
          }
      | inr (e, found) ↦
          stored-IsValid s t (record e { visible = true }) v
            (All-find (IsUnqueued s.ready) h s.suspended v.unqueued found)
            (All-find IsNamed h s.suspended v.named found)
            (rw same_woke (All-find (IsNoticed s.woke) h s.suspended v.noticed found))
            (All-find IsBound h s.suspended v.bound found) (inl (sym same_woke)) same_ready
            (same_suspended ∙ rw (found, emplace))
    ]

pub suspend-IsValid :
    (c : Bool) (h : ℕ) (p : Suspension) (s t : Scheduler)
    → IsValid s
    → suspend c h s ≡ ok (p, t)
    → IsValid t
unfolding suspend is_ready
suspend-IsValid c h p s t v done =
    emplaced-IsValid h s t v (ground arith) (ground arith) (ground arith) (ground arith)

pub remove_ready-IsValid :
    (h : ℕ) (s : Scheduler) → IsValid s → IsValid (record s { ready = remove h s.ready })
remove_ready-IsValid h s v = record {
  unqueued = IsUnqueued-remove h s.ready s.suspended v.unqueued;
  named = v.named;
  noticed = v.noticed;
  bound = v.bound;
  distinct = v.distinct;
  nodup = IsNodup-remove h s.ready v.nodup;
}

pub erase-IsValid :
    (h : ℕ) (s : Scheduler) → IsValid s → IsValid (record s { suspended = erase h s.suspended })
erase-IsValid h s v = record {
  unqueued = All-erase (IsUnqueued s.ready) h s.suspended v.unqueued;
  named = All-erase IsNamed h s.suspended v.named;
  noticed = All-erase (IsNoticed s.woke) h s.suspended v.noticed;
  bound = All-erase IsBound h s.suspended v.bound;
  distinct = Distinct-erase h s.suspended v.distinct;
  nodup = v.nodup;
}

pub forget-IsValid :
    (h : ℕ) (s : Scheduler) (es : List SuspensionImpl)
    → IsValid s
    → forget h s.suspended ≡ ok es
    → IsValid (record s { suspended = es })
unfolding forget
forget-IsValid h s es v done = elim (Option-cases (find h s.suspended)) [
  | inl missing ↦
      let same : s.suspended ≡ es = ground arith in
      subst (λ l. IsValid (record s { suspended = l })) same v
  | inr (e, found) ↦ elim (Bool-cases e.wake_me) [
    | inl awake ↦
        let same : erase h s.suspended ≡ es = ground arith in
        subst (λ l. IsValid (record s { suspended = l })) same (erase-IsValid h s v)
    | inr asleep ↦
        stored-IsValid s (record s { suspended = es }) (record e { wake_me = true; handle = none })
          v (All-find (IsUnqueued s.ready) h s.suspended v.unqueued found) (inl refl) refl refl
          (inl refl) refl (ground arith)
  ]
]

pub destroying-IsValid :
    (c : Bool) (h : ℕ) (s t : Scheduler) → IsValid s → destroying c h s ≡ ok t → IsValid t
unfolding destroying
destroying-IsValid true h s t v done =
    let (es, kept, out) = >>=-eq-ok (forget h s.suspended) _ done in
    let same : record s { suspended = es; ready = remove h s.ready } ≡ t = ground arith in
    subst IsValid same
      (remove_ready-IsValid h (record s { suspended = es }) (forget-IsValid h s es v kept))
destroying-IsValid false h s t v done = cc

pub yield_to-IsValid :
    (c : Bool) (h : ℕ) (n : Option ℕ) (s t : Scheduler)
    → IsValid s
    → yield_to c h s ≡ ok (n, t)
    → IsValid t
unfolding yield_to
yield_to-IsValid c h n s t v done = elim (Bool-cases (is_idle s)) [
  | inl idle ↦ let same : s ≡ t = ground arith in subst IsValid same v
  | inr busy ↦
      let (s', queued, out) = >>=-eq-ok (schedule c h s) _ (rw (busy, yield_to) at done) in
      schedule-IsValid c s t v h (ground arith)
]
