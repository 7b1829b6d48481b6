-- ===== src/Scheduler/Waking.antt =====
-- `Suspension::wakeUp` and `Suspension::cancel` keep the invariant.
use crouton.Common.{ℕ, Bool, true, none, some, ◌≡◌, refl, sym, arith, Option-cases, inl, inr, ◌⊎◌}
use mathlib.Core.Path.{subst}
use crouton.Common.Result.{Result, ok, err}
use crouton.Scheduler.{
  SuspensionImpl, Scheduler, Suspension, leave_empty, find, store, woken, stop_loop, wake_up,
  SuspensionImpl_wake_up, SuspensionImpl_cancel, Suspension_wake_up, Suspension_cancel,
}
use crouton.Scheduler.Entries.{All-find}
use crouton.Scheduler.Queue.{IsNamed}
use crouton.Scheduler.Invariant.{IsUnqueued, IsValid, stored-IsValid}

pub wake_up_frame :
    (c : Bool) (s t : Scheduler)
    → wake_up c s ≡ ok t
    → (t.ready ≡ s.ready) × (t.suspended ≡ s.suspended) × (t.woke ≡ true)
unfolding wake_up stop_loop
wake_up_frame c s t h = ground arith

-- The two outcomes of `SuspensionImpl::wakeUp`: it was woken before, or this call wakes it.
pub impl_wake_up_cases :
    (c : Bool) (e : SuspensionImpl) (s t : Scheduler)
    → SuspensionImpl_wake_up c e s ≡ ok t
    → (t ≡ s)
      ⊎ ((t.ready ≡ s.ready) × (t.suspended ≡ store (woken e) s.suspended) × (t.woke ≡ true))
unfolding SuspensionImpl_wake_up
impl_wake_up_cases c e s t h =
    ground (arith, wake_up_frame c (record s { suspended = store (woken e) s.suspended }) t)

abbrev pub dropped : SuspensionImpl → SuspensionImpl
dropped e = record e { handle = none }

pub impl_cancel_cases :
    (c : Bool) (e : SuspensionImpl) (s t : Scheduler)
    → SuspensionImpl_cancel c e s ≡ ok t
    → ((e.wake_me ≡ true) × (t ≡ record s { suspended = store (dropped e) s.suspended }))
      ⊎ ((t.ready ≡ s.ready)
          × (t.suspended ≡ store (woken (dropped e)) s.suspended)
          × (t.woke ≡ true))
unfolding SuspensionImpl_cancel
impl_cancel_cases c e s t h =
    ground
      (arith, wake_up_frame c (record s { suspended = store (woken (dropped e)) s.suspended }) t)

-- What a call through a `Suspension` returns beside the empty pointer.
pub emptied :
    (r : Result Scheduler) (q : Suspension) (t : Scheduler) → leave_empty r ≡ ok (q, t) → r ≡ ok t
emptied (ok s') q t h = ground arith
emptied (err e) q t h = cc

module _ (c : Bool) (s t : Scheduler) (v : IsValid s) where
  pub impl_wake_up-IsValid :
      (k : ℕ) (e : SuspensionImpl)
      → find k s.suspended ≡ some e
      → SuspensionImpl_wake_up c e s ≡ ok t
      → IsValid t
  impl_wake_up-IsValid k e found h = elim (impl_wake_up_cases c e s t h) [
    | inl same ↦ subst IsValid (sym same) v
    | inr (same_ready, same_suspended, set) ↦
        stored-IsValid s t (woken e) v
          (All-find (IsUnqueued s.ready) k s.suspended v.unqueued found)
          (All-find IsNamed k s.suspended v.named found) (rw set (ground arith)) refl (inr set)
          same_ready same_suspended
  ]

  pub impl_cancel-IsValid :
      (k : ℕ) (e : SuspensionImpl)
      → find k s.suspended ≡ some e
      → SuspensionImpl_cancel c e s ≡ ok t
      → IsValid t
  impl_cancel-IsValid k e found h =
      let queue = All-find (IsUnqueued s.ready) k s.suspended v.unqueued found in
      elim (impl_cancel_cases c e s t h) [
        | inl (woken_before, same) ↦
            stored-IsValid s t (dropped e) v queue (inl refl) (ground arith) (ground arith)
              (inl (ground arith)) (ground arith) (ground arith)
        | inr (same_ready, same_suspended, set) ↦
            stored-IsValid s t (woken (dropped e)) v queue (inl refl) refl refl (inr set) same_ready
              same_suspended
      ]

  pub Suspension_wake_up-IsValid :
      (p q : Suspension) → Suspension_wake_up c p s ≡ ok (q, t) → IsValid t
  unfolding Suspension_wake_up
  Suspension_wake_up-IsValid none q h = let same : s ≡ t = ground arith in subst IsValid same v
  Suspension_wake_up-IsValid (some k) q h = elim (Option-cases (find k s.suspended)) [
    | inl missing ↦ cc (rw (missing, Suspension_wake_up) at h)
    | inr (e, found) ↦
        impl_wake_up-IsValid k e found
          (emptied (SuspensionImpl_wake_up c e s) q t (rw (found, Suspension_wake_up) at h))
  ]

  pub Suspension_cancel-IsValid :
      (p q : Suspension) → Suspension_cancel c p s ≡ ok (q, t) → IsValid t
  unfolding Suspension_cancel
  Suspension_cancel-IsValid none q h = let same : s ≡ t = ground arith in subst IsValid same v
  Suspension_cancel-IsValid (some k) q h = elim (Option-cases (find k s.suspended)) [
    | inl missing ↦ cc (rw (missing, Suspension_cancel) at h)
    | inr (e, found) ↦
        impl_cancel-IsValid k e found
          (emptied (SuspensionImpl_cancel c e s) q t (rw (found, Suspension_cancel) at h))
  ]
