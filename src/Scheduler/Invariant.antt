-- ===== src/Scheduler/Invariant.antt =====
-- The scheduler's invariant, and that a write of one entry keeps it.
use crouton.Common.{
  ℕ, ◌==◌, Bool, true, false, ◌||◌, List, [], ◌∷◌, ◌++◌, ◌≡◌, arith, elem, All, inl, inr, ◌⊎◌, not,
}
use mathlib.Core.Path.{subst}
use crouton.Scheduler.{SuspensionImpl, Scheduler, store, remove, wants_to_wake}
use crouton.Scheduler.Entries.{Distinct, IsNodup, All-store, Distinct-store}
use crouton.Scheduler.Queue.{IsNamed, elem-append, elem-remove}

-- The entry's coroutine is not in the queue.
abbrev pub IsUnqueued : List ℕ → SuspensionImpl → Type 0
IsUnqueued r e = elem e.key r ≡ false

-- No wake-up is lost: where a live coroutine has been woken, `_woke` is set.
abbrev pub IsNoticed : Bool → SuspensionImpl → Type 0
IsNoticed woke e = (not (wants_to_wake e) || woke) ≡ true

-- An entry that has not been woken knows its scheduler.
abbrev pub IsBound : SuspensionImpl → Type 0
IsBound e = (e.wake_me || e.attached) ≡ true

pub record IsValid (s : Scheduler) : Type 0 where
  pub unqueued : All (IsUnqueued s.ready) s.suspended
  pub named : All IsNamed s.suspended
  pub noticed : All (IsNoticed s.woke) s.suspended
  pub bound : All IsBound s.suspended
  pub distinct : Distinct s.suspended
  pub nodup : IsNodup s.ready

pub IsNoticed-true : (es : List SuspensionImpl) → All (IsNoticed true) es
IsNoticed-true [] = tt
IsNoticed-true (e ∷ es) = (ground arith, IsNoticed-true es)

pub IsNoticed-mono :
    (a b : Bool) (es : List SuspensionImpl)
    → (a ≡ b) ⊎ (b ≡ true)
    → All (IsNoticed a) es
    → All (IsNoticed b) es
IsNoticed-mono a b es (inl same) h = subst (λ w. All (IsNoticed w) es) same h
IsNoticed-mono a true es (inr set) h = IsNoticed-true es
IsNoticed-mono a false es (inr set) h = cc

pub IsUnqueued-append :
    (h : ℕ) (r : List ℕ) (es : List SuspensionImpl)
    → All (λ e. (e.key == h) ≡ false) es
    → All (IsUnqueued r) es
    → All (IsUnqueued (r ++ h ∷ [])) es
IsUnqueued-append h r [] n q = tt
IsUnqueued-append h r (e ∷ es) (n, ns) (p, q) =
    (rw (elem-append, p) (ground arith), IsUnqueued-append h r es ns q)

pub IsUnqueued-both :
    (r ws : List ℕ) (es : List SuspensionImpl)
    → All (IsUnqueued r) es
    → All (IsUnqueued ws) es
    → All (IsUnqueued (r ++ ws)) es
IsUnqueued-both r ws [] p q = tt
IsUnqueued-both r ws (e ∷ es) (p, ps) (q, qs) =
    (rw (elem-append, p) q, IsUnqueued-both r ws es ps qs)

pub IsUnqueued-remove :
    (h : ℕ) (r : List ℕ) (es : List SuspensionImpl)
    → All (IsUnqueued r) es
    → All (IsUnqueued (remove h r)) es
IsUnqueued-remove h r [] q = tt
IsUnqueued-remove h r (e ∷ es) (p, q) = (elem-remove e.key h r p, IsUnqueued-remove h r es q)

pub IsUnqueued-tail :
    (h : ℕ) (r : List ℕ) (es : List SuspensionImpl)
    → All (IsUnqueued (h ∷ r)) es
    → All (IsUnqueued r) es
IsUnqueued-tail h r [] q = tt
IsUnqueued-tail h r (e ∷ es) (p, q) = (ground arith, IsUnqueued-tail h r es q)

-- A write of one entry, with whatever happens to the event loop.
pub stored-IsValid :
    (s t : Scheduler) (e : SuspensionImpl)
    → IsValid s
    → IsUnqueued s.ready e
    → IsNamed e
    → IsNoticed t.woke e
    → IsBound e
    → (s.woke ≡ t.woke) ⊎ (t.woke ≡ true)
    → t.ready ≡ s.ready
    → t.suspended ≡ store e s.suspended
    → IsValid t
stored-IsValid s t e v q n w b set same_ready same_suspended = record {
  unqueued =
      rw (same_ready, same_suspended) (All-store (IsUnqueued s.ready) e s.suspended q v.unqueued);
  named = rw same_suspended (All-store IsNamed e s.suspended n v.named);
  noticed = rw same_suspended (
      All-store (IsNoticed t.woke) e s.suspended w
        (IsNoticed-mono s.woke t.woke s.suspended set v.noticed));
  bound = rw same_suspended (All-store IsBound e s.suspended b v.bound);
  distinct = rw same_suspended (Distinct-store e s.suspended v.distinct);
  nodup = rw same_ready v.nodup;
}
