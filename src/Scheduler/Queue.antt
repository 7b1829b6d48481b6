-- ===== src/Scheduler/Queue.antt =====
-- The ready queue: membership and distinctness after the writes, and what a pass of
-- `scheduleWakers` moves into it.
use crouton.Common.{
  ℕ, ◌==◌, if◌then◌else◌, Bool, true, false, ◌||◌, Option, none, some, List, [], ◌∷◌, ◌++◌, ◌≡◌,
  refl, arith, elem, All, ◌⊎◌,
}
use mathlib.Core.Path.{subst}
use crouton.Scheduler.{SuspensionImpl, add_waker, find, wakers, sleepers, remove}
use crouton.Scheduler.Entries.{IsNodup, Distinct, find-sleepers-none}

pub elem-append : (x : ℕ) (xs ys : List ℕ) → elem x (xs ++ ys) ≡ (elem x xs || elem x ys)
elem-append x [] ys = refl
elem-append x (y ∷ xs) ys = ground (arith, elem-append x xs ys)

pub elem-remove : (x h : ℕ) (xs : List ℕ) → elem x xs ≡ false → elem x (remove h xs) ≡ false
unfolding remove
elem-remove x h [] n = refl
elem-remove x h (y ∷ xs) n = ground (arith, elem-remove x h xs)

pub IsNodup-remove : (h : ℕ) (xs : List ℕ) → IsNodup xs → IsNodup (remove h xs)
unfolding remove
IsNodup-remove h [] d = tt
IsNodup-remove h (y ∷ xs) (n, d) = ground (arith, elem-remove y h xs n, IsNodup-remove h xs d)

pub elem-remove_self : (h : ℕ) (xs : List ℕ) → IsNodup xs → elem h (remove h xs) ≡ false
unfolding remove
elem-remove_self h [] d = refl
elem-remove_self h (y ∷ xs) (n, d) = ground (arith, elem-remove_self h xs d)

-- What the invariant says of the handle of an entry.
abbrev pub IsNamed : SuspensionImpl → Type 0
IsNamed e = (e.handle ≡ none) ⊎ (e.handle ≡ some e.key)

pub elem-wakers :
    (k : ℕ) (es : List SuspensionImpl)
    → All IsNamed es
    → find k es ≡ none
    → elem k (wakers es) ≡ false
unfolding find wakers
elem-wakers k [] a n = refl
elem-wakers k (e ∷ es) (named, a) n = ground (arith, elem-wakers k es a)

pub IsNodup-wakers : (es : List SuspensionImpl) → All IsNamed es → Distinct es → IsNodup (wakers es)
unfolding wakers
IsNodup-wakers [] a d = tt
IsNodup-wakers (e ∷ es) (named, a) (n, d) =
    ground (arith, elem-wakers e.key es a n, IsNodup-wakers es a d)

pub All-ne :
    (k : ℕ) (es : List SuspensionImpl) → find k es ≡ none → All (λ e. (e.key == k) ≡ false) es
unfolding find
All-ne k [] n = tt
All-ne k (e ∷ es) n = ground (arith, All-ne k es)

awake_cons :
    (k : ℕ) (xs : List ℕ) (es : List SuspensionImpl)
    → All (λ e. (e.key == k) ≡ false) es
    → All (λ e. elem e.key xs ≡ false) es
    → All (λ e. elem e.key (k ∷ xs) ≡ false) es
awake_cons k xs [] n a = tt
awake_cons k xs (e ∷ es) (n, ns) (p, a) = (ground arith, awake_cons k xs es ns a)

keep_step :
    (w : Bool) (e : SuspensionImpl) (h : Option ℕ) (ws : List ℕ) (es : List SuspensionImpl)
    → (h ≡ none) ⊎ (h ≡ some e.key)
    → elem e.key ws ≡ false
    → All (λ d. (d.key == e.key) ≡ false) es
    → All (λ d. elem d.key ws ≡ false) es
    → All (λ d. elem d.key (add_waker w h ws) ≡ false) (if w then es else e ∷ es)
unfolding add_waker
keep_step false e h ws es named out apart a = (out, a)
keep_step true e none ws es named out apart a = a
keep_step true e (some h) ws es named out apart a =
    let same : e.key ≡ h = ground arith in
    subst (λ k. All (λ d. elem d.key (k ∷ ws) ≡ false) es) same (awake_cons e.key ws es apart a)

-- No entry that stays is among those that wake.
pub sleepers-wakers :
    (es : List SuspensionImpl)
    → All IsNamed es
    → Distinct es
    → All (λ e. elem e.key (wakers es) ≡ false) (sleepers es)
unfolding wakers sleepers
sleepers-wakers [] a d = tt
sleepers-wakers (e ∷ es) (named, a) (n, d) =
    keep_step e.wake_me e e.handle (wakers es) (sleepers es) named (elem-wakers e.key es a n)
      (All-ne e.key (sleepers es) (find-sleepers-none e.key es n)) (sleepers-wakers es a d)

elem_of_apart :
    (x : ℕ) (xs ys : List ℕ)
    → All (λ y. elem y (x ∷ xs) ≡ false) ys
    → (elem x ys ≡ false) × All (λ y. elem y xs ≡ false) ys
elem_of_apart x xs [] a = (refl, tt)
elem_of_apart x xs (y ∷ ys) (p, a) =
    let (out, rest) = elem_of_apart x xs ys a in (ground arith, (ground arith, rest))

pub IsNodup-append :
    (xs ys : List ℕ)
    → IsNodup xs
    → IsNodup ys
    → All (λ y. elem y xs ≡ false) ys
    → IsNodup (xs ++ ys)
IsNodup-append [] ys d c a = c
IsNodup-append (x ∷ xs) ys (n, d) c a =
    let (out, rest) = elem_of_apart x xs ys a in
    (rw (elem-append, n, out), IsNodup-append xs ys d c rest)

-- No coroutine that wakes is in the queue already.
pub wakers-apart :
    (r : List ℕ) (es : List SuspensionImpl)
    → All IsNamed es
    → All (λ e. elem e.key r ≡ false) es
    → All (λ h. elem h r ≡ false) (wakers es)
unfolding wakers
wakers-apart r [] a q = tt
wakers-apart r (e ∷ es) (named, a) (p, q) = ground (arith, wakers-apart r es a q)
