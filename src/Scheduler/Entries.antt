-- ===== src/Scheduler/Entries.antt =====
-- The list of suspended coroutines as a map: lookups after the writes, and predicates on all
-- entries.
use crouton.Common.{
  is_some, ℕ, ◌==◌, if◌then◌else◌, false, none, some, List, [], ◌∷◌, ◌++◌, ◌≡◌, refl, arith, elem,
  All, Bool-cases, Option-cases, inl, inr,
}
use mathlib.Core.Path.{subst}
use crouton.Scheduler.{SuspensionImpl, find, erase, store, sleepers, emplace}

-- No two entries have the same key.
abbrev pub Distinct : List SuspensionImpl → Type 0
Distinct [] = Unit
Distinct (e ∷ es) = (find e.key es ≡ none) × Distinct es

-- No coroutine is twice in the ready queue.
abbrev pub IsNodup : List ℕ → Type 0
IsNodup [] = Unit
IsNodup (x ∷ xs) = (elem x xs ≡ false) × IsNodup xs

pub find-key :
    (k : ℕ) (es : List SuspensionImpl) {e : SuspensionImpl} → find k es ≡ some e → e.key ≡ k
unfolding find
find-key k [] h = cc
find-key k (d ∷ es) {e} h = ground (arith, find-key k es {e = e})

pub find-store :
    (k : ℕ) (e : SuspensionImpl) (es : List SuspensionImpl)
    → find k (store e es)
      ≡ (if k == e.key then (if is_some (find k es) then some e else none) else find k es)
unfolding find store
find-store k e [] = ground arith
find-store k e (d ∷ es) = ground (arith, find-store k e es)

pub find-erase_ne :
    (k h : ℕ) (es : List SuspensionImpl) → (k == h) ≡ false → find k (erase h es) ≡ find k es
unfolding find erase
find-erase_ne k h [] ne = refl
find-erase_ne k h (d ∷ es) ne = ground (arith, find-erase_ne k h es ne)

pub find-append :
    (k : ℕ) (es : List SuspensionImpl) (e : SuspensionImpl)
    → find k (es ++ e ∷ [])
      ≡ (if is_some (find k es) then find k es else if k == e.key then some e else none)
unfolding find
find-append k [] e = refl
find-append k (d ∷ es) e = ground (arith, find-append k es e)

-- After `try_emplace` the key is there, and no other key has changed its entry.
pub find-emplace_ne :
    (k h : ℕ) (es : List SuspensionImpl) → (k == h) ≡ false → find k (emplace h es) ≡ find k es
unfolding emplace
find-emplace_ne k h es ne = elim (Option-cases (find h es)) [
  | inl missing ↦ rw (missing, emplace, find-append) (ground arith)
  | inr (e, found) ↦ rw (found, emplace, find-store) (ground (arith, find-key h es found))
]

module _ (P : SuspensionImpl → Type 0) where
  pub All-find :
      (k : ℕ) (es : List SuspensionImpl) {e : SuspensionImpl} → All P es → find k es ≡ some e → P e
  unfolding find
  All-find k [] a h = cc
  All-find k (d ∷ es) {e} (p, a) h = elim (Bool-cases (k == d.key)) [
    | inl here ↦ let same : d ≡ e = ground arith in subst P same p
    | inr there ↦ All-find k es a (rw there at h)
  ]

  pub All-store :
      (e : SuspensionImpl) (es : List SuspensionImpl) → P e → All P es → All P (store e es)
  unfolding store
  All-store e [] p a = tt
  All-store e (d ∷ es) p (q, a) = ground (arith, All-store e es p a)

  pub All-erase : (h : ℕ) (es : List SuspensionImpl) → All P es → All P (erase h es)
  unfolding erase
  All-erase h [] a = tt
  All-erase h (d ∷ es) (q, a) = ground (arith, All-erase h es a)

  pub All-sleepers : (es : List SuspensionImpl) → All P es → All P (sleepers es)
  unfolding sleepers
  All-sleepers [] a = tt
  All-sleepers (d ∷ es) (q, a) = ground (arith, All-sleepers es a)

pub Distinct-store :
    (e : SuspensionImpl) (es : List SuspensionImpl) → Distinct es → Distinct (store e es)
unfolding store
Distinct-store e [] h = tt
Distinct-store e (d ∷ es) (n, h) = ground (arith, find-store d.key e es, Distinct-store e es h)

find-erase-none :
    (k h : ℕ) (es : List SuspensionImpl) → find k es ≡ none → find k (erase h es) ≡ none
unfolding find erase
find-erase-none k h [] n = refl
find-erase-none k h (d ∷ es) n = ground (arith, find-erase-none k h es)

pub Distinct-erase : (k : ℕ) (es : List SuspensionImpl) → Distinct es → Distinct (erase k es)
unfolding erase
Distinct-erase k [] h = tt
Distinct-erase k (d ∷ es) (n, h) = ground (arith, find-erase-none d.key k es, Distinct-erase k es h)

pub find-sleepers-none :
    (k : ℕ) (es : List SuspensionImpl) → find k es ≡ none → find k (sleepers es) ≡ none
unfolding find sleepers
find-sleepers-none k [] n = refl
find-sleepers-none k (d ∷ es) n = ground (arith, find-sleepers-none k es)

pub Distinct-sleepers : (es : List SuspensionImpl) → Distinct es → Distinct (sleepers es)
unfolding sleepers
Distinct-sleepers [] h = tt
Distinct-sleepers (d ∷ es) (n, h) =
    ground (arith, find-sleepers-none d.key es, Distinct-sleepers es h)

pub Distinct-append :
    (es : List SuspensionImpl) (e : SuspensionImpl)
    → Distinct es
    → find e.key es ≡ none
    → Distinct (es ++ e ∷ [])
unfolding find
Distinct-append [] e d n = (refl, tt)
Distinct-append (d ∷ es) e (m, ds) n =
    (rw find-append (rw m (ground arith)), Distinct-append es e ds (ground arith))
