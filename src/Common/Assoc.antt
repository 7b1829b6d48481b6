-- ===== src/Common/Assoc.antt =====
-- `std::unordered_map` with numbers for keys, as the list of its entries.
use Prim.Native.Nat.{ℕ}
use mathlib.Core.Path.{◌≡◌, refl}
use mathlib.Core.Bool.{false}
use mathlib.Core.Option.{Option, none, some}
use mathlib.Core.List.{List, [], ◌∷◌, ◌++◌}
use native.Mathlib.Omega.{arith}
use crouton.Common.Tests.{◌==◌, if◌then◌else◌, is_some}

module _ {A : Type 0} where
  unfoldable pub lookup : ℕ → List (ℕ × A) → Option A
  lookup k [] = none
  lookup k ((j, a) ∷ rest) = if k == j then some a else lookup k rest

  unfoldable pub erase_key : ℕ → List (ℕ × A) → List (ℕ × A)
  erase_key k [] = []
  erase_key k ((j, a) ∷ rest) =
      let rest' = erase_key k rest in if k == j then rest' else (j, a) ∷ rest'

  -- `emplace` leaves an entry with the same key alone.
  unfoldable pub insert_new : ℕ → A → List (ℕ × A) → List (ℕ × A)
  unfolding lookup
  insert_new k a m = if is_some (lookup k m) then m else m ++ (k, a) ∷ []

  -- A change of the value under a key that is there.
  unfoldable pub replace_key : ℕ → A → List (ℕ × A) → List (ℕ × A)
  replace_key k a [] = []
  replace_key k a ((j, b) ∷ rest) = if k == j then (j, a) ∷ rest else (j, b) ∷ replace_key k a rest

  pub lookup-erase_key-same : (k : ℕ) (m : List (ℕ × A)) → lookup k (erase_key k m) ≡ none
  unfolding lookup erase_key
  lookup-erase_key-same k [] = refl
  lookup-erase_key-same k ((j, a) ∷ rest) = ground (arith, lookup-erase_key-same k rest)

  pub lookup-erase_key-other :
      (k l : ℕ) (m : List (ℕ × A)) → (k == l) ≡ false → lookup k (erase_key l m) ≡ lookup k m
  unfolding lookup erase_key
  lookup-erase_key-other k l [] differ = refl
  lookup-erase_key-other k l ((j, a) ∷ rest) differ =
      ground (arith, lookup-erase_key-other k l rest differ)

  pub lookup-append-same :
      (k : ℕ) (a : A) (m : List (ℕ × A)) → lookup k m ≡ none → lookup k (m ++ (k, a) ∷ []) ≡ some a
  unfolding lookup
  lookup-append-same k a [] absent = ground arith
  lookup-append-same k a ((j, b) ∷ rest) absent = ground (arith, lookup-append-same k a rest)

  pub lookup-replace_key-same :
      (k : ℕ) (a b : A) (m : List (ℕ × A))
      → lookup k m ≡ some b
      → lookup k (replace_key k a m) ≡ some a
  unfolding lookup replace_key
  lookup-replace_key-same k a b [] there = cc
  lookup-replace_key-same k a b ((j, c) ∷ rest) there =
      ground (arith, lookup-replace_key-same k a b rest)

  pub lookup-replace_key-none :
      (k l : ℕ) (a : A) (m : List (ℕ × A)) → lookup k m ≡ none → lookup k (replace_key l a m) ≡ none
  unfolding lookup replace_key
  lookup-replace_key-none k l a [] absent = refl
  lookup-replace_key-none k l a ((j, c) ∷ rest) absent =
      ground (arith, lookup-replace_key-none k l a rest)
