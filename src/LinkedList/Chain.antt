-- ===== src/LinkedList/Chain.antt =====
-- Chains of links: what `_next` and `_prev` of distinct links say.
use crouton.Common.{ℕ, ◌==◌, true, false, ◌||◌, List, [], ◌∷◌, ◌++◌, elem, ◌≡◌, refl, arith}
use crouton.LinkedList.{Memory}

-- From `a`, the links lead over `xs` to `b`, and back.
abbrev pub Chain : Memory → ℕ → List ℕ → ℕ → Type 0
Chain m a [] b = (m.next a ≡ b) × (m.prev b ≡ a)
Chain m a (x ∷ xs) b = (m.next a ≡ x) × (m.prev x ≡ a) × Chain m x xs b

abbrev pub Distinct : List ℕ → Type 0
Distinct [] = Unit {0}
Distinct (x ∷ xs) = (elem x xs ≡ false) × Distinct xs

abbrev pub last_of : ℕ → List ℕ → ℕ
last_of a [] = a
last_of a (x ∷ xs) = last_of x xs

abbrev pub first_of : List ℕ → ℕ → ℕ
first_of [] b = b
first_of (x ∷ xs) b = x

pub elem-append : (a : ℕ) (xs ys : List ℕ) → elem a (xs ++ ys) ≡ (elem a xs || elem a ys)
elem-append a [] ys = refl
elem-append a (x ∷ xs) ys = ground (arith, elem-append a xs ys)

-- A chain survives what is done to other links.
pub frame :
    (m m' : Memory) (a b : ℕ) (xs : List ℕ)
    → Chain m a xs b
    → ((x : ℕ) → elem x (a ∷ xs) ≡ true → m'.next x ≡ m.next x)
    → ((x : ℕ) → elem x (b ∷ xs) ≡ true → m'.prev x ≡ m.prev x)
    → Chain m' a xs b
frame m m' a b [] (n, p) same_next same_prev = ground (arith, same_next a, same_prev b)
frame m m' a b (x ∷ xs) (n, p, rest) same_next same_prev = (
  ground (arith, same_next a),
  ground (arith, same_prev x),
  frame m m' x b xs rest (λ y h. same_next y (ground arith)) (λ y h. same_prev y (ground arith)),
)

pub Chain-first : (m : Memory) (a b : ℕ) (xs : List ℕ) → Chain m a xs b → m.next a ≡ first_of xs b
Chain-first m a b [] c = c.0
Chain-first m a b (x ∷ xs) c = c.0

pub Chain-last : (m : Memory) (a b : ℕ) (xs : List ℕ) → Chain m a xs b → m.prev b ≡ last_of a xs
Chain-last m a b [] c = c.1
Chain-last m a b (x ∷ xs) (n, p, rest) = Chain-last m x b xs rest

-- A chain is cut at one of its links.
pub Chain-cut :
    (m : Memory) (a b l : ℕ) (us ws : List ℕ)
    → Chain m a (us ++ l ∷ ws) b
    → Chain m a us l × Chain m l ws b
Chain-cut m a b l [] ws (n, p, rest) = ((n, p), rest)
Chain-cut m a b l (u ∷ us) ws (n, p, rest) =
    let (front, back) = Chain-cut m u b l us ws rest in ((n, p, front), back)

pub last_of-elem : (a : ℕ) (xs : List ℕ) → elem (last_of a xs) (a ∷ xs) ≡ true
last_of-elem a [] = ground arith
last_of-elem a (x ∷ xs) = ground (arith, last_of-elem x xs)

pub first_of-elem : (xs : List ℕ) (b : ℕ) → elem (first_of xs b) (b ∷ xs) ≡ true
first_of-elem [] b = ground arith
first_of-elem (x ∷ xs) b = ground arith

-- What is in a list is not what is not in it.
pub elem-other : (a x : ℕ) (xs : List ℕ) → elem a xs ≡ false → elem x xs ≡ true → (x == a) ≡ false
elem-other a x [] out h = ground arith
elem-other a x (y ∷ xs) out h = ground (arith, elem-other a x xs)
