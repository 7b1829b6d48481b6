-- ===== src/Stream/Find.antt =====
-- `find` of a string in the beginning and in the rest of another one.
use crouton.Common.{
  ℕ, zero, suc, ◌+◌, ◌-◌, ◌≤◌, ◌<◌, true, false, Bool-cases, Option, none, some, Option-cases, List,
  [], ◌∷◌, ◌++◌, length, take, drop, take-append-drop, append-nil, length-take, ◌≡◌, refl, sym, ap,
  ◌∙◌, ◌⊎◌, inl, inr, arith,
}
use crouton.Strings.{starts_with, find, find_from}

pub le_cases : (a b : ℕ) → (a ≤ b) ⊎ (b < a)
le_cases zero b = inl (omega arith)
le_cases (suc a) zero = inr (omega arith)
le_cases (suc a) (suc b) = elim (le_cases a b) [
  | inl h ↦ inl (omega arith)
  | inr h ↦ inr (omega arith)
]

starts_with-append :
    (sub xs ys : List ℕ) → length sub ≤ length xs → starts_with sub (xs ++ ys) ≡ starts_with sub xs
unfolding starts_with
starts_with-append [] xs ys fits = refl
starts_with-append (a ∷ sub) [] ys fits = absurd (omega arith)
starts_with-append (a ∷ sub) (x ∷ xs) ys fits = rw (starts_with-append sub xs ys (omega arith)) refl

starts_with-short : (sub xs : List ℕ) → length xs < length sub → starts_with sub xs ≡ false
unfolding starts_with
starts_with-short [] xs short = absurd (omega arith)
starts_with-short (a ∷ sub) [] short = refl
starts_with-short (a ∷ sub) (x ∷ xs) short = ground (arith, starts_with-short sub xs)

-- The match, if there is one, does not end within this many characters.
abbrev pub IsBeyond : ℕ → Option ℕ → ℕ → Type 0
IsBeyond size none n = Unit {0}
IsBeyond size (some p) n = n < p + size

pub find-short : (sub xs : List ℕ) → length xs < length sub → find sub xs ≡ none
unfolding find
find-short [] xs short = absurd (omega arith)
find-short (a ∷ sub) [] short = refl
find-short (a ∷ sub) (x ∷ xs) short =
    ground (arith, starts_with-short (a ∷ sub) (x ∷ xs), find-short (a ∷ sub) xs)

find_cons-none :
    (sub xs : List ℕ) (x : ℕ)
    → find sub (x ∷ xs) ≡ none
    → (starts_with sub (x ∷ xs) ≡ false) × (find sub xs ≡ none)
unfolding find
find_cons-none sub xs x e = ground arith

-- Either the match is at the start, or it is one further than in the rest.
find_cons-some :
    (sub xs : List ℕ) (x p : ℕ)
    → find sub (x ∷ xs) ≡ some p
    → ((starts_with sub (x ∷ xs) ≡ true) × (p ≡ 0))
      ⊎ ((starts_with sub (x ∷ xs) ≡ false) × (q : ℕ) × (find sub xs ≡ some q) × (p ≡ suc q))
unfolding find
find_cons-some sub xs x p e = elim (Bool-cases (starts_with sub (x ∷ xs))) [
  | inl here ↦ inl (here, ground arith)
  | inr later ↦ elim (Option-cases (find sub xs)) [
    | inl missing ↦ absurd (ground arith)
    | inr (q, there) ↦ inr (later, q, there, ground arith)
  ]
]

find_step :
    (sub xs : List ℕ) (x : ℕ)
    → starts_with sub (x ∷ xs) ≡ false
    → find sub xs ≡ none
    → find sub (x ∷ xs) ≡ none
unfolding find
find_step sub xs x later missing = ground arith

find_step-some :
    (sub xs : List ℕ) (x q : ℕ)
    → starts_with sub (x ∷ xs) ≡ false
    → find sub xs ≡ some q
    → find sub (x ∷ xs) ≡ some (suc q)
unfolding find
find_step-some sub xs x q later there = ground arith

find_here : (sub xs : List ℕ) (x : ℕ) → starts_with sub (x ∷ xs) ≡ true → find sub (x ∷ xs) ≡ some 0
unfolding find
find_here sub xs x here = ground arith

starts_with-front :
    (sub xs ys : List ℕ) → starts_with sub (xs ++ ys) ≡ false → starts_with sub xs ≡ false
unfolding starts_with
starts_with-front [] xs ys h = h
starts_with-front (a ∷ sub) [] ys h = refl
starts_with-front (a ∷ sub) (x ∷ xs) ys h = ground (arith, starts_with-front sub xs ys)

find_nothing : (sub : List ℕ) → 1 ≤ length sub → find sub [] ≡ none
unfolding find
find_nothing [] h = absurd (omega arith)
find_nothing (a ∷ sub) h = refl

-- There is no match in a beginning that ends before it.
pub find-beyond :
    (sub xs ys : List ℕ) (r : Option ℕ)
    → 1 ≤ length sub
    → find sub (xs ++ ys) ≡ r
    → IsBeyond (length sub) r (length xs)
    → find sub xs ≡ none
find-beyond sub [] ys r some_left e beyond = find_nothing sub some_left
find-beyond sub (x ∷ xs) ys none some_left e beyond =
    let (later, missing) = find_cons-none sub (xs ++ ys) x e in
    find_step sub xs x (starts_with-front sub (x ∷ xs) ys later)
      (find-beyond sub xs ys none some_left missing tt)
find-beyond sub (x ∷ xs) ys (some p) some_left e beyond =
    elim (find_cons-some sub (xs ++ ys) x p e) [
      | inl (here, first) ↦ find-short sub (x ∷ xs) (omega (arith, beyond, first))
      | inr (later, q, there, next) ↦
          find_step sub xs x (starts_with-front sub (x ∷ xs) ys later)
            (find-beyond sub xs ys (some q) some_left there (omega (arith, beyond, next)))
    ]

-- A match is found in a beginning that holds it.
pub find-held :
    (sub xs ys : List ℕ) (p : ℕ)
    → 1 ≤ length sub
    → find sub (xs ++ ys) ≡ some p
    → p + length sub ≤ length xs
    → find sub xs ≡ some p
find-held sub [] ys p some_left e held = absurd (omega arith)
find-held sub (x ∷ xs) ys p some_left e held = elim (find_cons-some sub (xs ++ ys) x p e) [
  | inl (here, first) ↦
      find_here sub xs x
        (sym (starts_with-append sub (x ∷ xs) ys (omega (arith, held, first))) ∙ here)
      ∙ ap some (sym first)
  | inr (later, q, there, next) ↦
      find_step-some sub xs x q (starts_with-front sub (x ∷ xs) ys later)
        (find-held sub xs ys q some_left there (omega (arith, held, next)))
      ∙ ap some (sym next)
]

-- A match in the rest.
pub find-rest :
    (sub xs ys : List ℕ) (p : ℕ)
    → find sub (xs ++ ys) ≡ some p
    → length xs ≤ p
    → find sub ys ≡ some (p - length xs)
find-rest sub [] ys p e after = e ∙ ap some (omega arith)
find-rest sub (x ∷ xs) ys p e after = elim (find_cons-some sub (xs ++ ys) x p e) [
  | inl (here, first) ↦ absurd (omega (arith, after, first))
  | inr (later, q, there, next) ↦
      find-rest sub xs ys q there (omega (arith, after, next)) ∙ ap some (omega (arith, next))
]

pub find-rest-none : (sub xs ys : List ℕ) → find sub (xs ++ ys) ≡ none → find sub ys ≡ none
find-rest-none sub [] ys e = e
find-rest-none sub (x ∷ xs) ys e = find-rest-none sub xs ys (find_cons-none sub (xs ++ ys) x e).1

pub find_from-missing :
    (sub str : List ℕ) (n : ℕ) → find sub str ≡ none → find_from sub str n ≡ none
unfolding find_from
find_from-missing sub str n e =
    let rest =
      find-rest-none sub (take n str) (drop n str) (ap (find sub) (take-append-drop n str) ∙ e) in
    ground arith

pub find_from-there :
    (sub str : List ℕ) (n p : ℕ)
    → find sub str ≡ some p
    → n ≤ p
    → n ≤ length str
    → find_from sub str n ≡ some p
unfolding find_from
find_from-there sub str n p e after inside =
    let size : length (take n str) ≡ n = omega (arith, length-take n str) in
    let rest : find sub (drop n str) ≡ some (p - n) =
      find-rest sub (take n str) (drop n str) p (ap (find sub) (take-append-drop n str) ∙ e)
        (omega (arith, size, after))
      ∙ ap (λ (k : ℕ). some (p - k)) size in
    ground arith

-- A match is inside the string.
pub find-inside :
    (sub str : List ℕ) (p : ℕ)
    → 1 ≤ length sub
    → find sub str ≡ some p
    → p + length sub ≤ length str
find-inside sub str p some_left e = elim (le_cases (p + length sub) (length str)) [
  | inl inside ↦ inside
  | inr beyond ↦
      let missing =
        find-beyond sub str [] (some p) some_left (ap (find sub) (append-nil str) ∙ e) beyond in
      cc
]
