-- ===== src/LinkedList/Ops.antt =====
-- The operations of a LinkList as operations on the list of its links.
use crouton.Common.{
  ℕ, ◌==◌, if◌then◌else◌, false, Option, none, some, List, [], ◌∷◌, ◌++◌, append-nil, elem, All,
  Option-cases, ◌≡◌, refl, sym, ap, ◌∙◌, inl, inr, arith,
}
use mathlib.Core.Path.{subst}
use crouton.Common.Result.{Result, ok, ◌>>=◌}
use crouton.LinkedList.{
  Memory, remove, insert_after, push_front, push_back, pop_front, erase, empty,
}
use crouton.LinkedList.Chain.{Chain, last_of, Chain-last, frame, elem-other}
use crouton.LinkedList.Links.{insert_after-itself}
use crouton.LinkedList.Refines.{
  remove-cut, Distinct-without, elem-without, Represents, without, remove-Represents,
  insert-Represents,
}

pub data Op : Type 0 where
  to_front to_back : ℕ → Op
  pop : Op
  out : ℕ → Op

-- What the class does; `pop_front` returns a link.
unfoldable pub run_op : ℕ → Op → Memory → Result (Option ℕ × Memory)
unfolding push_front push_back pop_front erase
run_op head (to_front l) m = push_front head l m >>= λ m'. ok (none, m')
run_op head (to_back l) m = push_back head l m >>= λ m'. ok (none, m')
run_op head pop m = pop_front head m >>= λ (l, m'). ok (some l, m')
run_op head (out l) m = ok (none, erase l m)

unfoldable pub run : ℕ → List Op → Memory → Result (List (Option ℕ) × Memory)
unfolding run_op
run head [] m = ok ([], m)
run head (op ∷ ops) m =
    run_op head op m >>= λ (o, m'). run head ops m' >>= λ (os, m''). ok (o ∷ os, m'')

-- What it promises, on the list of its links: a link is at one place only, and a link that is in
-- the list is not pushed to the back. `none` is what the class does not allow.
unfoldable pub spec_op : Op → List ℕ → Option (Option ℕ × List ℕ)
spec_op (to_front l) xs = some (none, l ∷ without l xs)
spec_op (to_back l) xs = if elem l xs then none else some (none, xs ++ l ∷ [])
spec_op pop [] = none
spec_op pop (x ∷ xs) = some (some x, xs)
spec_op (out l) xs = some (none, without l xs)

-- Each operation and then the others; `none` where one is not allowed.
unfoldable pub spec : List Op → List ℕ → Option (List (Option ℕ) × List ℕ)
unfolding spec_op
spec [] xs = some ([], xs)
spec (op ∷ ops) xs = elim (spec_op op xs) [
  | none ↦ none
  | some (o, ys) ↦ elim (spec ops ys) [ none ↦ none | some (os, zs) ↦ some (o ∷ os, zs) ]
]

-- A link has an address, and it is not the head.
abbrev pub IsLink : ℕ → Op → Type 0
IsLink head (to_front l) = ((l == 0) ≡ false) × ((l == head) ≡ false)
IsLink head (to_back l) = ((l == 0) ≡ false) × ((l == head) ≡ false)
IsLink head pop = Unit {0}
IsLink head (out l) = (l == head) ≡ false

first_out :
    (m : Memory) (head x : ℕ) (xs : List ℕ)
    → Represents m head (x ∷ xs)
    → pop_front head m ≡ ok (x, remove x m)
unfolding pop_front empty
first_out m head x xs is = ground (arith, is.chain.0, is.apart.0)

not_head :
    (m : Memory) (head x : ℕ) (xs : List ℕ) → Represents m head (x ∷ xs) → (x == head) ≡ false
not_head m head x xs is = ground (arith, is.apart.0)

first_absent : (x : ℕ) (xs : List ℕ) → without x (x ∷ xs) ≡ xs
first_absent x xs = ground arith

absent : (l : ℕ) (xs : List ℕ) → elem l xs ≡ false → without l xs ≡ xs
absent l [] h = refl
absent l (x ∷ xs) h = ground (arith, absent l xs)

last_link :
    (m : Memory) (head l : ℕ) (xs : List ℕ)
    → Represents m head xs
    → push_back head l m ≡ insert_after l (last_of head xs) m
unfolding push_back
last_link m head l xs is = ap (λ (p : ℕ). insert_after l p m) (Chain-last m head head xs is.chain)

to_back-Represents :
    (m : Memory) (head l : ℕ) (xs : List ℕ)
    → Represents m head xs
    → (l == 0) ≡ false
    → (l == head) ≡ false
    → elem l xs ≡ false
    → (m' : Memory) × (push_back head l m ≡ ok m') × Represents m' head (xs ++ l ∷ [])
to_back-Represents m head l xs is set other l_out =
    let (gone, still) = remove-Represents m head l xs is other in
    let same : without l xs ≡ xs ++ [] = absent l xs l_out ∙ sym (append-nil xs) in
    let (m', done, now) =
      insert-Represents m head l xs [] (subst (Represents (remove l m) head) same gone)
        (subst (λ t. elem l (head ∷ t) ≡ false) same still) set in
    (m', last_link m head l xs is ∙ done, now)

spec_to_back :
    (l : ℕ) (xs ys : List ℕ) (o : Option ℕ)
    → spec_op (to_back l) xs ≡ some (o, ys)
    → (elem l xs ≡ false) × (o ≡ none) × (ys ≡ xs ++ l ∷ [])
unfolding spec_op
spec_to_back l xs ys o e = ground arith

run_op-Represents :
    (m : Memory) (head : ℕ) (op : Op) (xs ys : List ℕ) (o : Option ℕ)
    → Represents m head xs
    → IsLink head op
    → spec_op op xs ≡ some (o, ys)
    → (m' : Memory) × (run_op head op m ≡ ok (o, m')) × Represents m' head ys
unfolding run_op spec_op push_front erase
run_op-Represents m head (to_front l) xs ys o is (set, other) e =
    let (gone, l_out) = remove-Represents m head l xs is other in
    let (m', done, now) = insert-Represents m head l [] (without l xs) gone l_out set in
    let same : l ∷ without l xs ≡ ys = ground arith in
    (m', ground (arith, done), subst (Represents m' head) same now)
run_op-Represents m head (to_back l) xs ys o is (set, other) e =
    let (l_out, nothing, same) = spec_to_back l xs ys o e in
    let (m', done, now) = to_back-Represents m head l xs is set other l_out in
    (m', ground (arith, done), subst (Represents m' head) (sym same) now)
run_op-Represents m head pop [] ys o is link e = absurd (ground arith)
run_op-Represents m head pop (x ∷ xs) ys o is link e =
    let (gone, still) = remove-Represents m head x (x ∷ xs) is (not_head m head x xs is) in
    let same : without x (x ∷ xs) ≡ ys = first_absent x xs ∙ ground arith in
    (
      remove x m,
      ground (arith, first_out m head x xs is),
      subst (Represents (remove x m) head) same gone,
    )
run_op-Represents m head (out l) xs ys o is other e =
    let (gone, still) = remove-Represents m head l xs is other in
    let same : without l xs ≡ ys = ground arith in
    (remove l m, ground arith, subst (Represents (remove l m) head) same gone)

spec-cons :
    (op : Op) (ops : List Op) (xs zs : List ℕ) (os : List (Option ℕ))
    → spec (op ∷ ops) xs ≡ some (os, zs)
    → (o : Option ℕ) × (ys : List ℕ) × (rest : List (Option ℕ)) × (spec_op op xs ≡ some (o, ys))
      × (spec ops ys ≡ some (rest, zs))
      × (os ≡ o ∷ rest)
unfolding spec
spec-cons op ops xs zs os e = elim (Option-cases (spec_op op xs)) [
  | inl refused ↦ absurd (ground arith)
  | inr ((o, ys), now) ↦ elim (Option-cases (spec ops ys)) [
    | inl refused ↦ absurd (ground arith)
    | inr ((rest, ws), later) ↦
        let same : (os ≡ o ∷ rest) × (ws ≡ zs) = ground arith in
        (o, ys, rest, now, later ∙ ap (λ (w : List ℕ). some (rest, w)) same.1, same.0)
  ]
]

spec-nil :
    (xs ys : List ℕ) (os : List (Option ℕ)) → spec [] xs ≡ some (os, ys) → (os ≡ []) × (xs ≡ ys)
unfolding spec
spec-nil xs ys os e = ground arith

-- Where a memory holds a list, and operations on links are allowed on the list of its links, the
-- LinkList does them all: no null pointer is followed and no assertion fails, each `pop_front` returns the
-- link that the list gives, and the memory then holds the list that is left, with every link that is
-- not in it out of any list.
pub run-Represents :
    (m : Memory) (head : ℕ) (ops : List Op) (xs ys : List ℕ) (os : List (Option ℕ))
    → Represents m head xs
    → All (IsLink head) ops
    → spec ops xs ≡ some (os, ys)
    → (m' : Memory) × (run head ops m ≡ ok (os, m')) × Represents m' head ys
unfolding run
run-Represents m head [] xs ys os is links e =
    let (nothing, same) = spec-nil xs ys os e in
    (m, ground arith, subst (Represents m head) same is)
run-Represents m head (op ∷ ops) xs ys os is (link, links) e =
    let (o, zs, rest, now, later, all) = spec-cons op ops xs ys os e in
    let (m1, done, is1) = run_op-Represents m head op xs zs o is link now in
    let (m2, others, is2) = run-Represents m1 head ops zs ys rest is1 links later in
    (m2, ground (arith, done, others), is2)

last_of-append : (a l : ℕ) (xs : List ℕ) → last_of a (xs ++ l ∷ []) ≡ l
last_of-append a l [] = refl
last_of-append a l (x ∷ xs) = last_of-append x l xs

cut_last :
    (m : Memory) (head l : ℕ) (xs : List ℕ) → Represents m head (xs ++ l ∷ []) → m.prev head ≡ l
cut_last m head l xs is = Chain-last m head head (xs ++ l ∷ []) is.chain ∙ last_of-append head l xs

-- A link that is the last of a list and is pushed to its back again is no longer in the list: what
-- is left is the list without it, and the link is linked to itself.
pub push_back-last :
    (m : Memory) (head l : ℕ) (xs : List ℕ)
    → Represents m head (xs ++ l ∷ [])
    → (m' : Memory) × (push_back head l m ≡ ok m')
      × Chain m' head xs head
      × (m'.next l ≡ l)
      × (m'.prev l ≡ l)
unfolding push_back
push_back-last m head l xs is =
    let r = remove l m in
    let gone : Represents r head xs =
      subst (Represents r head) (append-nil xs) (remove-cut m head l xs [] is) in
    let (apart, gone_out) = Distinct-without xs [] l is.apart.1 in
    let l_out : elem l xs ≡ false = subst (λ t. elem l t ≡ false) (append-nil xs) gone_out in
    let no_l : elem l (head ∷ xs) ≡ false = ground (arith, is.apart.0, elem-without head l xs []) in
    let set : (l == 0) ≡ false = ground (arith, is.no_null, elem-without 0 l xs []) in
    let (m', done, nexts, prevs) = insert_after-itself l m set in
    (
      m',
      ap (λ (p : ℕ). insert_after l p m) (cut_last m head l xs is) ∙ done,
      frame r m' head head xs gone.chain
          (λ x h. ground (arith, nexts x, elem-other l x (head ∷ xs)))
          (λ x h. ground (arith, prevs x, elem-other l x (head ∷ xs))),
      ground (arith, nexts l),
      ground (arith, prevs l),
    )
