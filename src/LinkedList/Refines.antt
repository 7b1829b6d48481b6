-- ===== src/LinkedList/Refines.antt =====
-- A LinkList as the list of its links.
use crouton.Common.{
  ℕ, ◌==◌, if◌then◌else◌, true, false, Bool-cases, ◌||◌, List, [], ◌∷◌, ◌++◌, elem, ◌≡◌, refl, sym,
  ap, inl, inr, arith,
}
use mathlib.Core.Path.{subst}
use crouton.Common.Result.{ok}
use crouton.LinkedList.{Memory, remove, insert_after}
use crouton.LinkedList.Chain.{
  Chain, Distinct, last_of, first_of, elem-append, elem-other, frame, Chain-cut, Chain-first,
  Chain-last, last_of-elem, first_of-elem,
}
use crouton.LinkedList.Links.{
  Unlinked, remove-Unlinked, remove-detached, insert_after-Linked, Chain-unlinked, Chain-linked,
}

-- The links of the list with this head, in order; no other link is in a list.
pub record Represents (m : Memory) (head : ℕ) (xs : List ℕ) : Type 0 where
  pub chain : Chain m head xs head
  pub apart : Distinct (head ∷ xs)
  pub no_null : elem 0 (head ∷ xs) ≡ false
  pub detached : (x : ℕ) → elem x (head ∷ xs) ≡ false → (m.next x ≡ 0) × (m.prev x ≡ 0)

abbrev pub without : ℕ → List ℕ → List ℕ
without l [] = []
without l (x ∷ xs) = if l == x then xs else x ∷ without l xs

without_absent : (l : ℕ) (xs : List ℕ) → elem l xs ≡ false → without l xs ≡ xs
without_absent l [] h = refl
without_absent l (x ∷ xs) h = ground (arith, without_absent l xs)

without_cut :
    (l : ℕ) (xs : List ℕ)
    → elem l xs ≡ true
    → (us : List ℕ) × (ws : List ℕ) × (xs ≡ us ++ l ∷ ws) × (without l xs ≡ us ++ ws)
without_cut l [] h = absurd (ground arith)
without_cut l (x ∷ xs) h = elim (Bool-cases (l == x)) [
  | inl here ↦ ([], xs, ground arith, ground arith)
  | inr not_here ↦
      let (us, ws, whole, rest) = without_cut l xs (ground arith) in
      (x ∷ us, ws, ap (λ (t : List ℕ). x ∷ t) whole, ground arith)
]

pub Distinct-without :
    (us ws : List ℕ) (l : ℕ)
    → Distinct (us ++ l ∷ ws)
    → Distinct (us ++ ws) × (elem l (us ++ ws) ≡ false)
Distinct-without [] ws l (l_out, apart) = (apart, l_out)
Distinct-without (u ∷ us) ws l (u_out, apart) =
    let (rest, l_out) = Distinct-without us ws l apart in
    (
      (ground (arith, elem-append u us (l ∷ ws), elem-append u us ws), rest),
      ground (arith, elem-append u us (l ∷ ws)),
    )

pub elem-without :
    (x l : ℕ) (us ws : List ℕ) → elem x (us ++ l ∷ ws) ≡ ((x == l) || elem x (us ++ ws))
elem-without x l [] ws = refl
elem-without x l (u ∷ us) ws = ground (arith, elem-without x l us ws)

next_of_last :
    (m : Memory) (a b : ℕ) (us ws : List ℕ)
    → Chain m a (us ++ ws) b
    → m.next (last_of a us) ≡ first_of ws b
next_of_last m a b [] ws c = Chain-first m a b ws c
next_of_last m a b (u ∷ us) ws (n, p, rest) = next_of_last m u b us ws rest

-- A link that is not in the list is neither before nor after one of its places.
ends_other :
    (x head : ℕ) (us ws : List ℕ)
    → elem x (head ∷ (us ++ ws)) ≡ false
    → ((last_of head us == x) ≡ false) × ((first_of ws head == x) ≡ false)
ends_other x head us ws h = (
  elem-other x (last_of head us) (head ∷ us) (ground (arith, elem-append x us ws))
      (last_of-elem head us),
  elem-other x (first_of ws head) (head ∷ ws) (ground (arith, elem-append x us ws))
      (first_of-elem ws head),
)

pub remove-cut :
    (m : Memory) (head l : ℕ) (us ws : List ℕ)
    → Represents m head (us ++ l ∷ ws)
    → Represents (remove l m) head (us ++ ws)
remove-cut m head l us ws is =
    let (front, back) = Chain-cut m head head l us ws is.chain in
    let p = last_of head us in
    let q = first_of ws head in
    let (rest, l_out) = Distinct-without us ws l is.apart.1 in
    let no_null : elem 0 (head ∷ (us ++ ws)) ≡ false =
      ground (arith, is.no_null, elem-without 0 l us ws) in
    let no_l : elem l (head ∷ (us ++ ws)) ≡ false =
      ground (arith, is.apart.0, elem-without head l us ws) in
    let set = ends_other 0 head us ws no_null in
    let other = ends_other l head us ws no_l in
    let out : Unlinked l p q m (remove l m) =
      remove-Unlinked l p q m (Chain-last m head l us front) (Chain-first m l head ws back) set.0
        set.1 other.0 other.1 in
    record {
      chain = Chain-unlinked m (remove l m) head head l us ws out is.apart is.apart.0 front back;
      apart = (ground (arith, is.apart.0, elem-without head l us ws), rest);
      no_null = no_null;
      detached = λ x h. ground (
        arith,
        out.next_of x,
        out.prev_of x,
        ends_other x head us ws,
        elem-without x l us ws,
        is.detached x,
      );
    }

remove-absent :
    (m : Memory) (head l : ℕ) (xs : List ℕ)
    → Represents m head xs
    → elem l (head ∷ xs) ≡ false
    → Represents (remove l m) head xs
remove-absent m head l xs is out =
    let (no_next, no_prev) = is.detached l out in
    record {
      chain =
          frame m (remove l m) head head xs is.chain
            (λ x h. (remove-detached l x m no_prev no_next).0)
            (λ x h. (remove-detached l x m no_prev no_next).1);
      apart = is.apart;
      no_null = is.no_null;
      detached = λ x h. ground (arith, remove-detached l x m no_prev no_next, is.detached x h);
    }

cons_out :
    (l head : ℕ) (xs : List ℕ)
    → (l == head) ≡ false
    → elem l xs ≡ false
    → elem l (head ∷ xs) ≡ false
cons_out l head xs other out = ground arith

-- `remove` takes the link out of the list, if it is in.
pub remove-Represents :
    (m : Memory) (head l : ℕ) (xs : List ℕ)
    → Represents m head xs
    → (l == head) ≡ false
    → Represents (remove l m) head (without l xs) × (elem l (head ∷ without l xs) ≡ false)
remove-Represents m head l xs is other = elim (Bool-cases (elem l xs)) [
  | inl present ↦
      let (us, ws, whole, rest) = without_cut l xs present in
      let is' : Represents m head (us ++ l ∷ ws) = subst (Represents m head) whole is in
      let (apart, out) = Distinct-without us ws l is'.apart.1 in
      (
        subst (Represents (remove l m) head) (sym rest) (remove-cut m head l us ws is'),
        subst (λ t. elem l (head ∷ t) ≡ false) (sym rest) (cons_out l head (us ++ ws) other out),
      )
  | inr absent ↦
      let same = without_absent l xs absent in
      (
        subst (Represents (remove l m) head) (sym same)
            (remove-absent m head l xs is (ground arith)),
        subst (λ t. elem l (head ∷ t) ≡ false) (sym same) (cons_out l head xs other absent),
      )
]

Distinct-with :
    (us ws : List ℕ) (l : ℕ)
    → Distinct (us ++ ws)
    → elem l (us ++ ws) ≡ false
    → Distinct (us ++ l ∷ ws)
Distinct-with [] ws l apart out = (out, apart)
Distinct-with (u ∷ us) ws l (u_out, apart) out =
    (ground (arith, elem-without u l us ws), Distinct-with us ws l apart (ground arith))

-- `insertAfter` puts a link in, after the links `us`.
pub insert-Represents :
    (m : Memory) (head l : ℕ) (us ws : List ℕ)
    → Represents (remove l m) head (us ++ ws)
    → elem l (head ∷ (us ++ ws)) ≡ false
    → (l == 0) ≡ false
    → (m' : Memory) × (insert_after l (last_of head us) m ≡ ok m')
      × Represents m' head (us ++ l ∷ ws)
insert-Represents m head l us ws is out set =
    let p = last_of head us in
    let q = first_of ws head in
    let r = remove l m in
    let nulls = ends_other 0 head us ws is.no_null in
    let other = ends_other l head us ws out in
    let (m', done, put) =
      insert_after-Linked l p q m (next_of_last r head head us ws is.chain) nulls.0 nulls.1 other.0
        other.1 in
    (
      m',
      done,
      record {
        chain = Chain-linked r m' head head l us ws put is.apart is.apart.0 (ground arith) is.chain;
        apart = (
          ground (arith, elem-without head l us ws),
          Distinct-with us ws l is.apart.1 (ground arith),
        );
        no_null = ground (arith, is.no_null, elem-without 0 l us ws);
        detached = λ x h. ground (
          arith,
          put.next_of x,
          put.prev_of x,
          ends_other x head us ws,
          elem-without x l us ws,
          is.detached x,
        );
      },
    )
