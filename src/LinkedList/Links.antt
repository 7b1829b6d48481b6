-- ===== src/LinkedList/Links.antt =====
-- Link::remove and Link::insertAfter of util/LinkedList.hh, on a chain of links.
use crouton.Common.{ℕ, ◌==◌, if◌then◌else◌, false, List, [], ◌∷◌, ◌++◌, elem, ◌≡◌, arith}
use crouton.Common.Result.{ok}
use crouton.LinkedList.{Memory, set_next, set_prev, clear_link, remove, insert_after}
use crouton.LinkedList.Chain.{
  Chain, Distinct, last_of, first_of, elem-append, frame, last_of-elem, first_of-elem, elem-other,
}

-- The link `l` is out, and the one before it, `p`, and the one after it, `q`, are linked.
pub record Unlinked (l p q : ℕ) (m m' : Memory) : Type 0 where
  pub next_of : (x : ℕ) → m'.next x ≡ (if x == l then 0 else if x == p then q else m.next x)
  pub prev_of : (x : ℕ) → m'.prev x ≡ (if x == l then 0 else if x == q then p else m.prev x)

pub remove-Unlinked :
    (l p q : ℕ) (m : Memory)
    → m.prev l ≡ p
    → m.next l ≡ q
    → (p == 0) ≡ false
    → (q == 0) ≡ false
    → (p == l) ≡ false
    → (q == l) ≡ false
    → Unlinked l p q m (remove l m)
unfolding remove clear_link
remove-Unlinked l p q m is_p is_q p_set q_set p_other q_other = record {
  next_of = λ x. ground arith;
  prev_of = λ x. ground arith;
}

-- Nothing is changed, where `l` is in no list.
pub remove-detached :
    (l x : ℕ) (m : Memory)
    → m.prev l ≡ 0
    → m.next l ≡ 0
    → ((remove l m).next x ≡ m.next x) × ((remove l m).prev x ≡ m.prev x)
unfolding remove clear_link
remove-detached l x m no_prev no_next = ground arith

-- The link `l` is in, between `p` and `q`.
pub record Linked (l p q : ℕ) (m m' : Memory) : Type 0 where
  pub next_of : (x : ℕ) → m'.next x ≡ (if x == p then l else if x == l then q else m.next x)
  pub prev_of : (x : ℕ) → m'.prev x ≡ (if x == q then l else if x == l then p else m.prev x)

-- What insertAfter leaves, if no pointer is null.
linked : ℕ → ℕ → Memory → Memory
linked l p r =
    let m1 = set_prev l p r in
    let m2 = set_next l (m1.next p) m1 in
    let m3 = set_next (m2.prev l) l m2 in set_prev (m3.next l) l m3

insert_after-linked :
    (l p q : ℕ) (m : Memory)
    → (remove l m).next p ≡ q
    → (p == 0) ≡ false
    → (q == 0) ≡ false
    → (p == l) ≡ false
    → insert_after l p m ≡ ok (linked l p (remove l m))
unfolding insert_after linked
insert_after-linked l p q m is_q p_set q_set p_other = ground arith

linked-Linked :
    (l p q : ℕ) (r : Memory)
    → r.next p ≡ q
    → (p == l) ≡ false
    → (q == l) ≡ false
    → Linked l p q r (linked l p r)
unfolding linked
linked-Linked l p q r is_q p_other q_other = record {
  next_of = λ x. ground arith;
  prev_of = λ x. ground arith;
}

pub insert_after-Linked :
    (l p q : ℕ) (m : Memory)
    → (remove l m).next p ≡ q
    → (p == 0) ≡ false
    → (q == 0) ≡ false
    → (p == l) ≡ false
    → (q == l) ≡ false
    → (m' : Memory) × (insert_after l p m ≡ ok m') × Linked l p q (remove l m) m'
insert_after-Linked l p q m is_q p_set q_set p_other q_other = (
  linked l p (remove l m),
  insert_after-linked l p q m is_q p_set q_set p_other,
  linked-Linked l p q (remove l m) is_q p_other q_other,
)

-- Where a link is to come after itself, it is out and linked to itself.
pub insert_after-itself :
    (l : ℕ) (m : Memory)
    → (l == 0) ≡ false
    → (m' : Memory) × (insert_after l l m ≡ ok m')
      × ((x : ℕ) → m'.next x ≡ (if x == l then l else (remove l m).next x))
      × ((x : ℕ) → m'.prev x ≡ (if x == l then l else (remove l m).prev x))
unfolding insert_after linked
insert_after-itself l m set =
    (linked l l (remove l m), ground arith, λ x. ground arith, λ x. ground arith)

-- Without the link `l`, its chain is whole.
pub Chain-unlinked :
    (m m' : Memory) (a b l : ℕ) (us ws : List ℕ)
    → Unlinked l (last_of a us) (first_of ws b) m m'
    → Distinct (a ∷ (us ++ l ∷ ws))
    → elem b (us ++ l ∷ ws) ≡ false
    → Chain m a us l
    → Chain m l ws b
    → Chain m' a (us ++ ws) b
Chain-unlinked m m' a b l [] [] out apart b_out front back =
    ground (arith, out.next_of a, out.prev_of b)
Chain-unlinked m m' a b l [] (w ∷ ws) out (a_out, (l_out, (w_out, apart))) b_out front
      (n, p, rest) =
    (
      ground (arith, out.next_of a),
      ground (arith, out.prev_of w),
      frame m m' w b ws rest
          (λ x h. ground (arith, out.next_of x, elem-other l x (w ∷ ws), elem-other a x (w ∷ ws)))
          (λ x h. ground (arith, out.prev_of x, elem-other l x (b ∷ ws), elem-other w x (b ∷ ws))),
    )
Chain-unlinked m m' a b l (u ∷ us) ws out (a_out, apart) b_out (n, p, rest) back = (
  ground (
    arith,
    out.next_of a,
    elem-append a us (l ∷ ws),
    last_of-elem u us,
    elem-other a (last_of u us) (u ∷ us),
  ),
  ground (
    arith,
    out.prev_of u,
    elem-append u us (l ∷ ws),
    first_of-elem ws b,
    elem-other u (first_of ws b) (b ∷ ws),
  ),
  Chain-unlinked m m' u b l us ws out apart (ground arith) rest back,
)

-- With the link `l`, the chain is longer.
pub Chain-linked :
    (m m' : Memory) (a b l : ℕ) (us ws : List ℕ)
    → Linked l (last_of a us) (first_of ws b) m m'
    → Distinct (a ∷ (us ++ ws))
    → elem b (us ++ ws) ≡ false
    → elem l (a ∷ b ∷ (us ++ ws)) ≡ false
    → Chain m a (us ++ ws) b
    → Chain m' a (us ++ l ∷ ws) b
Chain-linked m m' a b l [] [] put (a_out, apart) b_out l_out (n, p) = (
  ground (arith, put.next_of a),
  ground (arith, put.prev_of l),
  (ground (arith, put.next_of l), ground (arith, put.prev_of b)),
)
Chain-linked m m' a b l [] (w ∷ ws) put (a_out, (w_out, apart)) b_out l_out (n, p, rest) = (
  ground (arith, put.next_of a),
  ground (arith, put.prev_of l),
  (
    ground (arith, put.next_of l),
    ground (arith, put.prev_of w),
    frame m m' w b ws rest
        (λ x h. ground (arith, put.next_of x, elem-other l x (w ∷ ws), elem-other a x (w ∷ ws)))
        (λ x h. ground (arith, put.prev_of x, elem-other l x (b ∷ ws), elem-other w x (b ∷ ws))),
  ),
)
Chain-linked m m' a b l (u ∷ us) ws put (a_out, apart) b_out l_out (n, p, rest) = (
  ground (
    arith,
    put.next_of a,
    elem-append a us ws,
    last_of-elem u us,
    elem-other a (last_of u us) (u ∷ us),
  ),
  ground (
    arith,
    put.prev_of u,
    elem-append u us ws,
    first_of-elem ws b,
    elem-other u (first_of ws b) (b ∷ ws),
  ),
  Chain-linked m m' u b l us ws put apart (ground arith) (ground arith) rest,
)
