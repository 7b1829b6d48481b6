-- ===== src/Queue/Drain.antt =====
-- The generator on a queue that is to close when it is empty.
use crouton.Common.{
  ℕ, zero, suc, true, Option, none, some, List, [], ◌∷◌, ◌++◌, length, ◌≡◌, ◌≢◌, refl, ap, arith,
  map,
}
use crouton.Queue.{closed, AsyncQueue, Yield, item, eof, failed, generate}

module _ {T E : Type 0} where
  -- What the generator gives when it is run so many times.
  abbrev pub run : ℕ → ℕ → AsyncQueue T E → List (Yield T E) × AsyncQueue T E
  run h zero q = ([], q)
  run h (suc n) q = let (y, q') = generate h q in let (ys, q'') = run h n q' in (y ∷ ys, q'')

  abbrev pub end_of : Option E → Yield T E
  end_of none = eof
  end_of (some e) = failed e

  generate_closed :
      (h : ℕ) (q : AsyncQueue T E) → q.state ≡ closed → generate h q ≡ (end_of q.close_error, q)
  unfolding generate
  generate_closed h q e = ground arith

  generate_empty :
      (h : ℕ) (q : AsyncQueue T E)
      → q.queue ≡ []
      → q.state ≢ closed
      → q.close_when_empty ≡ true
      → ((generate h q).0 ≡ end_of q.close_error) × ((generate h q).1.state ≡ closed)
  unfolding generate
  generate_empty h q e open_ ending = ground arith

  generate_more :
      (h : ℕ) (q : AsyncQueue T E) (x y : T) (l : List T)
      → q.queue ≡ x ∷ y ∷ l
      → q.state ≢ closed
      → generate h q ≡ (item x, record q { queue = y ∷ l })
  unfolding generate
  generate_more h q x y l e open_ = ground arith

  generate_last :
      (h : ℕ) (q : AsyncQueue T E) (x : T)
      → q.queue ≡ x ∷ []
      → q.state ≢ closed
      → q.close_when_empty ≡ true
      → ((generate h q).0 ≡ item x)
        × ((generate h q).1.state ≡ closed)
        × ((generate h q).1.close_error ≡ q.close_error)
  unfolding generate
  generate_last h q x e open_ ending = ground arith

  -- The generator of a queue that is to close when empty yields all its items in their order, then
  -- ends, with the queue's close error if there is one, and leaves the queue closed.
  pub run_drains :
      (h : ℕ) (q : AsyncQueue T E) (l : List T)
      → q.queue ≡ l
      → q.state ≢ closed
      → q.close_when_empty ≡ true
      → ((run h (suc (length l)) q).0 ≡ map item l ++ end_of q.close_error ∷ [])
        × ((run h (suc (length l)) q).1.state ≡ closed)
  run_drains h q [] e open_ ending =
      let (last, done) = generate_empty h q e open_ ending in (ground arith, done)
  run_drains h q (x ∷ []) e open_ ending =
      let (first, done, kept) = generate_last h q x e open_ ending in
      let again = generate_closed h (generate h q).1 done in (ground arith, ground arith)
  run_drains h q (x ∷ y ∷ l) e open_ ending =
      let more = generate_more h q x y l e open_ in
      let (items, done) = run_drains h (record q { queue = y ∷ l }) (y ∷ l) refl open_ ending in
      (rw more (ap (λ ys. item x ∷ ys) items), rw (more, run) done)
