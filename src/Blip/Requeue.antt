-- ===== src/Blip/Requeue.antt =====
-- Outbox::requeue of io/blip/BLIPIO.cc: where a message is put back.
use crouton.Common.{
  ℕ, zero, suc, ◌+◌, ◌-◌, ◌≤◌, ◌<◌, Bool, true, false, ◌&&◌, none, some, List, [], ◌∷◌, ◌≡◌, refl,
  ◌⊎◌, inl, ◌++◌, length, get_elem?, take, drop, All, arith,
}
use crouton.Common.Result.{ok}
use crouton.Queue.{is_open, is_state, push_before}
use crouton.Blip.{
  MessageOut, Outbox, urgent, is_new, contains, requeue, requeue_loop, requeue_position,
}

-- A message that the loop goes past.
abbrev pub MayPass : Bool → MessageOut → Type 0
MayPass new_message m = (urgent m ≡ false) × ((new_message && is_new m) ≡ false)

unfoldable pub urgent_at : List MessageOut → ℕ → Bool
urgent_at q i = elim (get_elem? q i) [ none ↦ false | some m ↦ urgent m ]

unfoldable pub new_at : List MessageOut → ℕ → Bool
new_at q i = elim (get_elem? q i) [ none ↦ false | some m ↦ is_new m ]

-- What the loop stops at: the head of the queue, an urgent message, with one more to be left in
-- between unless it is the last one, or a message that has not begun either.
abbrev pub StopsAt : Bool → List MessageOut → ℕ → Type 0
StopsAt new_message q k =
    (k ≡ 0)
    ⊎ ((1 ≤ k) × (urgent_at q (k - 1) ≡ true))
    ⊎ ((k + 1 ≡ length q) × (urgent_at q k ≡ true))
    ⊎ ((new_message && new_at q k) ≡ true)

get_elem-bound :
    (q : List MessageOut) (i : ℕ) → i < length q → (m : MessageOut) × (get_elem? q i ≡ some m)
get_elem-bound [] i h = absurd (omega arith)
get_elem-bound (m ∷ rest) zero h = (m, refl)
get_elem-bound (m ∷ rest) (suc i) h = get_elem-bound rest i (omega arith)

pub requeue_loop_bound :
    (b : Bool) (q : List MessageOut) (i : ℕ)
    → i ≤ length q
    → 1 ≤ length q
    → requeue_loop b q i + 1 ≤ length q
unfolding requeue_loop
requeue_loop_bound b q zero h one = ground arith
requeue_loop_bound b q (suc i) h one =
    ground (arith, get_elem-bound q i (omega arith), requeue_loop_bound b q i (omega arith) one)

requeue_loop_stops :
    (b : Bool) (q : List MessageOut) (i : ℕ) → i ≤ length q → StopsAt b q (requeue_loop b q i)
unfolding requeue_loop urgent_at new_at
requeue_loop_stops b q zero h = inl refl
requeue_loop_stops b q (suc i) h =
    ground (arith, get_elem-bound q i (omega arith), requeue_loop_stops b q i (omega arith))

-- Everything between the place and where the loop began has been gone past.
pub requeue_loop_passes :
    (b : Bool) (q : List MessageOut) (i j : ℕ) (m : MessageOut)
    → i ≤ length q
    → requeue_loop b q i < j
    → j < i
    → get_elem? q j ≡ some m
    → MayPass b m
unfolding requeue_loop
requeue_loop_passes b q zero j m bound after before here = absurd (omega arith)
requeue_loop_passes b q (suc i) j m bound after before here =
    ground (arith, get_elem-bound q i (omega arith), requeue_loop_passes b q i j m)

All-drop {κ} :
    (Holds : MessageOut → Type κ) (q : List MessageOut) (k : ℕ)
    → ((j : ℕ) (m : MessageOut) → k ≤ j → get_elem? q j ≡ some m → Holds m)
    → All Holds (drop k q)
All-drop Holds [] zero each = tt
All-drop Holds [] (suc k) each = tt
All-drop Holds (m ∷ rest) zero each = (
  each 0 m (omega arith) refl,
  All-drop Holds rest 0 (λ j other below here. each (suc j) other (omega arith) here),
)
All-drop Holds (m ∷ rest) (suc k) each =
    All-drop Holds rest k (λ j other below here. each (suc j) other (omega arith) here)

get_elem-some :
    (q : List MessageOut) (j : ℕ) (m : MessageOut) → get_elem? q j ≡ some m → j < length q
get_elem-some [] j m here = cc
get_elem-some (x ∷ rest) zero m here = omega arith
get_elem-some (x ∷ rest) (suc j) m here = omega (arith, get_elem-some rest j m here)

passed :
    (m : MessageOut) (q : List MessageOut)
    → All (MayPass (is_new m)) (drop (requeue_loop (is_new m) q (length q) + 1) q)
passed m q = All-drop _ q _ λ j other below here.
    requeue_loop_passes (is_new m) q (length q) j other (omega arith) (omega arith)
      (get_elem-some q j other here) here

-- An urgent message that is put back into an open outbox of two messages or more, and is not in it
-- yet, goes in at one place and the others keep their order. It never goes to the head; every
-- message behind it is not urgent and, if it has sent nothing yet itself, has sent something. It
-- goes no further back than it has to: before it stands the head, or an urgent message with at
-- most one other in between, or a message that has sent nothing yet either.
pub requeue-urgent :
    (m : MessageOut) (box : Outbox)
    → urgent m ≡ true
    → 2 ≤ length box.queue
    → contains m box.queue ≡ false
    → is_state box.state is_open ≡ true
    → (box' : Outbox) × (k : ℕ) × (requeue m box ≡ ok box')
      × (box'.queue ≡ take k box.queue ++ m ∷ drop k box.queue)
      × (1 ≤ k)
      × (k ≤ length box.queue)
      × All (MayPass (is_new m)) (drop k box.queue)
      × StopsAt (is_new m) box.queue (k - 1)
unfolding requeue requeue_position push_before urgent_at new_at
requeue-urgent m box u two absent open_ =
    let k = requeue_loop (is_new m) box.queue (length box.queue) in
    (
      (push_before (k + 1) m box).1,
      k + 1,
      ground arith,
      ground arith,
      omega arith,
      requeue_loop_bound (is_new m) box.queue (length box.queue) (omega arith) (omega arith),
      passed m box.queue,
      ground (arith, requeue_loop_stops (is_new m) box.queue (length box.queue) (omega arith)),
    )
