-- ===== src/Framer/Delivery.antt =====
-- io/Framer.cc: what one side sends the other receives.
use crouton.Common.{
  ℕ, zero, suc, ◌+◌, ◌-◌, ◌≤◌, ◌<◌, none, some, List, [], ◌∷◌, ◌++◌, ◌≡◌, refl, sym, ap, ◌∙◌, ◌⊎◌,
  inl, inr, arith, All, length, length-append, append_assoc, take-append, drop-append,
}
use crouton.Common.Result.{ok}
use crouton.Varint.{IsU64, put, read_partial}
use crouton.Varint.RoundTrip.{read_partial-put}
use crouton.Varint.Read.{read_partial_prefix}
use crouton.Framer.{send_message, Look, look, look_at, Received, receive_messages}

module _ {A : Type 0} where
  -- Two ways to cut one list.
  append_split :
      (xs us ys vs : List A)
      → xs ++ ys ≡ us ++ vs
      → ((w : List A) × (xs ≡ us ++ w) × (w ++ ys ≡ vs))
        ⊎ ((x : A) × (w : List A) × (us ≡ xs ++ x ∷ w) × (ys ≡ (x ∷ w) ++ vs))
  append_split xs [] ys vs e = inl (xs, refl, e)
  append_split [] (u ∷ us) ys vs e = inr (u, us, refl, e)
  append_split (x ∷ xs) (u ∷ us) ys vs e = elim (append_split xs us ys vs (grind arith)) [
    | inl (w, front, back) ↦ inl (w, grind arith, back)
    | inr (y, w, front, back) ↦ inr (y, w, grind arith, back)
  ]

append_empty : (xs ys : List ℕ) → xs ++ ys ≡ [] → (xs ≡ []) × (ys ≡ [])
append_empty [] ys e = (refl, e)
append_empty (x ∷ xs) ys e = cc

nothing_to_read : read_partial [] ≡ ok none
unfolding read_partial
nothing_to_read = refl

unfoldable pub all_sent : List (List ℕ) → List ℕ
all_sent [] = []
all_sent (m ∷ ms) = send_message m ++ all_sent ms

unfoldable pub all_received : List (List ℕ) → Received
all_received [] = Received.eof
all_received (m ∷ ms) = Received.message m (all_received ms)

abbrev pub Fits : List ℕ → Type 0
Fits m = IsU64 (length m)

look_partial : (b : List ℕ) → read_partial b ≡ ok none → look b ≡ ok (Look.reads 1024)
unfolding look
look_partial b e = ground arith

look_length :
    (b valid : List ℕ) (len : ℕ)
    → read_partial b ≡ ok (some (len, valid))
    → look b ≡ ok (look_at (some (len, valid)))
unfolding look
look_length b valid len e = ground arith

look_held : (m left : List ℕ) → look_at (some (length m, m ++ left)) ≡ Look.yields m left
look_held m left = ground (arith, length-append m left, take-append m left, drop-append m left)

look_short :
    (m w : List ℕ)
    → length w < length m
    → look_at (some (length m, w)) ≡ Look.reads (length m - length w)
look_short m w h = ground arith

shorter_front : (m w : List ℕ) (x : ℕ) (others : List ℕ) → m ≡ w ++ x ∷ others → length w < length m
shorter_front m w x others whole = rw whole (omega (arith, length-append w (x ∷ others)))

-- The bytes in hand, after the length of the message, and those that are still to come.
look_body :
    (m w p rest : List ℕ)
    → w ++ p ≡ m ++ rest
    → ((n : ℕ) × (look_at (some (length m, w)) ≡ Look.reads n) × (1 ≤ n) × (1 ≤ length p))
      ⊎ ((left : List ℕ) × (look_at (some (length m, w)) ≡ Look.yields m left) × (left ++ p ≡ rest))
look_body m w p rest e = elim (append_split w m p rest e) [
  | inl (left, held, more) ↦ inr (left, rw held (look_held m left), more)
  | inr (x, others, whole, more) ↦
      let short = shorter_front m w x others whole in
      inl (length m - length w, look_short m w short, omega arith, rw more (omega arith))
]

-- What the loop does while the next message is not in the buffer, and once it is.
look_next :
    (m b p rest : List ℕ)
    → Fits m
    → b ++ p ≡ send_message m ++ rest
    → ((n : ℕ) × (look b ≡ ok (Look.reads n)) × (1 ≤ n) × (1 ≤ length p))
      ⊎ ((left : List ℕ) × (look b ≡ ok (Look.yields m left)) × (left ++ p ≡ rest))
unfolding send_message
look_next m b p rest fits e =
    elim (append_split b (put (length m)) p (m ++ rest)
      (e ∙ append_assoc (put (length m)) m rest)) [
        | inr (x, w, whole, more) ↦ inl (
          1024,
          look_partial b (read_partial_prefix (length m) x b w fits whole),
          omega arith,
          rw more (omega arith),
        )
        | inl (w, held, more) ↦
            let known = look_length b w (length m) (rw held (read_partial-put (length m) w fits)) in
            elim (look_body m w p rest more) [
              | inl (n, e', asked, some_left) ↦ inl (n, known ∙ ap ok e', asked, some_left)
              | inr (left, e', after) ↦ inr (left, known ∙ ap ok e', after)
            ]
      ]

-- `pending` are the bytes of the stream that are still to come.
module _ {S : Type 0} (read_no_copy : ℕ → S → List ℕ × S) (pending : S → List ℕ)
    (in_order : (n : ℕ) (s : S) → pending s ≡ (read_no_copy n s).0 ++ pending (read_no_copy n s).1)
    (some_read : (n : ℕ) (s : S)
      → 1 ≤ n
      → 1 ≤ length (pending s)
      → 1 ≤ length (read_no_copy n s).0) where
  -- One round that reads.
  shorter :
      (n : ℕ) (s : S)
      → 1 ≤ n
      → 1 ≤ length (pending s)
      → length (pending (read_no_copy n s).1) < length (pending s)
  shorter n s asked h = ground (
    arith,
    some_read n s asked h,
    length-append (read_no_copy n s).0 (pending (read_no_copy n s).1),
    ap length (in_order n s),
  )

  receive_read :
      (k n : ℕ) (b : List ℕ) (s : S)
      → look b ≡ ok (Look.reads n)
      → 1 ≤ n
      → 1 ≤ length (pending s)
      → receive_messages read_no_copy (suc k) b s
        ≡ receive_messages read_no_copy k (b ++ (read_no_copy n s).0) (read_no_copy n s).1
  unfolding receive_messages
  receive_read k n b s looked asked more = ground (arith, some_read n s asked more)

  receive_yield :
      (k : ℕ) (m b left : List ℕ) (s : S)
      → look b ≡ ok (Look.yields m left)
      → receive_messages read_no_copy (suc k) b s
        ≡ Received.message m (receive_messages read_no_copy k left s)
  unfolding receive_messages
  receive_yield k m b left s looked = ground arith

  receive_end :
      (k : ℕ) (b : List ℕ) (s : S)
      → b ++ pending s ≡ []
      → receive_messages read_no_copy (suc k) b s ≡ Received.eof
  unfolding receive_messages
  receive_end k b s e =
      let (no_bytes, at_end) = append_empty b (pending s) e in
      let (none_read, _) =
        append_empty (read_no_copy 1024 s).0 (pending (read_no_copy 1024 s).1)
          (sym (in_order 1024 s) ∙ at_end) in
      ground (arith, look_partial b (rw no_bytes nothing_to_read))

  receive_every :
      (k : ℕ) (ms : List (List ℕ)) (b : List ℕ) (s : S)
      → All Fits ms
      → b ++ pending s ≡ all_sent ms
      → length ms + length (pending s) < k
      → receive_messages read_no_copy k b s ≡ all_received ms
  unfolding all_sent all_received
  receive_every zero ms b s fits e enough = absurd (omega arith)
  receive_every (suc k) [] b s fits e enough = receive_end k b s e
  receive_every (suc k) (m ∷ ms) b s (fits, others) e enough =
      elim (look_next m b (pending s) (all_sent ms) fits e) [
        | inl (n, looked, asked, more) ↦
            receive_read k n b s looked asked more
            ∙ receive_every k (m ∷ ms) (b ++ (read_no_copy n s).0) (read_no_copy n s).1
                (fits, others)
                (append_assoc b (read_no_copy n s).0 (pending (read_no_copy n s).1)
                  ∙ sym (ap (λ (p : List ℕ). b ++ p) (in_order n s))
                  ∙ e)
                (omega (arith, shorter n s asked more))
        | inr (left, looked, after) ↦
            receive_yield k m b left s looked
            ∙ ap (Received.message m) (receive_every k ms left s others after (omega arith))
      ]

  -- Whatever pieces a stream is read in, where `readNoCopy` returns the next bytes in their order,
  -- at least one if it is asked for one and not at the end: if the bytes of the stream are what
  -- sendMessage has written for some messages of fewer than 2 ^ 64 bytes, receiveMessages yields
  -- just these messages, in their order, and then ends. One round of its loop for each message and for each
  -- byte, and one more, are enough.
  pub receive_delivers :
      (ms : List (List ℕ)) (s : S)
      → All Fits ms
      → pending s ≡ all_sent ms
      → receive_messages read_no_copy (length ms + length (pending s) + 1) [] s ≡ all_received ms
  receive_delivers ms s fits e = receive_every _ ms [] s fits e (omega arith)
