-- ===== src/Framer/Examples.antt =====
-- Two messages over a stream that is read three bytes at a time at most.
use crouton.Common.{
  ℕ, ◌≤◌, List, [], ◌∷◌, ◌++◌, ◌≡◌, refl, sym, arith, length, take, drop, take-append-drop,
  length-take, min,
}
use crouton.Framer.{message, eof, receive_messages, send_message}
use crouton.Framer.Delivery.{receive_delivers, all_sent, all_received}
use crouton.Varint.{put, put_loop}

abbrev read_three : ℕ → List ℕ → List ℕ × List ℕ
read_three n s = (take (min n 3) s, drop (min n 3) s)

in_pieces : (n : ℕ) (s : List ℕ) → s ≡ (read_three n s).0 ++ (read_three n s).1
in_pieces n s = sym (take-append-drop (min n 3) s)

reads_some : (n : ℕ) (s : List ℕ) → 1 ≤ n → 1 ≤ length s → 1 ≤ length (read_three n s).0
reads_some n s asked h = ground (arith, length-take (min n 3) s)

abbrev two_messages : List (List ℕ)
two_messages = (65 ∷ 66 ∷ 67 ∷ 68 ∷ []) ∷ (69 ∷ []) ∷ []

abbrev on_the_wire : List ℕ
on_the_wire = 4 ∷ 65 ∷ 66 ∷ 67 ∷ 68 ∷ 1 ∷ 69 ∷ []

receive_delivers_example :
    receive_messages read_three 10 [] on_the_wire
    ≡ message (65 ∷ 66 ∷ 67 ∷ 68 ∷ []) (message (69 ∷ []) eof)
unfolding all_sent send_message all_received put put_loop
receive_delivers_example =
    receive_delivers read_three (λ s. s) in_pieces reads_some two_messages on_the_wire
      (omega arith, (omega arith, tt)) refl
