-- ===== src/Framer.antt =====
-- io/Framer.cc: messages over a stream, each after its length as a varint.
-- The stream is a parameter: a state, and `readNoCopy` on it. What `sendMessage` gives the stream
-- to write is the list of its bytes; the flag against reentrant calls is left out.
pub mod Delivery
mod Examples
use crouton.Common.{
  ℕ, zero, suc, ◌-◌, leb, if◌then◌else◌, Option, none, some, List, [], ◌∷◌, ◌++◌, length, take,
  drop, is_empty,
}
use crouton.Common.Result.{Result, ok, err, Error}
use crouton.Varint.{put, read_partial}

unfoldable pub send_message : List ℕ → List ℕ
unfolding put
send_message msg = put (length msg) ++ msg

-- What the loop of `receiveMessages` does with the bytes in its buffer: it yields a message and
-- keeps the bytes after it, or asks the stream for a number of bytes.
pub data Look : Type 0 where
  yields : List ℕ → List ℕ → Look
  reads : ℕ → Look

abbrev pub look_at : Option (ℕ × List ℕ) → Look
look_at none = reads 1024
look_at (some (len, valid)) =
    if leb len (length valid)
    then yields (take len valid) (drop len valid)
    else reads (len - length valid)

unfoldable pub look : List ℕ → Result Look
unfolding read_partial
look buffer = elim (read_partial buffer) [ ok r ↦ ok (look_at r) | err e ↦ err e ]

-- What comes out of the generator; `unfinished` is where the fuel has run out.
pub data Received : Type 0 where
  message : List ℕ → Received → Received
  eof : Received
  failed : Error → Received
  unfinished : Received

module _ {S : Type 0} (read_no_copy : ℕ → S → List ℕ × S) where
  -- Each round of the loop takes one unit of fuel.
  unfoldable pub receive_messages : ℕ → List ℕ → S → Received
  unfolding look
  receive_messages zero buffer s = unfinished
  receive_messages (suc k) buffer s = elim (look buffer) [
    | err e ↦ failed e
    | ok (yields msg rest) ↦ message msg (receive_messages k rest s)
    | ok (reads n) ↦
        let (more, s') = read_no_copy n s in
        let others = receive_messages k (buffer ++ more) s' in if is_empty more then eof else others
  ]
