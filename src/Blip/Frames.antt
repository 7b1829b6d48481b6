-- ===== src/Blip/Frames.antt =====
-- createNextFrame, frameGenerator and receive of src/io/blip/BLIPIO.cc: whole frames, out and in.
-- The counts of bytes written and read, which are only statistics, are left out.
use crouton.Common.{
  ℕ, ◌+◌, ◌-◌, ◌==◌, if◌then◌else◌, Bool, false, not, ◌||◌, Option, none, some, List, [], ◌∷◌, ◌++◌,
  length,
}
use crouton.Common.Result.{Result, ok, ◌>>=◌}
use crouton.Common.Assoc.{replace_key}
use crouton.Queue.{generate, item, eof, failed, blocked}
use crouton.Varint.{put}
use crouton.Blip.{MessageOut, urgent, type_of, request_type}
use crouton.Blip.Codec.{Codec}
use crouton.Blip.Outgoing.{next_frame_to_send}
use crouton.Blip.Incoming.{MessageIn, ReceiveState, end, count_frame, received_frame}
use crouton.Blip.Io.{
  BlipIo, assign_number, after_frame, has_output, send, receive_header, receive_dispatch,
}

abbrev pub max_frame_overhead : ℕ
max_frame_overhead = 10 + 1 + 4

abbrev pub default_frame_size : ℕ
default_frame_size = 4096

abbrev pub big_frame_size : ℕ
big_frame_size = 32768

-- `Outbox::urgent`
unfoldable pub outbox_urgent : List MessageOut → Bool
outbox_urgent [] = false
outbox_urgent (m ∷ rest) = urgent m

unfoldable pub max_size : MessageOut → BlipIo → ℕ
unfolding outbox_urgent
max_size m io =
    (if urgent m || not (outbox_urgent io.outbox.queue) then big_frame_size else default_frame_size)
    + max_frame_overhead

-- The outcome of the frame generator: a frame, its end, or a wait for the outbox.
pub data NextFrame : Type 0 where
  frame : List ℕ → NextFrame
  stopped waiting : NextFrame

abbrev pub sending : Option (ℕ × List ℕ) → ℕ → BlipIo → Result BlipIo
sending none number io = ok io
sending (some (flags, payload)) number io =
    send
      (record {
        address = io.next_address;
        flags = flags;
        number = number;
        bytes_sent = 0;
        unacked_bytes = 0;
        on_response = none;
        payload = payload;
        unsent_payload = payload;
        uncompressed_bytes_sent = 0;
      })
      (record io { next_address = io.next_address + 1 })
    >>= λ (_, io'). ok io'

-- A message is shared with the map that has it.
unfoldable pub store_message : ℕ → MessageIn → BlipIo → BlipIo
unfolding replace_key
store_message t m io =
    if t == request_type
    then record io { pending_requests = replace_key m.number m io.pending_requests }
    else record io { pending_responses = replace_key m.number m io.pending_responses }

abbrev pub resolve : Option ℕ → MessageIn → BlipIo → BlipIo
resolve none m io = io
resolve (some f) m io = record io { delivered = io.delivered ++ (f, m) ∷ [] }

-- What `receive` does with the message in its last state, and what it returns.
abbrev pub hand_over : ℕ → ReceiveState → MessageIn → BlipIo → Option MessageIn × BlipIo
hand_over t end m io =
    (if t == request_type then some m else none, resolve m.on_response m (store_message t m io))
hand_over t _ m io = (none, store_message t m io)

module _ {S : Type 0} (codec : Codec S) where
  unfoldable pub create_next_frame : MessageOut → S → BlipIo → Result (List ℕ × S × BlipIo)
  unfolding max_size
  create_next_frame m s io =
      let (m', io') = assign_number m io in
      next_frame_to_send codec (max_size m' io' - length (put m'.number) - 1) m' s
      >>= λ (bytes, flags, m'', s').
          after_frame flags m'' io' >>= λ io''. ok (put m'.number ++ flags ∷ bytes, s', io'')

  -- `frameGenerator` from the head of its loop to where it yields or waits; it is run by the
  -- coroutine `h`.
  unfoldable pub frame_generator : ℕ → S → BlipIo → Result (NextFrame × S × BlipIo)
  unfolding create_next_frame
  frame_generator h s io =
      let (next, box) = generate h io.outbox in
      let io' = record io { outbox = box } in
      let made : Result (NextFrame × S × BlipIo) = elim next [
        | item m ↦ create_next_frame m s io' >>= λ (bytes, s', io''). ok (frame bytes, s', io'')
        | eof ↦ ok (stopped, s, io')
        | failed e ↦ ok (stopped, s, io')
        | blocked ↦ ok (waiting, s, io')
      ] in
      if io.send_open || has_output io then made else ok (stopped, s, io)

  -- The end of `receive`, for the message that the frame belongs to.
  unfoldable pub receive_message :
      ℕ → List ℕ → ℕ → MessageIn → S → BlipIo → Result (Option MessageIn × S × BlipIo)
  unfolding count_frame
  receive_message fuel bytes flags m s io =
      let (ack, m') = count_frame bytes m in
      sending ack m.number io >>= λ io'.
      received_frame codec fuel bytes flags m' s >>= λ (state, m'', s').
      let (done, io'') = hand_over (type_of flags) state m'' io' in ok (done, s', io'')

  unfoldable pub receive : ℕ → List ℕ → S → BlipIo → Result (Option MessageIn × S × BlipIo)
  unfolding receive_header receive_dispatch receive_message
  receive fuel bytes s io = receive_header bytes >>= λ (number, flags, rest).
      receive_dispatch number flags rest io >>= λ (found, io'). elim found [
        | none ↦ ok (none, s, io')
        | some m ↦ receive_message fuel rest flags m s io'
      ]
