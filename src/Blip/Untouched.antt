-- ===== src/Blip/Untouched.antt =====
-- What an acknowledgement that goes out, and the counting of a frame, leave as they are, of
-- io/blip/BLIPIO.cc and io/blip/Message.cc.
use crouton.Common.{
  ℕ, ◌+◌, ◌%◌, ◌^◌, max, length, ltb, Bool, true, ◌||◌, Option, none, some, List, leb, Bool-cases,
  inl, inr, ◌≡◌, refl,
}
use crouton.Common.Result.{either-Gives, ok, Gives, Gives-any, Gives-bind}
use crouton.Common.Assoc.{}
use crouton.Blip.{MessageOut, urgent, requeue}
use crouton.Blip.Incoming.{MessageIn, count_frame, acknowledge, incoming_ack_threshold}
use crouton.Blip.Io.{BlipIo, outbox_capacity, send, queue_message, requeue_message, answer_null}
use crouton.Blip.Frames.{sending}
use crouton.Blip.Received.{IsSame}

-- What sending an acknowledgement leaves as it is.
unfoldable pub Untouched : BlipIo → BlipIo → Type 0
Untouched io' io =
    (io'.pending_responses ≡ io.pending_responses)
    × (io'.delivered ≡ io.delivered)
    × (io'.receive_open ≡ io.receive_open)

answer_null-Untouched : (f : Option ℕ) (io : BlipIo) → Untouched (answer_null f io) io
unfolding Untouched
answer_null-Untouched none io = (refl, refl, refl)
answer_null-Untouched (some f) io = (refl, refl, refl)

requeue_message-Untouched :
    (m : MessageOut) (io : BlipIo) → Gives (λ io'. Untouched io' io) (requeue_message m io)
unfolding requeue_message Untouched Gives
requeue_message-Untouched m io =
    Gives-any (λ io'. Untouched io' io) (requeue m io.outbox) _ (λ box. (refl, refl, refl))

send-Untouched : (m : MessageOut) (io : BlipIo) → Gives (λ r. Untouched r.1 io) (send m io)
unfolding send queue_message Untouched Gives
send-Untouched m io =
    let depth = length io.outbox.queue + 1 in
    let counted : BlipIo = record io {
      max_outbox_depth = max io.max_outbox_depth depth;
      total_outbox_depth = (io.total_outbox_depth + depth) % 2 ^ 64;
      count_outbox_depth = (io.count_outbox_depth + 1) % 2 ^ 64;
    } in
    either-Gives Kept (urgent m || ltb (length io.outbox.queue) outbox_capacity) _ _
      (λ goes.
        either-Gives Kept io.send_open _ _
          (λ sends.
            Gives-bind (λ io'. Untouched io' counted) Kept (requeue_message m counted)
              (λ io'. ok (true, io')) (requeue_message-Untouched m counted) (λ io' kept. kept))
          (λ refused. answer_null-Untouched m.on_response io))
      (λ waits. (refl, refl, refl))
  where
    Kept : Bool × BlipIo → Type 0
    Kept r = Untouched r.1 io

pub sending-Untouched :
    (ack : Option (ℕ × List ℕ)) (number : ℕ) (io : BlipIo)
    → Gives (λ io'. Untouched io' io) (sending ack number io)
unfolding Gives Untouched
sending-Untouched none number io = (refl, refl, refl)
sending-Untouched (some (flags, payload)) number io =
    Gives-bind (λ r. Untouched r.1 io) (λ io'. Untouched io' io) _ (λ (_, io'). ok io')
      (send-Untouched _ (record io { next_address = io.next_address + 1 })) (λ r kept. kept)

pub count_frame-IsSame : (bytes : List ℕ) (m : MessageIn) → IsSame (count_frame bytes m).1 m
unfolding count_frame acknowledge IsSame
count_frame-IsSame bytes m =
    elim (Bool-cases
      (leb incoming_ack_threshold ((m.unacked_bytes + length bytes % 2 ^ 32) % 2 ^ 32))) [
        | inl big ↦ rw big (refl, refl)
        | inr small ↦ rw small (refl, refl)
      ]
