-- ===== src/Blip/Flow.antt =====
-- createNextFrame, send and receivedAck of io/blip/BLIPIO.cc: how messages move between the outbox,
-- the icebox and the box of those that wait to be sent.
use crouton.Common.{ℕ, true, false, some, List, [], ◌∷◌, ◌++◌, ◌≡◌, refl, arith}
use crouton.Common.Result.{ok}
use crouton.Queue.{
  is_open, is_state, generate, maybe_pop, pop, pop_from, yield_front, item, blocked,
}
use crouton.Blip.{MessageOut, has_flag, more_coming_flag, type_of, is_ack, no_reply, request_type}
use crouton.Blip.Io.{
  BlipIo, after_frame, admit, admit_waiting, expect_response, queue_message, close_send, has_output,
}

-- After closeSend a waiting message is not sent: when the last frame of another message has been
-- sent, the first of those that wait is taken out and its Future is answered with null, and the
-- outbox is left as it is.
pub close_send_drops :
    (m w : MessageOut) (ws : List MessageOut) (flags f : ℕ) (io : BlipIo)
    → is_ack m ≡ false
    → has_flag more_coming_flag flags ≡ false
    → no_reply m ≡ false
    → type_of m.flags ≡ request_type
    → io.way_out_box.queue ≡ w ∷ ws
    → io.way_out_box.close_when_empty ≡ false
    → w.on_response ≡ some f
    → (io' : BlipIo) × (after_frame flags m (close_send io) ≡ ok io')
      × (io'.outbox ≡ io.outbox)
      × (io'.way_out_box.queue ≡ ws)
      × (io'.answered ≡ io.answered ++ f ∷ [])
unfolding after_frame admit_waiting admit queue_message expect_response maybe_pop pop pop_from
    close_send has_output
close_send_drops m w ws flags f io ack last reply t waits open_ future =
    let box = record io.way_out_box { queue = ws } in
    let left = record (close_send io) { way_out_box = box; answered = io.answered ++ f ∷ [] } in
    (expect_response m left, ground arith, ground arith, ground arith, ground arith)

-- When the frame of an acknowledgement has been sent, no waiting message takes its place: if it was
-- the only message in the outbox, the generator of the outbox waits, though there is output.
pub acks_strand :
    (a w : MessageOut) (ws : List MessageOut) (flags h : ℕ) (io : BlipIo)
    → is_ack a ≡ true
    → io.outbox.queue ≡ a ∷ []
    → is_state io.outbox.state is_open ≡ true
    → io.outbox.close_when_empty ≡ false
    → io.way_out_box.queue ≡ w ∷ ws
    → (io' : BlipIo) × ((generate h io.outbox).0 ≡ item a)
      × (after_frame flags a (record io { outbox = (generate h io.outbox).1 }) ≡ ok io')
      × ((generate h io'.outbox).0 ≡ blocked)
      × (has_output io' ≡ true)
      × (io'.way_out_box ≡ io.way_out_box)
unfolding after_frame has_output generate yield_front
acks_strand a w ws flags h io ack only open_ stays waits = (
  record io { outbox = record io.outbox { queue = [] } },
  ground arith,
  ground arith,
  ground arith,
  ground arith,
  refl,
)
