-- ===== src/Blip/Examples.antt =====
-- Runs of a connection on concrete messages.
use crouton.Common.{
  ℕ, ◌+◌, ◌%◌, ◌^◌, false, ◌≡◌, refl, true, none, some, List, [], ◌∷◌, ◌++◌, map, arith, All, take,
  drop, length, ◌≤◌, ◌-◌,
}
use crouton.Common.Result.{◌>>=◌, ok, err, invalid_frame}
use crouton.Common.Assoc.{lookup, erase_key, insert_new, replace_key}
use crouton.Varint.{read}
use crouton.Queue.{maybe_pop, generate, push, push_before, item, blocked}
use crouton.Blip.{
  MessageOut, Outbox, has_flag, urgent, is_new, contains, requeue, is_ack, no_reply, type_of,
  needs_ack,
}
use crouton.Blip.Requeue.{MayPass, StopsAt, requeue-urgent}
use crouton.Blip.Incoming.{MessageIn, new_message_in, beginning, end, received_frame, count_frame}
use crouton.Blip.Io.{
  BlipIo, new_blip_io, send, after_frame, close_send, has_output, pending_request, receive_header,
  expect_response,
}
use crouton.Blip.Pending.{pending_request_ends}
use crouton.Blip.Reply.{Expects, HasCome, IsReply}
use crouton.Blip.Response.{IsTaken, AreTaken, receive_frames, response_once}
use crouton.Blip.Frames.{receive, store_message}
use crouton.Blip.Codec.{null_codec, read_checksum, null_write}
use crouton.Blip.Flow.{close_send_drops, acks_strand}
use crouton.Blip.Boxes.{IsInPlace}
use crouton.Blip.Icebox.{Reach, Step, Reach-IsInPlace}

abbrev message : ℕ → ℕ → ℕ → ℕ → MessageOut
message address flags bytes_sent unacked_bytes = record {
  address = address;
  flags = flags;
  number = address;
  bytes_sent = bytes_sent;
  unacked_bytes = unacked_bytes;
  on_response = some address;
  payload = [];
  unsent_payload = [];
  uncompressed_bytes_sent = 0;
}

abbrev box_of : List MessageOut → Outbox
box_of ms = record new_blip_io.outbox { queue = ms }

-- An urgent message that has been begun, in front of two that are not urgent.
abbrev mixed : Outbox
mixed = box_of (message 1 0x10 5000 5000 ∷ message 2 0 0 0 ∷ message 3 0 100 100 ∷ [])

abbrev urgent_message : MessageOut
urgent_message = message 4 0x10 0 0

requeued :
    (requeue urgent_message mixed)
    ≡ ok (
        box_of
          (message 1 0x10 5000 5000 ∷ message 2 0 0 0 ∷ urgent_message ∷ message 3 0 100 100 ∷ []))
unfolding requeue push_before
requeued = refl

requeue-urgent_example :
    (box' : Outbox) × (k : ℕ) × (requeue urgent_message mixed ≡ ok box')
    × (box'.queue ≡ take k mixed.queue ++ urgent_message ∷ drop k mixed.queue)
    × (1 ≤ k)
    × (k ≤ 3)
    × All (MayPass (is_new urgent_message)) (drop k mixed.queue)
    × StopsAt (is_new urgent_message) mixed.queue (k - 1)
unfolding urgent contains
requeue-urgent_example = requeue-urgent urgent_message mixed refl (omega arith) refl refl

abbrev receiving : BlipIo
receiving = record new_blip_io {
  pending_requests = (1, new_message_in 0x40 1 none) ∷ [];
  num_requests_received = 1;
}

pending_request_ends_example :
    (pending_request 1 0x40 (record receiving { pending_requests = [] }) ≡ err invalid_frame)
    × (lookup 2 [] ≡ lookup 2 receiving.pending_requests)
unfolding pending_request has_flag lookup erase_key
pending_request_ends_example =
    pending_request_ends 1 0 receiving (record receiving { pending_requests = [] })
      (new_message_in 0x40 1 none) refl refl (λ _. omega arith) (omega arith) 0x40 2 refl

-- A request that has been sent whole.
abbrev request : MessageOut
request = message 7 0 300 300

-- The codec without compression, over a checksum that adds the bytes up; a response to the request in
-- two frames, the first with more to come.
abbrev add_up : ℕ → List ℕ → ℕ
add_up s [] = s % 2 ^ 32
add_up s (x ∷ xs) = add_up (s + x) xs

abbrev first_part : List ℕ
first_part = 7 ∷ 0x41 ∷ (0 ∷ 5 ∷ []) ++ (0 ∷ 0 ∷ 0 ∷ 5 ∷ [])

abbrev last_part : List ℕ
last_part = 7 ∷ 0x01 ∷ (6 ∷ []) ++ (0 ∷ 0 ∷ 0 ∷ 11 ∷ [])

abbrev part : ℕ → ℕ → List ℕ → MessageIn
part raw unacked bytes = record (new_message_in 1 7 (some 7)) {
  raw_bytes_received = raw;
  unacked_bytes = unacked;
  body = bytes;
  got_properties = true;
}

abbrev first_bytes : List ℕ
first_bytes = (0 ∷ 5 ∷ []) ++ (0 ∷ 0 ∷ 0 ∷ 5 ∷ [])

abbrev last_bytes : List ℕ
last_bytes = (6 ∷ []) ++ (0 ∷ 0 ∷ 0 ∷ 11 ∷ [])

abbrev asked : BlipIo
asked = record new_blip_io { pending_responses = (7, new_message_in 1 7 (some 7)) ∷ [] }

abbrev whole_response : MessageIn
whole_response = record (part 11 11 (5 ∷ (6 ∷ []))) { complete = true }

response_once_example :
    (after_frame 0 request new_blip_io ≡ ok (expect_response request new_blip_io))
    × ((s' : ℕ) × (io' : BlipIo) × (m' : MessageIn) × (receive_frames
            (null_codec add_up)
            9
            (first_part ∷ [])
            0
            (expect_response request new_blip_io)
          ≡ ok (s', io'))
        × Expects 7 (some 7) [] m' io')
    × ((s' : ℕ) × (io' : BlipIo) × (receive_frames
            (null_codec add_up)
            9
            (first_part ∷ (last_part ∷ []))
            0
            (expect_response request new_blip_io)
          ≡ ok (s', io'))
        × HasCome 7 (some 7) [] whole_response io'
        × (receive (null_codec add_up) 9 last_part s' io' ≡ err invalid_frame))
unfolding is_ack has_flag type_of no_reply lookup IsReply receive_header AreTaken IsTaken
    expect_response read count_frame insert_new received_frame read_checksum null_write erase_key
    replace_key
response_once_example =
    response_once (null_codec add_up) 9 request 0 (first_part ∷ []) last_part last_part false
      whole_response 0 new_blip_io refl refl refl refl refl refl refl
      (
        part 6 6 (5 ∷ []),
        5,
        asked,
        (0x41, first_bytes, beginning, refl, refl, refl, refl, refl, refl),
        (11, new_blip_io, (0x01, last_bytes, end, refl, refl, refl, refl, refl, refl)),
      )
      (0x01, last_bytes, refl, refl, refl, refl)

abbrev future_and_body : ℕ × MessageIn → ℕ × List ℕ
future_and_body (f, m) = (f, m.body)

-- The Future then has the whole response, once.
response_arrives :
    (after_frame 0 request new_blip_io
      >>= (λ io. receive_frames (null_codec add_up) 9 (first_part ∷ (last_part ∷ [])) 0 io)
      >>= λ (s, io). ok (map future_and_body io.delivered))
    ≡ ok ((7, 5 ∷ (6 ∷ [])) ∷ [])
unfolding after_frame receive_frames receive is_ack has_flag maybe_pop read no_reply lookup
    insert_new received_frame read_checksum null_write store_message
response_arrives = refl

-- One message is being sent and one waits.
abbrev crowded : BlipIo
crowded = record new_blip_io { way_out_box = box_of (message 8 0 0 0 ∷ []) }

close_send_drops_example :
    (io' : BlipIo) × (after_frame 0 request (close_send crowded) ≡ ok io')
    × (io'.outbox ≡ crowded.outbox)
    × (io'.way_out_box.queue ≡ [])
    × (io'.answered ≡ 8 ∷ [])
unfolding is_ack has_flag type_of no_reply
close_send_drops_example =
    close_send_drops request (message 8 0 0 0) [] 0 8 crowded refl refl refl refl refl refl refl

-- Ten acknowledgements fill the outbox, and a request has to wait.
acknowledgement : ℕ → MessageOut
acknowledgement n = message n 0x34 0 0

send_all : List MessageOut → BlipIo → BlipIo
send_all [] io = io
send_all (m ∷ rest) io = send_all rest (elim (send m io) [ ok (b, io') ↦ io' | err e ↦ io ])

filled : BlipIo
unfolding send_all acknowledgement
filled =
    send_all
      (map acknowledgement (1 ∷ 2 ∷ 3 ∷ 4 ∷ 5 ∷ 6 ∷ 7 ∷ 8 ∷ 9 ∷ 10 ∷ []) ++ message 11 0 0 0 ∷ [])
      new_blip_io

filled_waits : (length filled.outbox.queue ≡ 10) × (length filled.way_out_box.queue ≡ 1)
unfolding filled send urgent requeue push_before push
filled_waits = (refl, refl)

acks_strand_example :
    let last = record crowded { outbox = box_of (message 3 0x34 0 0 ∷ []) } in
    (io' : BlipIo) × ((generate 1 last.outbox).0 ≡ item (message 3 0x34 0 0))
    × (after_frame 0x34 (message 3 0x34 0 0) (record last { outbox = (generate 1 last.outbox).1 })
        ≡ ok io')
    × ((generate 1 io'.outbox).0 ≡ blocked)
    × (has_output io' ≡ true)
    × (io'.way_out_box ≡ last.way_out_box)
unfolding is_ack
acks_strand_example =
    acks_strand (message 3 0x34 0 0) (message 8 0 0 0) [] 0x34 1
      (record crowded { outbox = box_of (message 3 0x34 0 0 ∷ []) }) refl refl refl refl refl

-- A message that has sent 128000 bytes is frozen.
abbrev long_message : MessageOut
long_message = message 5 0 130000 128000

abbrev with_frozen : BlipIo
with_frozen = record new_blip_io { icebox = long_message ∷ [] }

Reach-with_frozen : Reach with_frozen
unfolding after_frame is_ack has_flag needs_ack contains
Reach-with_frozen = Reach.next Reach.start (Step.framed 0x40 long_message refl)

Reach-IsInPlace_example : IsInPlace with_frozen
Reach-IsInPlace_example = Reach-IsInPlace Reach-with_frozen
