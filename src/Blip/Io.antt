-- ===== src/Blip/Io.antt =====
-- src/io/blip/BLIPIO.cc and include/crouton/io/blip/BLIPIO.hh: a connection's messages, outgoing
-- and incoming. `answered` is the history of the Futures that have been resolved with a null
-- message, and `delivered` of those that have been resolved with a response. `next_address` is
-- where the next message is allocated that the connection makes itself. The two generators of
-- frames, in and out, are in Frames.
use crouton.Common.{
  ℕ, ◌+◌, ◌%◌, ◌^◌, max, ltb, leb, ◌==◌, if◌then◌else◌, Bool, true, false, not, ◌&&◌, ◌||◌, Option,
  none, some, List, [], ◌∷◌, ◌++◌, length, is_empty,
}
use crouton.Common.Result.{Result, ok, err, assertion, invalid_frame, guard, ◌>>=◌, ◌>>◌}
use crouton.Common.Assoc.{lookup, erase_key, insert_new}
use crouton.Queue.{close, push, maybe_pop, remove_first, new_queue}
use crouton.Blip.{
  MessageOut, Outbox, has_flag, more_coming_flag, urgent, no_reply, type_of, is_ack, needs_ack,
  message_received_ack, is_message, find_message, contains, requeue, request_type, response_type,
  error_type, ack_request_type, ack_response_type,
}
use crouton.Varint.{read}
use crouton.Blip.Incoming.{MessageIn, new_message_in}

pub record BlipIo : Type 0 where
  pub outbox : Outbox
  pub way_out_box : Outbox
  pub icebox : List MessageOut
  pub pending_requests : List (ℕ × MessageIn)
  pub pending_responses : List (ℕ × MessageIn)
  pub last_message_no : ℕ
  pub num_requests_received : ℕ
  pub send_open : Bool
  pub receive_open : Bool
  pub max_outbox_depth : ℕ
  pub total_outbox_depth : ℕ
  pub count_outbox_depth : ℕ
  pub answered : List ℕ
  pub delivered : List (ℕ × MessageIn)
  pub next_address : ℕ

abbrev pub outbox_capacity : ℕ
outbox_capacity = 10

abbrev pub new_blip_io : BlipIo
new_blip_io = record {
  outbox = new_queue;
  way_out_box = new_queue;
  icebox = [];
  pending_requests = [];
  pending_responses = [];
  last_message_no = 0;
  num_requests_received = 0;
  send_open = true;
  receive_open = true;
  max_outbox_depth = 0;
  total_outbox_depth = 0;
  count_outbox_depth = 0;
  answered = [];
  delivered = [];
  next_address = 1;
}

unfoldable pub has_output : BlipIo → Bool
has_output io =
    not (is_empty io.outbox.queue)
    || not (is_empty io.way_out_box.queue)
    || not (is_empty io.icebox)

-- A null message for each Future there is: `MessageOut::noResponse`, to which
-- `MessageOut::disconnected` comes down, and `MessageIn::disconnected`.
abbrev pub answer_null : Option ℕ → BlipIo → BlipIo
answer_null none io = io
answer_null (some f) io = record io { answered = io.answered ++ f ∷ [] }

abbrev pub disconnected : MessageOut → BlipIo → BlipIo
disconnected m io = answer_null m.on_response io

unfoldable pub disconnect_all : List MessageOut → BlipIo → BlipIo
disconnect_all [] io = io
disconnect_all (m ∷ rest) io = disconnect_all rest (disconnected m io)

unfoldable pub cancel_messages : List (ℕ × MessageIn) → BlipIo → BlipIo
cancel_messages [] io = io
cancel_messages ((_, m) ∷ rest) io = cancel_messages rest (answer_null m.on_response io)

unfoldable pub close_read : BlipIo → BlipIo
unfolding cancel_messages
close_read io =
    let io1 = cancel_messages io.pending_requests (record io { receive_open = false }) in
    let io2 = cancel_messages io.pending_responses (record io1 { pending_requests = [] }) in
    record io2 { pending_responses = [] }

unfoldable pub close_receive : BlipIo → BlipIo
unfolding close_read
close_receive io = if io.receive_open then close_read io else io

unfoldable pub close_send : BlipIo → BlipIo
unfolding has_output
close_send io =
    let io' = record io { send_open = false } in
    if io.send_open
    then if has_output io then io' else record io' { outbox = close none io'.outbox }
    else io

-- The part of `stop` before `_closeRead`.
unfoldable pub discard_outgoing : BlipIo → BlipIo
unfolding disconnect_all
discard_outgoing io =
    let io1 =
      disconnect_all io.outbox.queue (record io { receive_open = false; send_open = false }) in
    let io2 = record (disconnect_all io.icebox io1) { icebox = [] } in
    let io3 = disconnect_all io.way_out_box.queue io2 in
    record io3 { outbox = close none io.outbox; way_out_box = close none io.way_out_box }

unfoldable pub stop : BlipIo → BlipIo
unfolding discard_outgoing close_read
stop io = close_read (discard_outgoing io)

-- The outbox after `requeue`.
unfoldable pub requeue_message : MessageOut → BlipIo → Result BlipIo
requeue_message m io = do box ← requeue m io.outbox; ok (record io { outbox = box })

unfoldable pub queue_message : MessageOut → BlipIo → Result (Bool × BlipIo)
unfolding requeue_message
queue_message m io =
    let depth = length io.outbox.queue + 1 in
    if io.send_open
    then (requeue_message m (record io {
      max_outbox_depth = max io.max_outbox_depth depth;
      total_outbox_depth = (io.total_outbox_depth + depth) % 2 ^ 64;
      count_outbox_depth = (io.count_outbox_depth + 1) % 2 ^ 64;
    })
        >>= λ io'. ok (true, io'))
    else ok (false, disconnected m io)

unfoldable pub send : MessageOut → BlipIo → Result (Bool × BlipIo)
unfolding queue_message
send m io =
    if urgent m || ltb (length io.outbox.queue) outbox_capacity
    then queue_message m io
    else ok ((push m io.way_out_box).0, record io { way_out_box = (push m io.way_out_box).1 })

unfoldable pub freeze_message : MessageOut → BlipIo → Result BlipIo
freeze_message m io = do
  guard (not (contains m io.outbox.queue)) assertion
  guard (not (contains m io.icebox)) assertion
  ok (record io { icebox = io.icebox ++ m ∷ [] })

unfoldable pub thaw_message : MessageOut → BlipIo → Result BlipIo
unfolding requeue_message
thaw_message m io = do
  guard (contains m io.icebox) assertion
  requeue_message m
      (record io { icebox = remove_first (λ other. other.address == m.address) io.icebox })

-- The parts of `createNextFrame` before and after the frame is written.
unfoldable pub assign_number : MessageOut → BlipIo → MessageOut × BlipIo
assign_number m io =
    let next = (io.last_message_no + 1) % 2 ^ 64 in
    if m.number == 0
    then (record m { number = next }, record io { last_message_no = next })
    else (m, io)

-- What `_wayOutBox.maybePop()` answers, and the box that it leaves.
unfoldable pub admit : Option MessageOut × Outbox → BlipIo → Result BlipIo
unfolding queue_message
admit (none, box) io = ok (record io { way_out_box = box })
admit (some m, box) io = queue_message m (record io { way_out_box = box }) >>= λ (_, io'). ok io'

unfoldable pub admit_waiting : BlipIo → Result BlipIo
unfolding admit
admit_waiting io = maybe_pop io.way_out_box >>= λ popped. admit popped io

-- `createResponse`, and what is done with its result.
unfoldable pub expect_response : MessageOut → BlipIo → BlipIo
expect_response m io =
    if type_of m.flags == request_type && not (no_reply m)
    then record io {
      pending_responses =
          insert_new m.number (new_message_in response_type m.number m.on_response)
            io.pending_responses;
    }
    else answer_null m.on_response io

unfoldable pub after_frame : ℕ → MessageOut → BlipIo → Result BlipIo
unfolding freeze_message requeue_message admit_waiting expect_response
after_frame frame_flags m io =
    if is_ack m
    then ok io
    else if has_flag more_coming_flag frame_flags
    then if needs_ack m && io.receive_open then freeze_message m io else requeue_message m io
    else (admit_waiting io >>= λ io'. ok (expect_response m io'))

-- `(flags & kMoreComing)` decides whether an entry stays in its map.
unfoldable pub pending_request : ℕ → ℕ → BlipIo → Result (MessageIn × BlipIo)
pending_request number flags io =
    let fresh = new_message_in flags number none in
    let io' = record io { num_requests_received = number } in
    elim (lookup number io.pending_requests) [
      | some m ↦
          if has_flag more_coming_flag flags
          then ok (m, io)
          else ok (m, record io { pending_requests = erase_key number io.pending_requests })
      | none ↦
          if number == (io.num_requests_received + 1) % 2 ^ 64
          then if has_flag more_coming_flag flags
            then ok (
              fresh,
              record io' { pending_requests = insert_new number fresh io.pending_requests },
            )
            else ok (fresh, io')
          else err invalid_frame
    ]

unfoldable pub pending_response : ℕ → ℕ → BlipIo → Result (MessageIn × BlipIo)
pending_response number flags io = elim (lookup number io.pending_responses) [
  | some m ↦
      if has_flag more_coming_flag flags
      then ok (m, io)
      else ok (m, record io { pending_responses = erase_key number io.pending_responses })
  | none ↦ err invalid_frame
]

-- `receivedAck`: the message is in the outbox, where it is changed in place, or in the icebox.
unfoldable pub change_in : ℕ → (MessageOut → MessageOut) → List MessageOut → List MessageOut
change_in address f [] = []
change_in address f (m ∷ rest) =
    if m.address == address then f m ∷ rest else m ∷ change_in address f rest

unfoldable pub ack_queued : MessageOut → List ℕ → BlipIo → Result BlipIo
unfolding change_in message_received_ack
ack_queued m body io = read body >>= λ (byte_count, rest). ok (record io {
  outbox = record io.outbox {
    queue = change_in m.address (message_received_ack (byte_count % 2 ^ 32)) io.outbox.queue;
  };
})

-- With the frozen message as it is after the count has been taken in.
unfoldable pub thaw_acked : MessageOut → BlipIo → Result BlipIo
unfolding change_in thaw_message
thaw_acked m io =
    let io' = record io { icebox = change_in m.address (λ _. m) io.icebox } in
    if needs_ack m then ok io' else thaw_message m io'

unfoldable pub ack_frozen : MessageOut → List ℕ → BlipIo → Result BlipIo
unfolding message_received_ack thaw_acked
ack_frozen m body io =
    read body >>= λ (byte_count, rest). thaw_acked (message_received_ack (byte_count % 2 ^ 32) m) io

unfoldable pub received_ack : ℕ → Bool → List ℕ → BlipIo → Result BlipIo
unfolding find_message is_message ack_queued ack_frozen
received_ack number on_response body io =
    elim (find_message (is_message number on_response) io.outbox.queue) [
      | some m ↦ ack_queued m body io
      | none ↦ elim (find_message (is_message number on_response) io.icebox) [
        | none ↦ ok io
        | some m ↦ ack_frozen m body io
      ]
    ]

-- `receive` as far as the message that the frame belongs to, if any.
unfoldable pub receive_header : List ℕ → Result (ℕ × ℕ × List ℕ)
receive_header frame = do
  (number, after_number) ← read frame
  (f, rest) ← read after_number
  guard (leb f 0x80) invalid_frame
  ok (number, f, rest)

abbrev pub some_message : Result (MessageIn × BlipIo) → Result (Option MessageIn × BlipIo)
some_message (ok (m, io)) = ok (some m, io)
some_message (err e) = err e

unfoldable pub receive_request : ℕ → ℕ → BlipIo → Result (Option MessageIn × BlipIo)
unfolding pending_request
receive_request number flags io =
    if io.receive_open then some_message (pending_request number flags io) else ok (none, io)

unfoldable pub receive_response : ℕ → ℕ → BlipIo → Result (Option MessageIn × BlipIo)
unfolding pending_response
receive_response number flags io =
    if io.receive_open then some_message (pending_response number flags io) else ok (none, io)

unfoldable pub receive_ack : ℕ → Bool → List ℕ → BlipIo → Result (Option MessageIn × BlipIo)
unfolding received_ack
receive_ack number on_response frame io =
    received_ack number on_response frame io >>= λ io'. ok (none, io')

unfoldable pub receive_dispatch : ℕ → ℕ → List ℕ → BlipIo → Result (Option MessageIn × BlipIo)
unfolding receive_request receive_response receive_ack
receive_dispatch number flags frame io =
    let t = type_of flags in
    if t == request_type
    then receive_request number flags io
    else if t == response_type || t == error_type
    then receive_response number flags io
    else if t == ack_request_type || t == ack_response_type
    then receive_ack number (t == ack_response_type) frame io
    else ok (none, io)
