-- ===== src/Blip/Icebox.antt =====
-- What holds of the icebox and of the box of waiting messages in io/blip/BLIPIO.cc, whatever is
-- sent and received.
use crouton.Common.{
  ℕ, ◌%◌, ◌^◌, ◌==◌, Bool, true, Option, none, some, List, [], ◌∷◌, ◌++◌, ◌≡◌, ◌⊎◌, List-cases,
  Option-cases, inl, inr, Bool-cases, arith, All, All-append,
}
use mathlib.Core.Path.{subst}
use crouton.Common.Result.{Result, ok, ◌>>=◌, err, >>=-eq-ok}
use crouton.Queue.{generate, maybe_pop, pop, pop_from, remove_first, close}
use crouton.Blip.{
  MessageOut, type_of, ack_response_type, Outbox, needs_ack, message_received_ack, find_message,
  is_message,
}
use crouton.Blip.Incoming.{MessageIn}
use crouton.Blip.Io.{
  BlipIo, receive_request, receive_response, receive_ack, some_message, ack_queued, ack_frozen,
  thaw_acked, new_blip_io, assign_number, after_frame, admit, admit_waiting, expect_response,
  queue_message, requeue_message, freeze_message, thaw_message, received_ack, change_in, send, stop,
  close_send, close_receive, receive_dispatch, pending_request, pending_response,
}
use crouton.Blip.Boxes.{
  IsFrozen, IsPatient, boxes, IsInPlace, boxes-answer_null, boxes-close_read, boxes-requeue_message,
  boxes-queue_message, All-change_in, All-thaw, moved, send-IsInPlace, stop-IsInPlace,
}
use crouton.Varint.{read}

pub data Step : BlipIo → BlipIo → Type 0 where
  sent : (m : MessageOut) (b : Bool) {io io' : BlipIo} → send m io ≡ ok (b, io') → Step io io'
  pulled : (h : ℕ) {io : BlipIo} → Step io (record io { outbox = (generate h io.outbox).1 })
  numbered : (m : MessageOut) {io : BlipIo} → Step io (assign_number m io).1
  framed :
      (flags : ℕ) (m : MessageOut) {io io' : BlipIo} → after_frame flags m io ≡ ok io' → Step io io'
  received :
      (number flags : ℕ) (frame : List ℕ) (m : Option MessageIn) {io io' : BlipIo}
      → receive_dispatch number flags frame io ≡ ok (m, io')
      → Step io io'
  send_closed : {io : BlipIo} → Step io (close_send io)
  receive_closed : {io : BlipIo} → Step io (close_receive io)
  stopped : {io : BlipIo} → Step io (stop io)

pub data Reach : BlipIo → Type 0 where
  start : Reach new_blip_io
  next : {io io' : BlipIo} → Reach io → Step io io' → Reach io'

maybe_pop-some :
    (box box' : Outbox) (w : MessageOut)
    → maybe_pop box ≡ ok (some w, box')
    → box.queue ≡ w ∷ box'.queue
unfolding maybe_pop pop pop_from close
maybe_pop-some box box' w e = elim (List-cases box.queue) [
  | inl empty ↦ ground arith
  | inr (x, rest, full) ↦ elim (List-cases rest) [
    | inl last ↦ ground arith
    | inr (y, more, longer) ↦ ground arith
  ]
]

maybe_pop-none : (box box' : Outbox) → maybe_pop box ≡ ok (none, box') → box' ≡ box
unfolding maybe_pop pop pop_from
maybe_pop-none box box' e = elim (List-cases box.queue) [
  | inl empty ↦ ground arith
  | inr (x, rest, full) ↦ ground arith
]

admitted :
    (popped : Option MessageOut × Outbox) (io io' : BlipIo)
    → maybe_pop io.way_out_box ≡ ok popped
    → admit popped io ≡ ok io'
    → IsInPlace io
    → IsInPlace io'
unfolding admit
admitted (none, box) io io' e done v =
    moved io' (ground (arith, maybe_pop-none io.way_out_box box e)) v
admitted (some w, box) io io' e done v =
    let left = record io { way_out_box = box } in
    let queued = >>=-eq-ok (queue_message w left) _ done in
    let same = boxes-queue_message w queued.0.0 left queued.0.1 queued.1 in
    let rest = subst (All IsPatient) (maybe_pop-some io.way_out_box box w e) v.1 in
    moved io' (ground arith) (v.0, rest.1)

admit_waiting-IsInPlace :
    (io io' : BlipIo) → admit_waiting io ≡ ok io' → IsInPlace io → IsInPlace io'
unfolding admit_waiting
admit_waiting-IsInPlace io io' e v =
    let popped = >>=-eq-ok (maybe_pop io.way_out_box) (λ r. admit r io) e in
    admitted popped.0 io io' popped.1 popped.2 v

boxes-expect_response : (m : MessageOut) (io : BlipIo) → boxes (expect_response m io) ≡ boxes io
unfolding expect_response
boxes-expect_response m io = ground (arith, boxes-answer_null m.on_response io)

boxes-freeze_message :
    (m : MessageOut) (io io' : BlipIo)
    → freeze_message m io ≡ ok io'
    → boxes io' ≡ (io.icebox ++ m ∷ [], io.way_out_box.queue)
unfolding freeze_message
boxes-freeze_message m io io' e = ground arith

boxes-after_frame :
    (flags : ℕ) (m : MessageOut) (io io' : BlipIo)
    → after_frame flags m io ≡ ok io'
    → (boxes io' ≡ boxes io)
      ⊎ ((needs_ack m ≡ true) × (freeze_message m io ≡ ok io'))
      ⊎ ((admit_waiting io >>= λ io'. ok (expect_response m io')) ≡ ok io')
unfolding after_frame
boxes-after_frame flags m io io' e = ground (arith, boxes-requeue_message m io io')

after_frame-IsInPlace :
    (flags : ℕ) (m : MessageOut) (io io' : BlipIo)
    → after_frame flags m io ≡ ok io'
    → IsInPlace io
    → IsInPlace io'
after_frame-IsInPlace flags m io io' e v = elim (boxes-after_frame flags m io io' e) [
  | inl same ↦ moved io' same v
  | inr (inl (frozen, ran)) ↦
      moved io' (boxes-freeze_message m io io' ran)
        (All-append IsFrozen io.icebox _ v.0 (frozen, tt), v.1)
  | inr (inr ran) ↦
      let admitted = >>=-eq-ok (admit_waiting io) (λ left. ok (expect_response m left)) ran in
      moved io' (ground (arith, boxes-expect_response m admitted.0))
        (admit_waiting-IsInPlace io admitted.0 admitted.1 v)
]

boxes-thaw_message :
    (m : MessageOut) (io io' : BlipIo)
    → thaw_message m io ≡ ok io'
    → boxes io'
      ≡ (remove_first (λ other. other.address == m.address) io.icebox, io.way_out_box.queue)
unfolding thaw_message requeue_message
boxes-thaw_message m io io' e = ground arith

thaw_acked-IsInPlace :
    (m : MessageOut) (io io' : BlipIo) → thaw_acked m io ≡ ok io' → IsInPlace io → IsInPlace io'
unfolding thaw_acked
thaw_acked-IsInPlace m io io' e v = elim (Bool-cases (needs_ack m)) [
  | inl frozen ↦
      moved io' {b = (change_in m.address (λ _. m) io.icebox, io.way_out_box.queue)} (ground arith)
        (All-change_in IsFrozen m.address m io.icebox frozen v.0, v.1)
  | inr free ↦
      moved io'
        (boxes-thaw_message m (record io { icebox = change_in m.address (λ _. m) io.icebox }) io'
          (ground arith))
        (All-thaw IsFrozen m io.icebox v.0, v.1)
]

boxes-ack_queued :
    (m : MessageOut) (body : List ℕ) (io io' : BlipIo)
    → ack_queued m body io ≡ ok io'
    → boxes io' ≡ boxes io
unfolding ack_queued
boxes-ack_queued m body io io' e = ground arith

ack_frozen-IsInPlace :
    (m : MessageOut) (body : List ℕ) (io io' : BlipIo)
    → ack_frozen m body io ≡ ok io'
    → IsInPlace io
    → IsInPlace io'
unfolding ack_frozen
ack_frozen-IsInPlace m body io io' e v =
    let count =
      >>=-eq-ok (read body)
        (λ (r : ℕ × List ℕ). thaw_acked (message_received_ack (r.0 % 2 ^ 32) m) io) e in
    thaw_acked-IsInPlace (message_received_ack (count.0.0 % 2 ^ 32) m) io io' count.2 v

received_ack-IsInPlace :
    (number : ℕ) (response : Bool) (body : List ℕ) (io io' : BlipIo)
    → received_ack number response body io ≡ ok io'
    → IsInPlace io
    → IsInPlace io'
unfolding received_ack
received_ack-IsInPlace number response body io io' e v =
    let queued = find_message (is_message number response) io.outbox.queue in
    let cold = find_message (is_message number response) io.icebox in
    elim (Option-cases queued) [
      | inl absent ↦ elim (Option-cases cold) [
        | inl unknown ↦ moved io' {b = boxes io} (ground arith) v
        | inr (m, found) ↦ ack_frozen-IsInPlace m body io io' (ground arith) v
      ]
      | inr (m, found) ↦ moved io' (boxes-ack_queued m body io io' (ground arith)) v
    ]

boxes-pending_request :
    (number flags : ℕ) (m : MessageIn) (io io' : BlipIo)
    → pending_request number flags io ≡ ok (m, io')
    → boxes io' ≡ boxes io
unfolding pending_request
boxes-pending_request number flags m io io' e = ground arith

boxes-pending_response :
    (number flags : ℕ) (m : MessageIn) (io io' : BlipIo)
    → pending_response number flags io ≡ ok (m, io')
    → boxes io' ≡ boxes io
unfolding pending_response
boxes-pending_response number flags m io io' e = ground arith

some_message_ok :
    (r : Result (MessageIn × BlipIo)) (m : Option MessageIn) (io' : BlipIo)
    → some_message r ≡ ok (m, io')
    → (x : MessageIn) × (r ≡ ok (x, io'))
some_message_ok (ok (x, left)) m io' e = (x, ground arith)
some_message_ok (err f) m io' e = cc

boxes-receive_request :
    (number flags : ℕ) (m : Option MessageIn) (io io' : BlipIo)
    → receive_request number flags io ≡ ok (m, io')
    → boxes io' ≡ boxes io
unfolding receive_request
boxes-receive_request number flags m io io' e = elim (Bool-cases io.receive_open) [
  | inl open_ ↦
      let ran = some_message_ok (pending_request number flags io) m io' (ground arith) in
      boxes-pending_request number flags ran.0 io io' ran.1
  | inr shut ↦ ground arith
]

boxes-receive_response :
    (number flags : ℕ) (m : Option MessageIn) (io io' : BlipIo)
    → receive_response number flags io ≡ ok (m, io')
    → boxes io' ≡ boxes io
unfolding receive_response
boxes-receive_response number flags m io io' e = elim (Bool-cases io.receive_open) [
  | inl open_ ↦
      let ran = some_message_ok (pending_response number flags io) m io' (ground arith) in
      boxes-pending_response number flags ran.0 io io' ran.1
  | inr shut ↦ ground arith
]

receive_ack-IsInPlace :
    (number : ℕ) (response : Bool) (frame : List ℕ) (m : Option MessageIn) (io io' : BlipIo)
    → receive_ack number response frame io ≡ ok (m, io')
    → IsInPlace io
    → IsInPlace io'
unfolding receive_ack
receive_ack-IsInPlace number response frame m io io' e v =
    let ran = >>=-eq-ok (received_ack number response frame io) _ e in
    moved io' {b = boxes ran.0} (ground arith)
      (received_ack-IsInPlace number response frame io ran.0 ran.1 v)

-- Which of the operations a received frame comes down to.
dispatch_cases :
    (number flags : ℕ) (frame : List ℕ) (m : Option MessageIn) (io io' : BlipIo)
    → receive_dispatch number flags frame io ≡ ok (m, io')
    → (boxes io' ≡ boxes io)
      ⊎ (receive_ack number (type_of flags == ack_response_type) frame io ≡ ok (m, io'))
unfolding receive_dispatch
dispatch_cases number flags frame m io io' e = ground (
  arith,
  boxes-receive_request number flags m io io',
  boxes-receive_response number flags m io io',
)

dispatch-IsInPlace :
    (number flags : ℕ) (frame : List ℕ) (m : Option MessageIn) (io io' : BlipIo)
    → receive_dispatch number flags frame io ≡ ok (m, io')
    → IsInPlace io
    → IsInPlace io'
dispatch-IsInPlace number flags frame m io io' e v =
    elim (dispatch_cases number flags frame m io io' e) [
      | inl same ↦ moved io' same v
      | inr ran ↦
          receive_ack-IsInPlace number (type_of flags == ack_response_type) frame m io io' ran v
    ]

Step-IsInPlace : {io io' : BlipIo} → Step io io' → IsInPlace io → IsInPlace io'
unfolding close_send close_receive assign_number
Step-IsInPlace (sent m b {io} {io'} e) v = send-IsInPlace m b io io' e v
Step-IsInPlace (pulled h) v = v
Step-IsInPlace (numbered m {io}) v = moved (assign_number m io).1 {b = boxes io} (ground arith) v
Step-IsInPlace (framed flags m {io} {io'} e) v = after_frame-IsInPlace flags m io io' e v
Step-IsInPlace (received number flags frame m {io} {io'} e) v =
    dispatch-IsInPlace number flags frame m io io' e v
Step-IsInPlace (send_closed {io}) v = moved (close_send io) {b = boxes io} (ground arith) v
Step-IsInPlace (receive_closed {io}) v =
    moved (close_receive io) {b = boxes io} (ground (arith, boxes-close_read io)) v
Step-IsInPlace (stopped {io}) v = stop-IsInPlace io v

-- Whatever is sent, framed, received and closed, and in whatever order: each message in the icebox
-- has at least 128000 bytes that are not acknowledged, and no message that waits to be put into
-- the outbox is urgent.
pub Reach-IsInPlace : {io : BlipIo} → Reach io → IsInPlace io
Reach-IsInPlace start = (tt, tt)
Reach-IsInPlace (next r s) = Step-IsInPlace s (Reach-IsInPlace r)
