-- ===== src/Blip/Boxes.antt =====
-- The icebox and the box of waiting messages of io/blip/BLIPIO.cc, and what each operation does to
-- them.
use crouton.Common.{
  ℕ, ◌==◌, Bool, true, false, Option, none, some, List, [], ◌∷◌, ◌++◌, ◌≡◌, refl, sym, ap, ◌∙◌,
  ==_iff, ◌⊎◌, inl, inr, Bool-cases, if◌then◌else◌, arith, All, All-append,
}
use mathlib.Core.Path.{subst}
use crouton.Common.Result.{ok}
use crouton.Queue.{remove_first, push, close, is_state, closed}
use crouton.Blip.{MessageOut, Outbox, urgent, needs_ack}
use crouton.Blip.Incoming.{MessageIn}
use crouton.Blip.Io.{
  BlipIo, discard_outgoing, queue_message, requeue_message, change_in, send, stop, close_read,
  disconnect_all, cancel_messages, answer_null,
}

abbrev pub IsFrozen : MessageOut → Type 0
IsFrozen m = needs_ack m ≡ true

abbrev pub IsPatient : MessageOut → Type 0
IsPatient m = urgent m ≡ false

-- The parts that the invariant reads.
abbrev pub boxes : BlipIo → List MessageOut × List MessageOut
boxes io = (io.icebox, io.way_out_box.queue)

abbrev pub InPlace : List MessageOut × List MessageOut → Type 0
InPlace (icebox, waiting) = All IsFrozen icebox × All IsPatient waiting

abbrev pub IsInPlace : BlipIo → Type 0
IsInPlace io = InPlace (boxes io)

pub boxes-answer_null : (f : Option ℕ) (io : BlipIo) → boxes (answer_null f io) ≡ boxes io
boxes-answer_null none io = refl
boxes-answer_null (some f) io = refl

pub boxes-cancel_messages :
    (ms : List (ℕ × MessageIn)) (io : BlipIo) → boxes (cancel_messages ms io) ≡ boxes io
unfolding cancel_messages
boxes-cancel_messages [] io = refl
boxes-cancel_messages ((k, m) ∷ rest) io =
    boxes-cancel_messages rest (answer_null m.on_response io) ∙ boxes-answer_null m.on_response io

pub boxes-close_read : (io : BlipIo) → boxes (close_read io) ≡ boxes io
unfolding close_read
boxes-close_read io =
    boxes-cancel_messages io.pending_responses _ ∙ boxes-cancel_messages io.pending_requests _

pub boxes-requeue_message :
    (m : MessageOut) (io io' : BlipIo) → requeue_message m io ≡ ok io' → boxes io' ≡ boxes io
unfolding requeue_message
boxes-requeue_message m io io' e = ground arith

pub boxes-queue_message :
    (m : MessageOut) (b : Bool) (io io' : BlipIo)
    → queue_message m io ≡ ok (b, io')
    → boxes io' ≡ boxes io
unfolding queue_message requeue_message
boxes-queue_message m b io io' e = ground (arith, boxes-answer_null m.on_response io)

pub All-remove_first {κ} :
    (Holds : MessageOut → Type κ) (p : MessageOut → Bool) (ms : List MessageOut)
    → All Holds ms
    → All Holds (remove_first p ms)
unfolding remove_first
All-remove_first Holds p [] all = tt
All-remove_first Holds p (m ∷ rest) (first, others) =
    elim (p m) as (λ b. All Holds (if b then rest else m ∷ remove_first p rest)) [
      | true ↦ others
      | false ↦ (first, All-remove_first Holds p rest others)
    ]

pub All-change_in {κ} :
    (Holds : MessageOut → Type κ) (a : ℕ) (m' : MessageOut) (ms : List MessageOut)
    → Holds m'
    → All Holds ms
    → All Holds (change_in a (λ _. m') ms)
unfolding change_in
All-change_in Holds a m' [] new all = tt
All-change_in Holds a m' (m ∷ rest) new (first, others) =
    elim (m.address == a)
      as (λ b. All Holds (if b then m' ∷ rest else m ∷ change_in a (λ _. m') rest)) [
        | true ↦ (new, others)
        | false ↦ (first, All-change_in Holds a m' rest new others)
      ]

pub All-thaw {κ} :
    (Holds : MessageOut → Type κ) (m' : MessageOut) (ms : List MessageOut)
    → All Holds ms
    → All Holds
        (remove_first (λ other. other.address == m'.address) (change_in m'.address (λ _. m') ms))
unfolding change_in remove_first
All-thaw Holds m' [] all = tt
All-thaw Holds m' (m ∷ rest) (first, others) = elim (Bool-cases (m.address == m'.address)) [
  | inl here ↦ rw here (rw ((==_iff m'.address _).1 refl) others)
  | inr other ↦ rw other (rw other (first, All-thaw Holds m' rest others))
]

pub moved :
    (io' : BlipIo) {b : List MessageOut × List MessageOut}
    → boxes io' ≡ b
    → InPlace b
    → IsInPlace io'
moved io' e v = subst InPlace (sym e) v

pub boxes-send :
    (m : MessageOut) (b : Bool) (io io' : BlipIo)
    → send m io ≡ ok (b, io')
    → (boxes io' ≡ boxes io)
      ⊎ ((urgent m ≡ false) × (boxes io' ≡ (io.icebox, io.way_out_box.queue ++ m ∷ [])))
unfolding send push
boxes-send m b io io' e = ground (arith, boxes-queue_message m b io io')

pub send-IsInPlace :
    (m : MessageOut) (b : Bool) (io io' : BlipIo)
    → send m io ≡ ok (b, io')
    → IsInPlace io
    → IsInPlace io'
send-IsInPlace m b io io' e v = elim (boxes-send m b io io' e) [
  | inl same ↦ moved io' same v
  | inr (patient, joined) ↦ moved io' joined (v.0, All-append IsPatient _ _ v.1 (patient, tt))
]

icebox-disconnect_all :
    (ms : List MessageOut) (io : BlipIo) → (disconnect_all ms io).icebox ≡ io.icebox
unfolding disconnect_all
icebox-disconnect_all [] io = refl
icebox-disconnect_all (m ∷ rest) io =
    icebox-disconnect_all rest (answer_null m.on_response io)
    ∙ ap (λ (b : List MessageOut × List MessageOut). b.0) (boxes-answer_null m.on_response io)

pub boxes-discard_outgoing :
    (io : BlipIo) → boxes (discard_outgoing io) ≡ ([], (close none io.way_out_box).queue)
unfolding discard_outgoing
boxes-discard_outgoing io =
    ap (λ (icebox : List MessageOut). (icebox, (close none io.way_out_box).queue))
      (icebox-disconnect_all io.way_out_box.queue _)

pub All-close : (box : Outbox) → All IsPatient box.queue → All IsPatient (close none box).queue
unfolding close
All-close box all = elim (Bool-cases (is_state box.state closed)) [
  | inl h ↦ rw h all
  | inr h ↦ rw h tt
]

pub stop-IsInPlace : (io : BlipIo) → IsInPlace io → IsInPlace (stop io)
unfolding stop
stop-IsInPlace io v =
    moved (stop io) (boxes-close_read (discard_outgoing io) ∙ boxes-discard_outgoing io)
      (tt, All-close io.way_out_box v.1)
