-- ===== src/Blip/Reply.antt =====
-- Which message a frame of a response belongs to, and where it goes, in io/blip/BLIPIO.cc.
use mathlib.Core.Path.{subst}
use crouton.Common.{
  if_true, if_false, ℕ, ◌==◌, Bool, true, false, not, ◌&&◌, ◌||◌, Option, none, some, List, [], ◌∷◌,
  ◌++◌, is_empty, is_some, ◌≡◌, refl, sym, ap, ◌∙◌, arith,
}
use crouton.Common.Result.{ok, err, ◌>>=◌, invalid_frame}
use crouton.Common.Assoc.{lookup, erase_key, insert_new, replace_key, lookup-append-same}
use crouton.Queue.{maybe_pop}
use crouton.Blip.{
  MessageOut, has_flag, more_coming_flag, type_of, is_ack, no_reply, request_type, response_type,
  error_type,
}
use crouton.Blip.Incoming.{MessageIn, ReceiveState, other, beginning, end, new_message_in}
use crouton.Blip.Io.{
  BlipIo, receive_header, receive_dispatch, receive_response, some_message, pending_response,
  after_frame, admit, admit_waiting, expect_response,
}
use crouton.Blip.Frames.{store_message, resolve, hand_over}
use crouton.Blip.Received.{is_end}

-- A frame of the response with that number, and whether others come after it.
unfoldable pub IsReply : ℕ → Bool → List ℕ → Type 0
IsReply number more frame =
    (flags : ℕ) × (bytes : List ℕ) × (receive_header frame ≡ ok (number, flags, bytes))
    × ((type_of flags == request_type) ≡ false)
    × ((type_of flags == response_type || type_of flags == error_type) ≡ true)
    × (has_flag more_coming_flag flags ≡ more)

-- The response is expected, with this message so far, for this Future; these have been resolved.
unfoldable pub Expects : ℕ → Option ℕ → List (ℕ × MessageIn) → MessageIn → BlipIo → Type 0
Expects number future before m io =
    (lookup number io.pending_responses ≡ some m)
    × (m.number ≡ number)
    × (m.on_response ≡ future)
    × (io.receive_open ≡ true)
    × (io.delivered ≡ before)

-- The response has come as this message: it is complete, its Future has it, after those of before,
-- and it is not expected any more.
unfoldable pub HasCome : ℕ → Option ℕ → List (ℕ × MessageIn) → MessageIn → BlipIo → Type 0
HasCome number future before m io =
    (m.complete ≡ true)
    × (m.number ≡ number)
    × (io.delivered ≡ elim future [ none ↦ before | some f ↦ before ++ (f, m) ∷ [] ])
    × (lookup number io.pending_responses ≡ none)
    × (io.receive_open ≡ true)

pub dispatch_reply :
    (number flags : ℕ) (bytes : List ℕ) (io : BlipIo)
    → (type_of flags == request_type) ≡ false
    → (type_of flags == response_type || type_of flags == error_type) ≡ true
    → io.receive_open ≡ true
    → receive_dispatch number flags bytes io ≡ some_message (pending_response number flags io)
unfolding receive_dispatch receive_response
dispatch_reply number flags bytes io no_request reply receiving =
    if_false _ _ (type_of flags == request_type) no_request
    ∙ if_true _ _ (type_of flags == response_type || type_of flags == error_type) reply
    ∙ if_true _ _ io.receive_open receiving

pub pending_more :
    (number flags : ℕ) (io : BlipIo) (m : MessageIn)
    → lookup number io.pending_responses ≡ some m
    → has_flag more_coming_flag flags ≡ true
    → pending_response number flags io ≡ ok (m, io)
unfolding pending_response
pending_more number flags io m there goes_on = ground arith

pub pending_last :
    (number flags : ℕ) (io : BlipIo) (m : MessageIn)
    → lookup number io.pending_responses ≡ some m
    → has_flag more_coming_flag flags ≡ false
    → pending_response number flags io
      ≡ ok (m, record io { pending_responses = erase_key number io.pending_responses })
unfolding pending_response
pending_last number flags io m there last = ground arith

pub pending_none :
    (number flags : ℕ) (io : BlipIo)
    → lookup number io.pending_responses ≡ none
    → pending_response number flags io ≡ err invalid_frame
unfolding pending_response
pending_none number flags io absent = ground arith

pub hand_over_more :
    (t : ℕ) (state : ReceiveState) (m : MessageIn) (io : BlipIo)
    → is_end state ≡ false
    → (hand_over t state m io).1 ≡ store_message t m io
hand_over_more t other m io goes_on = refl
hand_over_more t beginning m io goes_on = refl
hand_over_more t end m io goes_on = cc

pub hand_over_end :
    (t : ℕ) (state : ReceiveState) (m : MessageIn) (io : BlipIo)
    → is_end state ≡ true
    → (hand_over t state m io).1 ≡ resolve m.on_response m (store_message t m io)
hand_over_end t other m io ended = cc
hand_over_end t beginning m io ended = cc
hand_over_end t end m io ended = refl

pub store_reply :
    (t : ℕ) (m : MessageIn) (io : BlipIo)
    → (t == request_type) ≡ false
    → store_message t m io
      ≡ record io { pending_responses = replace_key m.number m io.pending_responses }
unfolding store_message
store_reply t m io no_request = if_false _ _ (t == request_type) no_request

pub resolve-HasCome :
    (number : ℕ) (future : Option ℕ) (before : List (ℕ × MessageIn)) (m : MessageIn) (io : BlipIo)
    → m.complete ≡ true
    → m.number ≡ number
    → io.delivered ≡ before
    → lookup number io.pending_responses ≡ none
    → io.receive_open ≡ true
    → HasCome number future before m (resolve future m io)
unfolding HasCome
resolve-HasCome number none before m io complete numbered same absent receiving =
    (complete, numbered, same, absent, receiving)
resolve-HasCome number (some f) before m io complete numbered same absent receiving =
    (complete, numbered, ap (λ d. d ++ (f, m) ∷ []) same, absent, receiving)

-- The request has been sent whole, and its response is expected.
pub request_sent :
    (m : MessageOut) (sent : ℕ) (io : BlipIo)
    → is_ack m ≡ false
    → has_flag more_coming_flag sent ≡ false
    → is_empty io.way_out_box.queue ≡ true
    → after_frame sent m io ≡ ok (expect_response m io)
unfolding after_frame admit_waiting admit maybe_pop
request_sent m sent io ack no_more quiet =
    if_false _ _ (is_ack m) ack
    ∙ if_false _ _ (has_flag more_coming_flag sent) no_more
    ∙ ap (λ r. r >>= (λ popped. admit popped io) >>= λ io'. ok (expect_response m io'))
        (if_true _ _ (is_empty io.way_out_box.queue) quiet)

pub expect_response_lem :
    (m : MessageOut) (io : BlipIo)
    → type_of m.flags ≡ request_type
    → no_reply m ≡ false
    → lookup m.number io.pending_responses ≡ none
    → expect_response m io ≡ record io {
      pending_responses =
          io.pending_responses
          ++ (m.number, new_message_in response_type m.number m.on_response) ∷ [];
    }
unfolding expect_response insert_new
expect_response_lem m io asks reply absent =
    let wanted : (type_of m.flags == request_type && not (no_reply m)) ≡ true =
      rw (asks, reply) refl in
    if_true _ _ (type_of m.flags == request_type && not (no_reply m)) wanted
    ∙ ap (λ ps. record io { pending_responses = ps })
        (if_false _ _ (is_some (lookup m.number io.pending_responses)) (ap is_some absent))

pub expect_response-Expects :
    (m : MessageOut) (io : BlipIo)
    → type_of m.flags ≡ request_type
    → no_reply m ≡ false
    → lookup m.number io.pending_responses ≡ none
    → io.receive_open ≡ true
    → Expects m.number m.on_response io.delivered
        (new_message_in response_type m.number m.on_response)
        (expect_response m io)
unfolding Expects
expect_response-Expects m io asks reply absent receiving =
    let entry = new_message_in response_type m.number m.on_response in
    subst (Expects m.number m.on_response io.delivered entry)
      (sym (expect_response_lem m io asks reply absent))
      (lookup-append-same m.number entry io.pending_responses absent, refl, refl, receiving, refl)
