-- ===== src/Blip/Response.antt =====
-- The frames of a response in BLIPIO::receive of io/blip/BLIPIO.cc, from the request on.
use mathlib.Core.Path.{subst}
use crouton.Common.{
  ℕ, ◌==◌, Bool, true, false, not, ◌||◌, Option, none, some, List, [], ◌∷◌, ◌++◌, is_empty, ◌≡◌,
  refl, ap, ◌∙◌,
}
use crouton.Common.Result.{Result, ok, err, ◌>>=◌, Gives, invalid_frame}
use crouton.Common.Assoc.{
  lookup, erase_key, replace_key, lookup-erase_key-same, lookup-replace_key-same,
  lookup-replace_key-none,
}
use crouton.Blip.{
  MessageOut, has_flag, more_coming_flag, type_of, is_ack, no_reply, request_type, response_type,
  error_type,
}
use crouton.Blip.Codec.{Codec}
use crouton.Blip.Incoming.{MessageIn, ReceiveState, new_message_in, count_frame, received_frame}
use crouton.Blip.Io.{
  BlipIo, receive_header, receive_dispatch, some_message, after_frame, expect_response,
}
use crouton.Blip.Frames.{sending, resolve, hand_over, receive_message, receive}
use crouton.Blip.Received.{IsSame, EndsWith, received_frame-Gives}
use crouton.Blip.Untouched.{Untouched, sending-Untouched, count_frame-IsSame}
use crouton.Blip.Reply.{
  dispatch_reply, pending_more, pending_last, pending_none, hand_over_more, hand_over_end,
  store_reply, resolve-HasCome, request_sent, expect_response-Expects, IsReply, Expects, HasCome,
}

module _ {S : Type 0} (codec : Codec S) (fuel : ℕ) where
  -- `receive`, for one frame after another.
  unfoldable pub receive_frames : List (List ℕ) → S → BlipIo → Result (S × BlipIo)
  receive_frames [] s io = ok (s, io)
  receive_frames (frame ∷ frames) s io =
      receive codec fuel frame s io >>= λ (_, s', io'). receive_frames frames s' io'

  -- A frame of the response, whose message is `m` before it and `m'` after it: receivedFrame takes
  -- it, and an acknowledgement, if one is due, is sent.
  unfoldable pub IsTaken :
      ℕ → Bool → List ℕ → MessageIn → S → BlipIo → MessageIn → S → BlipIo → Type 0
  IsTaken number more frame m s io m' s' io' =
      (flags : ℕ) × (bytes : List ℕ) × (state : ReceiveState) × (receive_header frame
        ≡ ok (number, flags, bytes))
      × ((type_of flags == request_type) ≡ false)
      × ((type_of flags == response_type || type_of flags == error_type) ≡ true)
      × (has_flag more_coming_flag flags ≡ more)
      × (sending (count_frame bytes m).0 m.number io ≡ ok io')
      × (received_frame codec fuel bytes flags (count_frame bytes m).1 s ≡ ok (state, m', s'))

  abbrev stored : MessageIn → BlipIo → BlipIo
  stored m io = record io { pending_responses = replace_key m.number m io.pending_responses }

  abbrev without : ℕ → BlipIo → BlipIo
  without number io = record io { pending_responses = erase_key number io.pending_responses }

  -- All the frames of a response, of which `last` is its last, and the message that they make.
  unfoldable pub AreTaken : ℕ → MessageIn → List (List ℕ) → List ℕ → MessageIn → S → BlipIo → Type 0
  AreTaken number m [] last response s io =
      (s' : S) × (io' : BlipIo) × IsTaken number false last m s (without number io) response s' io'
  AreTaken number m (frame ∷ frames) last response s io =
      (m' : MessageIn) × (s' : S) × (io' : BlipIo) × IsTaken number true frame m s io m' s' io'
      × AreTaken number m' frames last response s' (stored m' io')

  -- `receive`, once it is known which message the frame belongs to.
  receive_found :
      (frame bytes : List ℕ) (number flags : ℕ) (m : MessageIn) (s : S) (io io' : BlipIo)
      → receive_header frame ≡ ok (number, flags, bytes)
      → receive_dispatch number flags bytes io ≡ ok (some m, io')
      → receive codec fuel frame s io ≡ receive_message codec fuel bytes flags m s io'
  unfolding receive
  receive_found frame bytes number flags m s io io' header found = rw (header, found) refl

  receive_refused :
      (frame : List ℕ) (number : ℕ) (more : Bool) (s : S) (io : BlipIo)
      → IsReply number more frame
      → io.receive_open ≡ true
      → lookup number io.pending_responses ≡ none
      → receive codec fuel frame s io ≡ err invalid_frame
  unfolding receive IsReply
  receive_refused frame number more s io (flags, bytes, header, no_request, reply, goes_on)
        receiving absent =
      rw
        (
          header,
          dispatch_reply number flags bytes io no_request reply receiving
              ∙ ap some_message (pending_none number flags io absent),
        )
        refl

  message_taken :
      (bytes : List ℕ) (flags : ℕ) (state : ReceiveState) (m m' : MessageIn) (s s' : S)
      (io io' : BlipIo)
      → sending (count_frame bytes m).0 m.number io ≡ ok io'
      → received_frame codec fuel bytes flags (count_frame bytes m).1 s ≡ ok (state, m', s')
      → receive_message codec fuel bytes flags m s io
        ≡ ok (
          (hand_over (type_of flags) state m' io').0,
          s',
          (hand_over (type_of flags) state m' io').1,
        )
  unfolding receive_message
  message_taken bytes flags state m m' s s' io io' sends takes =
      ap
        (λ r. r >>= λ io1.
          received_frame codec fuel bytes flags (count_frame bytes m).1 s >>= λ (state', m1, s1).
          let (handed, io2) = hand_over (type_of flags) state' m1 io1 in ok (handed, s1, io2))
        sends
      ∙ ap
          (λ r. r >>= λ (state', m1, s1).
            let (handed, io2) = hand_over (type_of flags) state' m1 io' in ok (handed, s1, io2))
          takes

  -- What receivedFrame and the acknowledgement leave as it is.
  Leaves : ℕ → ReceiveState → MessageIn → MessageIn → BlipIo → BlipIo → Type 0
  Leaves flags state m m' io io' = IsSame m' m × EndsWith flags state m' × Untouched io' io

  taken-Leaves :
      (bytes : List ℕ) (flags : ℕ) (state : ReceiveState) (m m' : MessageIn) (s s' : S)
      (io io' : BlipIo)
      → sending (count_frame bytes m).0 m.number io ≡ ok io'
      → received_frame codec fuel bytes flags (count_frame bytes m).1 s ≡ ok (state, m', s')
      → Leaves flags state m m' io io'
  unfolding Leaves IsSame Gives
  taken-Leaves bytes flags state m m' s s' io io' sends takes =
      let counted = (count_frame bytes m).1 in
      let (same, ends) =
        subst (Gives (λ r. IsSame r.1 counted × EndsWith flags r.0 r.1)) takes
          (received_frame-Gives codec fuel bytes flags counted s) in
      let kept = count_frame-IsSame bytes m in
      (
        (same.0 ∙ kept.0, same.1 ∙ kept.1),
        ends,
        subst (Gives (λ q. Untouched q io)) sends
            (sending-Untouched (count_frame bytes m).0 m.number io),
      )

  step_more :
      (frame : List ℕ) (number : ℕ) (future : Option ℕ) (before : List (ℕ × MessageIn))
      (m m' : MessageIn) (s s' : S) (io io' : BlipIo)
      → Expects number future before m io
      → IsTaken number true frame m s io m' s' io'
      → (handed : Option MessageIn) × (receive codec fuel frame s io
          ≡ ok (handed, s', stored m' io'))
        × Expects number future before m' (stored m' io')
  unfolding Expects IsTaken Leaves IsSame EndsWith Untouched
  step_more frame number future before m m' s s' io io'
        (there, numbered, for_future, receiving, delivered)
        (flags, bytes, state, header, no_request, reply, goes_on, sends, takes) =
      let found =
        dispatch_reply number flags bytes io no_request reply receiving
        ∙ ap some_message (pending_more number flags io m there goes_on) in
      let (same, ends, kept) = taken-Leaves bytes flags state m m' s s' io io' sends takes in
      (
        (hand_over (type_of flags) state m' io').0,
        receive_found frame bytes number flags m s io io header found
            ∙ message_taken bytes flags state m m' s s' io io' sends takes
            ∙ ap (λ x. ok ((hand_over (type_of flags) state m' io').0, s', x))
                (hand_over_more (type_of flags) state m' io' (ends.0 ∙ ap not goes_on)
                  ∙ store_reply (type_of flags) m' io' no_request),
        (
          ap (λ k. lookup number (replace_key k m' io'.pending_responses)) (same.0 ∙ numbered)
              ∙ lookup-replace_key-same number m' m io'.pending_responses
                  (ap (lookup number) kept.0 ∙ there),
          same.0 ∙ numbered,
          same.1 ∙ for_future,
          kept.2 ∙ receiving,
          kept.1 ∙ delivered,
        ),
      )

  step_last :
      (frame : List ℕ) (number : ℕ) (future : Option ℕ) (before : List (ℕ × MessageIn))
      (m m' : MessageIn) (s s' : S) (io io' : BlipIo)
      → Expects number future before m io
      → IsTaken number false frame m s (without number io) m' s' io'
      → (handed : Option MessageIn) × (receive codec fuel frame s io
          ≡ ok (handed, s', resolve future m' (stored m' io')))
        × HasCome number future before m' (resolve future m' (stored m' io'))
  unfolding Expects IsTaken Leaves IsSame EndsWith Untouched
  step_last frame number future before m m' s s' io io'
        (there, numbered, for_future, receiving, delivered)
        (flags, bytes, state, header, no_request, reply, last, sends, takes) =
      let found =
        dispatch_reply number flags bytes io no_request reply receiving
        ∙ ap some_message (pending_last number flags io m there last) in
      let (same, ends, kept) =
        taken-Leaves bytes flags state m m' s s' (without number io) io' sends takes in
      let ended = ends.0 ∙ ap not last in
      (
        (hand_over (type_of flags) state m' io').0,
        receive_found frame bytes number flags m s io (without number io) header found
            ∙ message_taken bytes flags state m m' s s' (without number io) io' sends takes
            ∙ ap (λ x. ok ((hand_over (type_of flags) state m' io').0, s', x))
                (hand_over_end (type_of flags) state m' io' ended
                  ∙ ap (resolve m'.on_response m') (store_reply (type_of flags) m' io' no_request)
                  ∙ ap (λ f. resolve f m' (stored m' io')) (same.1 ∙ for_future)),
        resolve-HasCome number future before m' (stored m' io') (ends.1 ended) (same.0 ∙ numbered)
            (kept.1 ∙ delivered)
            (lookup-replace_key-none number m'.number m' io'.pending_responses
              (ap (lookup number) kept.0 ∙ lookup-erase_key-same number io.pending_responses))
            (kept.2 ∙ receiving),
      )

  receive_cons :
      (frame : List ℕ) (frames : List (List ℕ)) (handed : Option MessageIn) (s s' : S)
      (io io' : BlipIo)
      → receive codec fuel frame s io ≡ ok (handed, s', io')
      → receive_frames (frame ∷ frames) s io ≡ receive_frames frames s' io'
  unfolding receive_frames
  receive_cons frame frames handed s s' io io' same =
      ap (λ r. r >>= λ (_, s1, io1). receive_frames frames s1 io1) same

  frames_more :
      (frames : List (List ℕ)) (last : List ℕ) (number : ℕ) (future : Option ℕ)
      (before : List (ℕ × MessageIn)) (m response : MessageIn) (s : S) (io : BlipIo)
      → Expects number future before m io
      → AreTaken number m frames last response s io
      → (s' : S) × (io' : BlipIo) × (m' : MessageIn) × (receive_frames frames s io ≡ ok (s', io'))
        × Expects number future before m' io'
        × ((s'' : S) × (io'' : BlipIo) × (receive_frames (frames ++ last ∷ []) s io
              ≡ ok (s'', io''))
            × HasCome number future before response io'')
  unfolding AreTaken
  frames_more [] last number future before m m' s io expects (s', io', takes) =
      let (handed, received, come) =
        step_last last number future before m m' s s' io io' expects takes in
      (
        s,
        io,
        m,
        unfold receive_frames in refl,
        expects,
        (
          s',
          resolve future m' (stored m' io'),
          receive_cons last [] handed s s' io (resolve future m' (stored m' io')) received
              ∙ unfold receive_frames in refl,
          come,
        ),
      )
  frames_more (frame ∷ frames) last number future before m response s io expects
        (m', s', io', takes, rest) =
      let (handed, received, expects') =
        step_more frame number future before m m' s s' io io' expects takes in
      let (s1, io1, m1, first, awaits, (s2, io2, all, come)) =
        frames_more frames last number future before m' response s' (stored m' io') expects' rest in
      (
        s1,
        io1,
        m1,
        receive_cons frame frames handed s s' io (stored m' io') received ∙ first,
        awaits,
        (
          s2,
          io2,
          receive_cons frame (frames ++ last ∷ []) handed s s' io (stored m' io') received ∙ all,
          come,
        ),
      )

  refused_after :
      (later : List ℕ) (number : ℕ) (future : Option ℕ) (more : Bool)
      (before : List (ℕ × MessageIn)) (m : MessageIn) (s : S) (io : BlipIo)
      → HasCome number future before m io
      → IsReply number more later
      → receive codec fuel later s io ≡ err invalid_frame
  unfolding HasCome
  refused_after later number future more before m s io
        (complete, numbered, delivered, absent, receiving) further =
      receive_refused later number more s io further receiving absent

  -- The response to a request that wants one. After the last frame of the request, where no other
  -- message waits and no response with its number is expected, and while receiving is open, let the
  -- response come in any number of frames, each of which receivedFrame takes, and let each
  -- acknowledgement that is due be sent. Then `receive` takes them all. The frames before the last
  -- leave the response expected and resolve no Future. With the last the message that receivedFrame
  -- has put together is complete and goes to the Future of the request, if there is one, and to no
  -- other; the response is not expected any more, and a further frame of it is refused.
  pub response_once :
      (m : MessageOut) (sent : ℕ) (frames : List (List ℕ)) (last later : List ℕ) (more : Bool)
      (response : MessageIn) (s : S) (io : BlipIo)
      → is_ack m ≡ false
      → has_flag more_coming_flag sent ≡ false
      → type_of m.flags ≡ request_type
      → no_reply m ≡ false
      → is_empty io.way_out_box.queue ≡ true
      → lookup m.number io.pending_responses ≡ none
      → io.receive_open ≡ true
      → AreTaken m.number
          (new_message_in response_type m.number m.on_response)
          frames
          last
          response
          s
          (expect_response m io)
      → IsReply m.number more later
      → (after_frame sent m io ≡ ok (expect_response m io))
        × ((s' : S) × (io' : BlipIo) × (m' : MessageIn) × (receive_frames frames s
                (expect_response m io)
              ≡ ok (s', io'))
            × Expects m.number m.on_response io.delivered m' io')
        × ((s' : S) × (io' : BlipIo) × (receive_frames
                (frames ++ last ∷ [])
                s
                (expect_response m io)
              ≡ ok (s', io'))
            × HasCome m.number m.on_response io.delivered response io'
            × (receive codec fuel later s' io' ≡ err invalid_frame))
  response_once m sent frames last later more response s io ack no_more asks reply quiet absent
        receiving takes further =
      let entry = new_message_in response_type m.number m.on_response in
      let (s1, io1, m1, first, expects, (s2, io2, all, come)) =
        frames_more frames last m.number m.on_response io.delivered entry response s
          (expect_response m io) (expect_response-Expects m io asks reply absent receiving) takes in
      (
        request_sent m sent io ack no_more quiet,
        (s1, io1, m1, first, expects),
        (
          s2,
          io2,
          all,
          come,
          refused_after later m.number m.on_response more io.delivered response s2 io2 come further,
        ),
      )
