-- ===== src/WebSocket/Delivered.antt =====
-- What is handed on of the messages that are complete.
use crouton.Common.{
  if_true, if_false, ℕ, ◌+◌, ◌==◌, if◌then◌else◌, Bool, true, false, not, ◌&&◌, ◌||◌, List, [], ◌∷◌,
  ◌++◌, leb, length, Bool-cases, ◌⊎◌, inl, inr, ◌≡◌, refl, ap, ◌∙◌,
}
use crouton.WebSocket.{
  Message, Protocol, WebSocket, close_type, text_type, binary_type, ping_type, pong_type, send,
  dispatch, deliver,
}
use crouton.WebSocket.Pieces.{}

-- What is handed on of messages that come: those of a text or of bytes, up to a Close, and where no
-- Close comes, at the end the last argument.
unfoldable pub yielded : List Message → Message → List Message
yielded [] end = end ∷ []
yielded (m ∷ ms) end =
    let rest = yielded ms end in
    if m.type == close_type
    then m ∷ []
    else if m.type == text_type || m.type == binary_type
    then m ∷ rest
    else rest

pub no_more : (a b : Bool) → b ≡ true → (a && not b) ≡ false
no_more true true closed = refl
no_more false true closed = refl
no_more a false closed = cc

pub goes_further : (a b : Bool) → a ≡ true → b ≡ false → (a && not b) ≡ true
goes_further true false stream going = refl
goes_further true true stream going = cc
goes_further false b stream going = cc

module _ {P : Type 0} (protocol : Protocol P) where
  -- The fields that matter here are the same.
  Alike : WebSocket P → WebSocket P → Type 0
  Alike ws' ws =
      (ws'.has_stream ≡ ws.has_stream)
      × (ws'.close_received ≡ ws.close_received)
      × (ws'.cur_message ≡ ws.cur_message)
      × (ws'.parser ≡ ws.parser)
      × (ws'.incoming ≡ ws.incoming)

  send-Alike :
      (content : List ℕ) (type : ℕ) (ws : WebSocket P) → Alike (send protocol content type ws).1 ws
  unfolding send Alike
  send-Alike content type ws = elim (Bool-cases (ws.close_sent || not ws.has_stream)) [
    | inl closing ↦ rw closing (refl, refl, refl, refl, refl)
    | inr going ↦
        rw going
          (elim (Bool-cases
            (leb (length (protocol.format_message type content)) (length content + 10))) [
              | inl fits ↦ rw fits (refl, refl, refl, refl, refl)
              | inr long ↦ rw long (refl, refl, refl, refl, refl)
            ])
  ]

  -- A message that is not a Close: it is handed on if it is data, and the rest stays.
  dispatch-Alike :
      (m : Message) (ws : WebSocket P)
      → (m.type == close_type) ≡ false
      → ((dispatch protocol m ws).0 ≡ (m.type == text_type || m.type == binary_type))
        × Alike (dispatch protocol m ws).1 ws
  unfolding dispatch Alike
  dispatch-Alike m ws going =
      rw going (elim (Bool-cases (m.type == text_type || m.type == binary_type)) [
        | inl data_message ↦ rw data_message (refl, (refl, refl, refl, refl, refl))
        | inr control ↦ rw control (elim (Bool-cases (m.type == ping_type)) [
          | inl ping ↦ rw ping (refl, send-Alike [] pong_type ws)
          | inr other ↦ rw other (refl, (refl, refl, refl, refl, refl))
        ])
      ])

  dispatch_close :
      (m : Message) (ws : WebSocket P)
      → (m.type == close_type) ≡ true
      → dispatch protocol m ws ≡ (true, record ws { close_received = true })
  unfolding dispatch
  dispatch_close m ws closes = rw closes refl

  deliver_closed :
      (ms : List Message) (ws : WebSocket P)
      → ws.close_received ≡ true
      → deliver protocol ms ws ≡ ([], ws)
  unfolding deliver
  deliver_closed [] ws closed = refl
  deliver_closed (m ∷ ms) ws closed =
      if_false _ _ (ws.has_stream && not ws.close_received)
        (no_more ws.has_stream ws.close_received closed)

  deliver_more :
      (m : Message) (ms : List Message) (ws : WebSocket P)
      → ws.has_stream ≡ true
      → ws.close_received ≡ false
      → deliver protocol (m ∷ ms) ws ≡ (
          let (handed_on, ws1) = dispatch protocol m (record ws { incoming = ms }) in
          let (later, ws2) = deliver protocol ms ws1 in
          (if handed_on then m ∷ later else later, ws2))
  unfolding deliver
  deliver_more m ms ws stream going =
      if_true _ _ (ws.has_stream && not ws.close_received)
        (goes_further ws.has_stream ws.close_received stream going)

  -- What `deliver` has done: it has come to the end of the messages, or to a Close.
  unfoldable pub AtEnd : List Message → WebSocket P → List Message × WebSocket P → Type 0
  AtEnd ms ws r =
      (r.1.has_stream ≡ true)
      × (r.1.close_received ≡ false)
      × (r.1.cur_message ≡ ws.cur_message)
      × (r.1.parser ≡ ws.parser)
      × (r.1.incoming ≡ [])
      × ((ns : List Message) (end : Message) → yielded (ms ++ ns) end ≡ r.0 ++ yielded ns end)

  unfoldable pub AtClose : List Message → List Message × WebSocket P → Type 0
  AtClose ms r =
      (r.1.close_received ≡ true)
      × ((ns : List Message) (end : Message) → yielded (ms ++ ns) end ≡ r.0)

  delivered_close :
      (m : Message) (ms : List Message) (ws : WebSocket P)
      → (m.type == close_type) ≡ true
      → ws.has_stream ≡ true
      → ws.close_received ≡ false
      → AtClose (m ∷ ms) (deliver protocol (m ∷ ms) ws)
  unfolding AtClose yielded
  delivered_close m ms ws closes stream going =
      rw (deliver_more m ms ws stream going, dispatch_close m (record ws { incoming = ms }) closes)
        (rw (deliver_closed ms (record ws { incoming = ms; close_received = true }) refl)
          (refl, λ ns end. rw closes refl))

  deliver_none :
      (ws : WebSocket P)
      → ws.has_stream ≡ true
      → ws.close_received ≡ false
      → ws.incoming ≡ []
      → AtEnd [] ws (deliver protocol [] ws)
  unfolding AtEnd deliver
  deliver_none ws stream going there = (stream, going, refl, refl, there, λ ns end. refl)

  -- One message more at the front, which is handed on or not.
  kept : Message → List Message × WebSocket P → List Message × WebSocket P
  kept m (later, ws) =
      (if m.type == text_type || m.type == binary_type then m ∷ later else later, ws)

  yielded_more :
      (m : Message) (ms : List Message) (end : Message)
      → (m.type == close_type) ≡ false
      → yielded (m ∷ ms) end ≡ (
          if m.type == text_type || m.type == binary_type
          then m ∷ yielded ms end
          else yielded ms end)
  unfolding yielded
  yielded_more m ms end goes_on = rw goes_on refl

  either_append :
      (b : Bool) (m : Message) (xs ys : List Message)
      → (if b then m ∷ (xs ++ ys) else xs ++ ys) ≡ (if b then m ∷ xs else xs) ++ ys
  either_append true m xs ys = refl
  either_append false m xs ys = refl

  deliver-kept :
      (m : Message) (ms : List Message) (ws : WebSocket P)
      → (m.type == close_type) ≡ false
      → ws.has_stream ≡ true
      → ws.close_received ≡ false
      → deliver protocol (m ∷ ms) ws
        ≡ kept m (deliver protocol ms (dispatch protocol m (record ws { incoming = ms })).1)
  unfolding kept
  deliver-kept m ms ws goes_on stream going =
      deliver_more m ms ws stream going
      ∙ rw ((dispatch-Alike m (record ws { incoming = ms }) goes_on).0) refl

  kept-AtEnd :
      (m : Message) (ms : List Message) (ws ws1 : WebSocket P) (r : List Message × WebSocket P)
      → (m.type == close_type) ≡ false
      → Alike ws1 (record ws { incoming = ms })
      → AtEnd ms ws1 r
      → AtEnd (m ∷ ms) ws (kept m r)
  unfolding kept AtEnd Alike
  kept-AtEnd m ms ws ws1 (later, ws2) goes_on (stream, received, cur, parser, queue)
        (s, c, cur', parser', empty, yields) =
      (
        s,
        c,
        cur' ∙ cur,
        parser' ∙ parser,
        empty,
        λ ns end.
            yielded_more m (ms ++ ns) end goes_on
            ∙ ap (λ ys. if m.type == text_type || m.type == binary_type then m ∷ ys else ys)
                (yields ns end)
            ∙ either_append (m.type == text_type || m.type == binary_type) m later (yielded ns end),
      )

  kept-AtClose :
      (m : Message) (ms : List Message) (r : List Message × WebSocket P)
      → (m.type == close_type) ≡ false
      → AtClose ms r
      → AtClose (m ∷ ms) (kept m r)
  unfolding kept AtClose
  kept-AtClose m ms (later, ws2) goes_on (closed, yields) = (
    closed,
    λ ns end.
        yielded_more m (ms ++ ns) end goes_on
        ∙ ap (λ ys. if m.type == text_type || m.type == binary_type then m ∷ ys else ys)
            (yields ns end),
  )

  pub deliver-cases :
      (ms : List Message) (ws : WebSocket P)
      → ws.has_stream ≡ true
      → ws.close_received ≡ false
      → ws.incoming ≡ ms
      → AtEnd ms ws (deliver protocol ms ws) ⊎ AtClose ms (deliver protocol ms ws)
  deliver-cases [] ws stream going there = inl (deliver_none ws stream going there)
  deliver-cases (m ∷ ms) ws stream going there = elim (Bool-cases (m.type == close_type)) [
    | inl closes ↦ inr (delivered_close m ms ws closes stream going)
    | inr goes_on ↦
        let d = dispatch protocol m (record ws { incoming = ms }) in
        let alike = (dispatch-Alike m (record ws { incoming = ms }) goes_on).1 in
        rw (deliver-kept m ms ws goes_on stream going)
          (elim (deliver-cases ms d.1 (unfold Alike in (alike.0 ∙ stream))
            (unfold Alike in (alike.1 ∙ going)) (unfold Alike in alike.4)) [
              | inl ended ↦
                  inl (kept-AtEnd m ms ws d.1 (deliver protocol ms d.1) goes_on alike ended)
              | inr closed ↦ inr (kept-AtClose m ms (deliver protocol ms d.1) goes_on closed)
            ])
  ]
