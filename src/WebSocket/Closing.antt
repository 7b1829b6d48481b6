-- ===== src/WebSocket/Closing.antt =====
-- What is sent before and after a Close, and the fragments of a message that a Ping is among.
use mathlib.Core.Path.{subst}
use crouton.Common.{
  ℕ, ◌+◌, ◌==◌, ==_iff, leb, if◌then◌else◌, Bool, true, false, not, ◌&&◌, ◌||◌, none, some, List,
  [], ◌∷◌, ◌++◌, All, append_assoc, Bool-cases, inl, inr, length, ◌≡◌, refl, sym, ap, ◌∙◌, map,
}
use crouton.Common.Result.{Result}
use crouton.WebSocket.{
  Message, Fragment, Protocol, WebSocket, close_type, text_type, binary_type, ping_type, pong_type,
  send, close, disconnect, dispatch, deliver, handle_fragment, handle_fragments, with_fragment,
  handle_close_message, new_web_socket,
}

abbrev IsNoClose : Message → Type 0
IsNoClose m = (m.type == close_type) ≡ false

-- Messages of which at most the last is a Close.
unfoldable pub ClosesOnce : Bool → List Message → Type 0
ClosesOnce false ms = All IsNoClose ms
ClosesOnce true ms =
    (before : List Message) × (m : Message) × (ms ≡ before ++ m ∷ [])
    × (m.type ≡ close_type)
    × All IsNoClose before

All-append :
    (ms : List Message) (m : Message)
    → All IsNoClose ms
    → IsNoClose m
    → All IsNoClose (ms ++ m ∷ [])
All-append [] m none_closes h = (h, tt)
All-append (x ∷ ms) m (first, rest) h = (first, All-append ms m rest h)

map-append :
    {A B : Type 0} (f : A → B) (xs : List A) (x : A) → map f (xs ++ x ∷ []) ≡ map f xs ++ f x ∷ []
map-append f [] x = refl
map-append f (y ∷ xs) x = ap (λ ys. f y ∷ ys) (map-append f xs x)

closes_next :
    (type : ℕ) (content : List ℕ) (ms : List Message)
    → ClosesOnce false ms
    → ClosesOnce (type == close_type) (ms ++ record { content = content; type = type } ∷ [])
unfolding ClosesOnce
closes_next type content ms none_closes = elim (Bool-cases (type == close_type)) [
  | inl closes ↦ rw closes (
    ms,
    record { content = content; type = type },
    refl,
    (==_iff type close_type).0 closes,
    none_closes,
  )
  | inr other ↦
      rw other (All-append ms (record { content = content; type = type }) none_closes other)
]

or_false : (a b : Bool) → (a || b) ≡ false → a ≡ false
or_false true b e = e
or_false false b e = refl

either_holds :
    {A : Type 0} (Q : A → Type 0) (b : Bool) {x y : A} → Q x → Q y → Q (if b then x else y)
either_holds Q true first second = first
either_holds Q false first second = second

module _ {P : Type 0} (protocol : Protocol P) where
  abbrev frame_of : Message → List ℕ
  frame_of m = protocol.format_message m.type m.content

  -- What has been written are the frames of such messages.
  unfoldable pub SendsOneClose : WebSocket P → Type 0
  SendsOneClose ws =
      (sent : List Message) × (ws.written ≡ map frame_of sent) × ClosesOnce ws.close_sent sent

  -- The calls of a socket's methods, in any order. `receive` reads, hands what it has read to the
  -- framing, which calls handleFragment, and takes the messages that are complete.
  pub data Step : WebSocket P → WebSocket P → Type 0 where
    sends :
        {ws : WebSocket P} (content : List ℕ) (type : ℕ) → Step ws (send protocol content type ws).1
    closes : {ws : WebSocket P} → Step ws (close ws)
    disconnects : {ws : WebSocket P} → Step ws (disconnect ws)
    reads :
        {ws : WebSocket P} (fs : List Fragment) (parser : P)
        → Step ws (handle_fragments fs (record ws { parser = parser }))
    delivers : {ws : WebSocket P} → Step ws (deliver protocol ws.incoming ws).1
    echoes : {ws : WebSocket P} (m : Message) → Step ws (handle_close_message protocol m ws).1

  pub data Reach : WebSocket P → Type 0 where
    connected : (parser : P) → Reach (record (new_web_socket parser) { has_stream = true })
    then_step : {ws ws' : WebSocket P} → Reach ws → Step ws ws' → Reach ws'

  sent_more :
      (content : List ℕ) (type : ℕ) (written : List (List ℕ)) (b : Bool)
      → b ≡ false
      → (sent : List Message) × (written ≡ map frame_of sent) × ClosesOnce b sent
      → (sent : List Message) × (written ++ protocol.format_message type content ∷ []
          ≡ map frame_of sent)
        × ClosesOnce (b || type == close_type) sent
  sent_more content type written true open_still inv = cc
  sent_more content type written false open_still (sent, same, none_closes) = (
    sent ++ record { content = content; type = type } ∷ [],
    ap (λ w. w ++ protocol.format_message type content ∷ []) same
        ∙ sym (map-append frame_of sent (record { content = content; type = type })),
    closes_next type content sent none_closes,
  )

  send-SendsOneClose :
      (content : List ℕ) (type : ℕ) (ws : WebSocket P)
      → SendsOneClose ws
      → SendsOneClose (send protocol content type ws).1
  unfolding send SendsOneClose
  send-SendsOneClose content type ws inv = elim (Bool-cases (ws.close_sent || not ws.has_stream)) [
    | inl closing ↦ rw closing inv
    | inr going ↦
        rw going
          (elim (Bool-cases
            (leb (length (protocol.format_message type content)) (length content + 10))) [
              | inl fits ↦ rw fits (
                  sent_more content type ws.written ws.close_sent
                    (or_false ws.close_sent (not ws.has_stream) going) inv)
              | inr long ↦ rw long inv
            ])
  ]

  -- What else may be in the state does not matter.
  SendsOneClose-same :
      (ws ws' : WebSocket P)
      → ws'.written ≡ ws.written
      → ws'.close_sent ≡ ws.close_sent
      → SendsOneClose ws
      → SendsOneClose ws'
  unfolding SendsOneClose
  SendsOneClose-same ws ws' written sent (ms, same, once) =
      (ms, written ∙ same, subst (λ b. ClosesOnce b ms) (sym sent) once)

  abbrev Leaves : (X : Type 0) → X × WebSocket P → Type 0
  Leaves X r = SendsOneClose r.1

  dispatch-SendsOneClose :
      (m : Message) (ws : WebSocket P) → SendsOneClose ws → SendsOneClose (dispatch protocol m ws).1
  unfolding dispatch
  dispatch-SendsOneClose m ws inv =
      either_holds (Leaves Bool) (m.type == close_type)
        (SendsOneClose-same ws (record ws { close_received = true }) refl refl inv)
        (either_holds (Leaves Bool) (m.type == text_type || m.type == binary_type) inv (
          either_holds (Leaves Bool) (m.type == ping_type) (send-SendsOneClose [] pong_type ws inv)
            inv))

  deliver-SendsOneClose :
      (ms : List Message) (ws : WebSocket P)
      → SendsOneClose ws
      → SendsOneClose (deliver protocol ms ws).1
  unfolding deliver
  deliver-SendsOneClose [] ws inv = inv
  deliver-SendsOneClose (m ∷ ms) ws inv =
      either_holds (Leaves (List Message)) (ws.has_stream && not ws.close_received)
        (deliver-SendsOneClose ms (dispatch protocol m (record ws { incoming = ms })).1 (
          dispatch-SendsOneClose m (record ws { incoming = ms })
            (SendsOneClose-same ws (record ws { incoming = ms }) refl refl inv)))
        inv

  handle_fragment-SendsOneClose :
      (f : Fragment) (ws : WebSocket P) → SendsOneClose ws → SendsOneClose (handle_fragment f ws)
  unfolding handle_fragment
  handle_fragment-SendsOneClose f ws inv =
      either_holds SendsOneClose (f.fin && f.remaining_bytes == 0)
        (SendsOneClose-same ws
          (record ws {
            incoming = ws.incoming ++ with_fragment f ws.cur_message ∷ [];
            cur_message = none;
          })
          refl refl inv)
        (SendsOneClose-same ws (record ws { cur_message = some (with_fragment f ws.cur_message) })
          refl refl inv)

  handle_fragments-SendsOneClose :
      (fs : List Fragment) (ws : WebSocket P)
      → SendsOneClose ws
      → SendsOneClose (handle_fragments fs ws)
  unfolding handle_fragments
  handle_fragments-SendsOneClose [] ws inv = inv
  handle_fragments-SendsOneClose (f ∷ fs) ws inv =
      handle_fragments-SendsOneClose fs (handle_fragment f ws)
        (handle_fragment-SendsOneClose f ws inv)

  close-SendsOneClose : (ws : WebSocket P) → SendsOneClose ws → SendsOneClose (close ws)
  unfolding close
  close-SendsOneClose ws inv =
      either_holds SendsOneClose ws.has_stream
        (SendsOneClose-same ws (record ws { has_stream = false; stream_closed = true }) refl refl
          inv)
        inv

  handle_close_message-SendsOneClose :
      (m : Message) (ws : WebSocket P)
      → SendsOneClose ws
      → SendsOneClose (handle_close_message protocol m ws).1
  unfolding handle_close_message
  handle_close_message-SendsOneClose m ws inv =
      let received = SendsOneClose-same ws (record ws { close_received = true }) refl refl inv in
      either_holds (Leaves (Result (Unit {0}))) ws.close_received inv (
        either_holds (Leaves (Result (Unit {0}))) ws.close_sent
          (close-SendsOneClose (record ws { close_received = true }) received)
          (send-SendsOneClose m.content m.type (record ws { close_received = true }) received))

  Step-SendsOneClose : {ws ws' : WebSocket P} → Step ws ws' → SendsOneClose ws → SendsOneClose ws'
  Step-SendsOneClose (sends {ws} content type) inv = send-SendsOneClose content type ws inv
  Step-SendsOneClose (closes {ws}) inv = close-SendsOneClose ws inv
  Step-SendsOneClose (disconnects {ws}) inv =
      unfold disconnect in SendsOneClose-same ws (record ws { has_stream = false }) refl refl inv
  Step-SendsOneClose (reads {ws} fs parser) inv =
      handle_fragments-SendsOneClose fs (record ws { parser = parser })
        (SendsOneClose-same ws (record ws { parser = parser }) refl refl inv)
  Step-SendsOneClose (delivers {ws}) inv = deliver-SendsOneClose ws.incoming ws inv
  Step-SendsOneClose (echoes {ws} m) inv = handle_close_message-SendsOneClose m ws inv

  -- After any calls of the methods of a connected socket, in any order, what has been written are the
  -- frames of messages that were sent, among which at most one is a Close, which is then the last;
  -- there is one just when a Close has been noted as sent.
  pub Reach-SendsOneClose : (ws : WebSocket P) → Reach ws → SendsOneClose ws
  unfolding SendsOneClose new_web_socket ClosesOnce
  Reach-SendsOneClose ws (connected parser) = ([], refl, tt)
  Reach-SendsOneClose ws (then_step {ws = earlier} reach step) =
      Step-SendsOneClose step (Reach-SendsOneClose earlier reach)

-- Where no message is being put together, a message comes in two fragments, and a Ping, as the
-- protocol allows, between them. Then the bytes of the Ping are appended to those of the first
-- fragment, which together come in as a message that ends there, the second fragment comes in as a
-- message of its own, and the Ping does not come in.
pub ping_between :
    {P : Type 0} (first ping second : List ℕ) (type : ℕ) (ws : WebSocket P)
    → ws.cur_message ≡ none
    → (handle_fragments
        (record { bytes = first; remaining_bytes = 0; op_code = type; fin = false }
          ∷ (record { bytes = ping; remaining_bytes = 0; op_code = ping_type; fin = true }
              ∷ (record { bytes = second; remaining_bytes = 0; op_code = type; fin = true } ∷ [])))
        ws).incoming
      ≡ ws.incoming
        ++ record { content = first ++ ping; type = type }
          ∷ (record { content = second; type = type } ∷ [])
unfolding handle_fragments handle_fragment with_fragment
ping_between first ping second type ws no_message = rw no_message (
    append_assoc ws.incoming (record { content = first ++ ping; type = type } ∷ [])
      (record { content = second; type = type } ∷ []))
