-- ===== src/WebSocket.antt =====
-- The class WebSocket of io/WebSocket.cc. The framing, a copy of uWebSockets, is a parameter: it
-- makes the bytes of a frame, and finds in what it is given the fragments of messages. The caller of
-- `receive` takes one message after the other and does nothing else with the socket meanwhile.
pub mod Pieces
pub mod Delivered
pub mod Received
pub mod Closing
pub mod Connect
pub mod Handshake
pub mod Refused
mod Examples
use crouton.Common.{
  ℕ, ◌+◌, ◌==◌, leb, if◌then◌else◌, Bool, true, false, not, ◌&&◌, ◌||◌, Option, none, some, List,
  [], ◌∷◌, ◌++◌, length, is_empty,
}
use crouton.Common.Result.{Error, Result, ok, err, logic_error, protocol_error, out_of_bounds}

pub record Message : Type 0 where
  pub content : List ℕ
  pub type : ℕ

-- Message::Type
abbrev pub text_type : ℕ
text_type = 1

abbrev pub binary_type : ℕ
binary_type = 2

abbrev pub close_type : ℕ
close_type = 8

abbrev pub ping_type : ℕ
ping_type = 9

abbrev pub pong_type : ℕ
pong_type = 10

-- What `handleFragment` is called with.
pub record Fragment : Type 0 where
  pub bytes : List ℕ
  pub remaining_bytes : ℕ
  pub op_code : ℕ
  pub fin : Bool

pub record Consumed (P : Type 0) : Type 0 where
  pub fragments : List Fragment
  -- `forceClose` was called after them
  pub failed : Bool
  pub state : P

pub record Protocol (P : Type 0) : Type 0 where
  pub consume : List ℕ → P → Consumed P
  pub format_message : ℕ → List ℕ → List ℕ
  pub format_close_payload : ℕ → List ℕ → List ℕ

pub record WebSocket (P : Type 0) : Type 0 where
  pub parser : P
  -- `_stream` is not null
  pub has_stream : Bool
  pub incoming : List Message
  pub cur_message : Option Message
  pub close_sent : Bool
  pub close_received : Bool
  -- what has been written to the stream, and whether it has been closed
  pub written : List (List ℕ)
  pub stream_closed : Bool

-- The message that the fragment belongs to, with its bytes.
unfoldable pub with_fragment : Fragment → Option Message → Message
with_fragment f none = record { content = f.bytes; type = f.op_code }
with_fragment f (some m) = record m { content = m.content ++ f.bytes }

abbrev pub abnormal : ℕ
abnormal = 1006

-- "WebSocket closed unexpectedly"
abbrev pub closed_text : List ℕ
closed_text =
    87 ∷ 101 ∷ 98 ∷ 83 ∷ 111 ∷ 99 ∷ 107 ∷ 101 ∷ 116 ∷ 32 ∷ 99 ∷ 108 ∷ 111 ∷ 115 ∷ 101 ∷ 100 ∷ 32
    ∷ 117 ∷ 110 ∷ 101 ∷ 120 ∷ 112 ∷ 101 ∷ 99 ∷ 116 ∷ 101 ∷ 100 ∷ 108 ∷ 121 ∷ []

module _ {P : Type 0} where
  unfoldable pub new_web_socket : P → WebSocket P
  new_web_socket parser = record {
    parser = parser;
    has_stream = false;
    incoming = [];
    cur_message = none;
    close_sent = false;
    close_received = false;
    written = [];
    stream_closed = false;
  }

  unfoldable pub ready_to_close : WebSocket P → Bool
  ready_to_close ws = ws.close_sent && ws.close_received

  unfoldable pub close : WebSocket P → WebSocket P
  close ws = if ws.has_stream then record ws { has_stream = false; stream_closed = true } else ws

  unfoldable pub disconnect : WebSocket P → WebSocket P
  disconnect ws = record ws { has_stream = false }

  unfoldable pub handle_fragment : Fragment → WebSocket P → WebSocket P
  unfolding with_fragment
  handle_fragment f ws =
      let m = with_fragment f ws.cur_message in
      if f.fin && f.remaining_bytes == 0
      then record ws { incoming = ws.incoming ++ m ∷ []; cur_message = none }
      else record ws { cur_message = some m }

  unfoldable pub handle_fragments : List Fragment → WebSocket P → WebSocket P
  unfolding handle_fragment
  handle_fragments [] ws = ws
  handle_fragments (f ∷ fs) ws = handle_fragments fs (handle_fragment f ws)

  module _ (protocol : Protocol P) where
    -- The buffer for the frame has room for ten bytes more than the message.
    unfoldable pub send : List ℕ → ℕ → WebSocket P → Result (Unit {0}) × WebSocket P
    send content type ws =
        let frame = protocol.format_message type content in
        let sent = record ws {
          close_sent = ws.close_sent || type == close_type;
          written = ws.written ++ frame ∷ [];
        } in
        if ws.close_sent || not ws.has_stream
        then (err logic_error, ws)
        else if leb (length frame) (length content + 10)
        then (ok tt, sent)
        else (err out_of_bounds, ws)

    unfoldable pub close_message : ℕ → List ℕ → Message
    close_message code reason = record {
      content = protocol.format_close_payload code reason;
      type = close_type;
    }

    unfoldable pub handle_close_message : Message → WebSocket P → Result (Unit {0}) × WebSocket P
    unfolding send close
    handle_close_message m ws =
        let received = record ws { close_received = true } in
        if ws.close_received
        then (ok tt, ws)
        else if ws.close_sent
        then (ok tt, close received)
        else send m.content m.type received

    -- The switch in `receive`: whether the message is handed on.
    unfoldable pub dispatch : Message → WebSocket P → Bool × WebSocket P
    unfolding send
    dispatch m ws =
        if m.type == close_type
        then (true, record ws { close_received = true })
        else if m.type == text_type || m.type == binary_type
        then (true, ws)
        else if m.type == ping_type
        then (false, (send [] pong_type ws).1)
        else (false, ws)

    -- The messages in `_incoming`.
    unfoldable pub deliver : List Message → WebSocket P → List Message × WebSocket P
    unfolding dispatch
    deliver [] ws = ([], ws)
    deliver (m ∷ ms) ws =
        let (handed_on, ws1) = dispatch m (record ws { incoming = ms }) in
        let (later, ws2) = deliver ms ws1 in
        if ws.has_stream && not ws.close_received
        then (if handed_on then m ∷ later else later, ws2)
        else ([], ws)

    -- The generator, given what its reads return and after that the end of the stream: the messages
    -- that it yields, and the error that it ends with, if any.
    unfoldable pub receive :
        List (List ℕ) → WebSocket P → List Message × (Option Error × WebSocket P)
    unfolding deliver handle_fragments close_message
    receive [] ws =
        let (messages, ws1) = deliver ws.incoming ws in
        if ws1.has_stream && not ws1.close_received
        then (messages ++ close_message abnormal closed_text ∷ [], (none, ws1))
        else (messages, (none, ws1))
    receive (bytes ∷ chunks) ws =
        let (messages, ws1) = deliver ws.incoming ws in
        let run = protocol.consume bytes ws1.parser in
        let ws2 = handle_fragments run.fragments (record ws1 { parser = run.state }) in
        let (later, result) = receive chunks ws2 in
        if ws1.has_stream && not ws1.close_received
        then if is_empty bytes
          then (messages ++ close_message abnormal closed_text ∷ [], (none, ws1))
          else if run.failed
          then (messages, (some protocol_error, ws2))
          else (messages ++ later, result)
        else (messages, (none, ws1))
