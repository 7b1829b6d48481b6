-- ===== src/WebSocket/Examples.antt =====
-- A socket whose fragments are given in place of its framing: at each read, the next of them.
use crouton.Common.{ℕ, true, false, List, [], ◌∷◌, ◌++◌, map, ◌≡◌, refl}
use crouton.Common.Result.{ok, err, http_status}
use crouton.Url.{Url}
use crouton.Strings.{equal_ignoring_case}
use crouton.Http.Handler.{Response, new_response, response_headers}
use crouton.WebSocket.{
  Fragment, Consumed, Protocol, WebSocket, new_web_socket, ping_type, receive, handle_fragments,
  close_message, abnormal, closed_text, send,
}
use crouton.WebSocket.Pieces.{Cut, frame_end, read_end, whole, fragments_of}
use crouton.WebSocket.Delivered.{yielded}
use crouton.WebSocket.Received.{fed, IsFine, receive-fragments_of}
use crouton.WebSocket.Closing.{
  connected, then_step, sends, SendsOneClose, Reach-SendsOneClose, ping_between,
}
use crouton.Http.{get, set}
use crouton.Http.Client.{request_fields, get_method}
use crouton.WebSocket.Connect.{
  server_connect, client_connect, generate_accept_response, client_headers, set_headers,
  client_request, is_request_valid, bad_request,
}
use crouton.WebSocket.Refused.{request_of, connect_refused}

abbrev play : List (List Fragment) → Consumed (List (List Fragment))
play [] = record { fragments = []; failed = false; state = [] }
play (fragments ∷ later) = record { fragments = fragments; failed = false; state = later }

abbrev script : Protocol (List (List Fragment))
script = record {
  consume = λ bytes l. play l;
  format_message = λ type content. type ∷ content;
  format_close_payload = λ code reason. reason;
}

abbrev socket : List (List Fragment) → WebSocket (List (List Fragment))
socket l = record (new_web_socket l) { has_stream = true }

-- A text in three parts, a Ping, and bytes.
abbrev cuts : List Cut
cuts =
    record { type = 1; parts = frame_end (1 ∷ []) ∷ (read_end (2 ∷ []) 0 true ∷ []); last = 3 ∷ [] }
    ∷ (record { type = 9; parts = []; last = [] }
        ∷ (record { type = 2; parts = []; last = 4 ∷ [] } ∷ []))

abbrev reads : List (List Fragment)
reads =
    (record { bytes = 1 ∷ []; remaining_bytes = 0; op_code = 1; fin = false }
      ∷ (record { bytes = 2 ∷ []; remaining_bytes = 1; op_code = 1; fin = true } ∷ []))
    ∷ ((record { bytes = 3 ∷ []; remaining_bytes = 0; op_code = 1; fin = true }
          ∷ (record { bytes = []; remaining_bytes = 0; op_code = 9; fin = true }
              ∷ (record { bytes = 4 ∷ []; remaining_bytes = 0; op_code = 2; fin = true } ∷ [])))
        ∷ [])

receive-fragments_of_example :
    (receive script ((7 ∷ []) ∷ ((7 ∷ []) ∷ [])) (socket reads)).0
    ≡ yielded (map whole cuts) (close_message script abnormal closed_text)
unfolding new_web_socket fed IsFine fragments_of
receive-fragments_of_example =
    receive-fragments_of script ((7 ∷ []) ∷ ((7 ∷ []) ∷ [])) cuts (socket reads) refl refl refl refl
      (refl, refl, (refl, refl, tt)) refl

both_messages :
    (receive script ((7 ∷ []) ∷ ((7 ∷ []) ∷ [])) (socket reads)).0
    ≡ record { content = 1 ∷ 2 ∷ 3 ∷ []; type = 1 }
      ∷ (record { content = 4 ∷ []; type = 2 } ∷ (close_message script abnormal closed_text ∷ []))
unfolding receive new_web_socket
both_messages = refl

-- A text and then a Close are sent; a text after those is not.
abbrev start : WebSocket (List (List Fragment))
start = socket []

abbrev after_text : WebSocket (List (List Fragment))
after_text = (send script (1 ∷ []) 1 start).1

abbrev after_close : WebSocket (List (List Fragment))
after_close = (send script [] 8 after_text).1

abbrev after_all : WebSocket (List (List Fragment))
after_all = (send script (2 ∷ []) 1 after_close).1

Reach-SendsOneClose_example : SendsOneClose script after_all
Reach-SendsOneClose_example = Reach-SendsOneClose script after_all (
    then_step (then_step (then_step (connected []) (sends (1 ∷ []) 1)) (sends [] 8))
      (sends (2 ∷ []) 1))

ping_between_example :
    (handle_fragments
      (record { bytes = 1 ∷ []; remaining_bytes = 0; op_code = 1; fin = false }
        ∷ (record { bytes = 5 ∷ []; remaining_bytes = 0; op_code = ping_type; fin = true }
            ∷ (record { bytes = 2 ∷ []; remaining_bytes = 0; op_code = 1; fin = true } ∷ [])))
      start).incoming
    ≡ record { content = 1 ∷ 5 ∷ []; type = 1 } ∷ (record { content = 2 ∷ []; type = 1 } ∷ [])
unfolding new_web_socket
ping_between_example = ping_between (1 ∷ []) (5 ∷ []) (2 ∷ []) 1 start refl

abbrev key : List ℕ
key =
    1 ∷ 2 ∷ 3 ∷ 4 ∷ 5 ∷ 6 ∷ 7 ∷ 8 ∷ 9 ∷ 10 ∷ 11 ∷ 12 ∷ 13 ∷ 14 ∷ 15 ∷ 16 ∷ 17 ∷ 18 ∷ 19 ∷ 20 ∷ 21
    ∷ 22 ∷ 23 ∷ 24 ∷ []

abbrev uri : Url
uri = record {
  str = 47 ∷ [];
  parts = record { scheme = []; hostname = []; port = 0; path = 47 ∷ []; query = [] };
}

abbrev first_byte : List ℕ → List ℕ
first_byte [] = []
first_byte (x ∷ xs) = x ∷ []

abbrev twice : List ℕ → List ℕ
twice str = str ++ str

abbrev name_of : ℕ → List ℕ
name_of status = 79 ∷ 75 ∷ []

abbrev numeral : ℕ → List ℕ
numeral n = n ∷ []

-- "X: 1" is added to the request, which goes to the host "h".
connect_refused_example :
    (fields : List (List ℕ × List ℕ)) × (r' : Response) × (request_fields numeral
        (104 ∷ [])
        (client_request (set_headers ((88 ∷ [], 49 ∷ []) ∷ []) (client_headers key)))
      ≡ ok fields)
    × (server_connect first_byte twice name_of numeral
          (request_of
            (client_request (set_headers ((88 ∷ [], 49 ∷ []) ∷ []) (client_headers key)))
            fields
            uri)
          []
          (new_response name_of numeral response_headers (record { written = []; closed = false }))
          start
        ≡ ok (false, (r', start)))
    × (r'.status ≡ bad_request)
    × (client_connect (generate_accept_response first_byte twice key) r'.status r'.headers start
        ≡ err http_status)
unfolding new_response
connect_refused_example =
    connect_refused first_byte twice name_of numeral key
      (generate_accept_response first_byte twice key) (104 ∷ []) [] ((88 ∷ [], 49 ∷ []) ∷ []) uri
      (new_response name_of numeral response_headers (record { written = []; closed = false }))
      start start refl

-- The same request without the fields of a connection is valid.
accepted_alone :
    is_request_valid
      (record { method = get_method; uri = uri; headers = client_headers key; body = [] })
    ≡ true
unfolding is_request_valid client_headers get set equal_ignoring_case
accepted_alone = refl
