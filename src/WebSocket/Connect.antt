-- ===== src/WebSocket/Connect.antt =====
-- The handshake of io/WebSocket.cc: ClientWebSocket and ServerWebSocket over HTTP. The digest and its
-- text come from mbedTLS and are parameters. The response that the client's HTTP connection gets is an
-- argument.
use crouton.Common.{
  ℕ, ◌==◌, if◌then◌else◌, Bool, true, false, not, ◌&&◌, List, [], ◌∷◌, ◌++◌, length, is_empty,
}
use crouton.Common.Result.{Result, ok, err, ◌>>=◌, http_status, protocol_error}
use crouton.Strings.{equal_ignoring_case, same_string}
use crouton.Http.{Headers, get, set}
use crouton.Http.Client.{ClientRequest, get_method}
use crouton.Http.Handler.{
  Request, Response, Action, set_status, set_status_message, write_header, raw_stream, act_all,
}
use crouton.WebSocket.{WebSocket}

-- "Connection"
abbrev pub connection_name : List ℕ
connection_name = 67 ∷ 111 ∷ 110 ∷ 110 ∷ 101 ∷ 99 ∷ 116 ∷ 105 ∷ 111 ∷ 110 ∷ []

-- "Upgrade"
abbrev pub upgrade_name : List ℕ
upgrade_name = 85 ∷ 112 ∷ 103 ∷ 114 ∷ 97 ∷ 100 ∷ 101 ∷ []

-- "Sec-WebSocket-Version"
abbrev pub version_name : List ℕ
version_name =
    83 ∷ 101 ∷ 99 ∷ 45 ∷ 87 ∷ 101 ∷ 98 ∷ 83 ∷ 111 ∷ 99 ∷ 107 ∷ 101 ∷ 116 ∷ 45 ∷ 86 ∷ 101 ∷ 114 ∷ 115
    ∷ 105 ∷ 111 ∷ 110 ∷ []

-- "Sec-WebSocket-Key"
abbrev pub key_name : List ℕ
key_name =
    83 ∷ 101 ∷ 99 ∷ 45 ∷ 87 ∷ 101 ∷ 98 ∷ 83 ∷ 111 ∷ 99 ∷ 107 ∷ 101 ∷ 116 ∷ 45 ∷ 75 ∷ 101 ∷ 121 ∷ []

-- "Sec-WebSocket-Accept"
abbrev pub accept_name : List ℕ
accept_name =
    83 ∷ 101 ∷ 99 ∷ 45 ∷ 87 ∷ 101 ∷ 98 ∷ 83 ∷ 111 ∷ 99 ∷ 107 ∷ 101 ∷ 116 ∷ 45 ∷ 65 ∷ 99 ∷ 99 ∷ 101
    ∷ 112 ∷ 116 ∷ []

-- "Sec-WebSocket-Protocol"
abbrev pub protocol_name : List ℕ
protocol_name =
    83 ∷ 101 ∷ 99 ∷ 45 ∷ 87 ∷ 101 ∷ 98 ∷ 83 ∷ 111 ∷ 99 ∷ 107 ∷ 101 ∷ 116 ∷ 45 ∷ 80 ∷ 114 ∷ 111 ∷ 116
    ∷ 111 ∷ 99 ∷ 111 ∷ 108 ∷ []

-- "Upgrade"
abbrev pub upgrade_value : List ℕ
upgrade_value = 85 ∷ 112 ∷ 103 ∷ 114 ∷ 97 ∷ 100 ∷ 101 ∷ []

-- "WebSocket"
abbrev pub web_socket_value : List ℕ
web_socket_value = 87 ∷ 101 ∷ 98 ∷ 83 ∷ 111 ∷ 99 ∷ 107 ∷ 101 ∷ 116 ∷ []

-- "13"
abbrev pub version_value : List ℕ
version_value = 49 ∷ 51 ∷ []

-- "upgrade"
abbrev pub upgrade_lower : List ℕ
upgrade_lower = 117 ∷ 112 ∷ 103 ∷ 114 ∷ 97 ∷ 100 ∷ 101 ∷ []

-- "websocket"
abbrev pub web_socket_lower : List ℕ
web_socket_lower = 119 ∷ 101 ∷ 98 ∷ 115 ∷ 111 ∷ 99 ∷ 107 ∷ 101 ∷ 116 ∷ []

-- "Invalid WebSocket handshake"
abbrev pub invalid_handshake : List ℕ
invalid_handshake =
    73 ∷ 110 ∷ 118 ∷ 97 ∷ 108 ∷ 105 ∷ 100 ∷ 32 ∷ 87 ∷ 101 ∷ 98 ∷ 83 ∷ 111 ∷ 99 ∷ 107 ∷ 101 ∷ 116
    ∷ 32 ∷ 104 ∷ 97 ∷ 110 ∷ 100 ∷ 115 ∷ 104 ∷ 97 ∷ 107 ∷ 101 ∷ []

-- "258EAFA5-E914-47DA-95CA-C5AB0DC85B11"
abbrev pub guid : List ℕ
guid =
    50 ∷ 53 ∷ 56 ∷ 69 ∷ 65 ∷ 70 ∷ 65 ∷ 53 ∷ 45 ∷ 69 ∷ 57 ∷ 49 ∷ 52 ∷ 45 ∷ 52 ∷ 55 ∷ 68 ∷ 65 ∷ 45
    ∷ 57 ∷ 53 ∷ 67 ∷ 65 ∷ 45 ∷ 67 ∷ 53 ∷ 65 ∷ 66 ∷ 48 ∷ 68 ∷ 67 ∷ 56 ∷ 53 ∷ 66 ∷ 49 ∷ 49 ∷ []

abbrev pub switching_protocols : ℕ
switching_protocols = 101

abbrev pub bad_request : ℕ
bad_request = 400

-- A string from its `c_str()`.
unfoldable pub until_zero : List ℕ → List ℕ
until_zero [] = []
until_zero (c ∷ str) = let rest = until_zero str in if c == 0 then [] else c ∷ rest

-- The headers that the constructor of ClientWebSocket sets, for the text of its random key.
unfoldable pub client_headers : List ℕ → Headers
client_headers key = set key_name key (
    set version_name version_value
      (set upgrade_name web_socket_value (set connection_name upgrade_value [])))

-- `setHeader`, called for each of them.
unfoldable pub set_headers : List (List ℕ × List ℕ) → Headers → Headers
set_headers [] headers = headers
set_headers ((name, value) ∷ more) headers = set_headers more (set name value headers)

-- The request of a ClientWebSocket.
unfoldable pub client_request : Headers → ClientRequest
client_request headers = record {
  method = get_method;
  headers = headers;
  body = [];
  has_body_stream = false;
}

unfoldable pub is_request_valid : Request → Bool
is_request_valid request =
    request.method == get_method
    && (length (get key_name request.headers) == 24
        && (equal_ignoring_case (get connection_name request.headers) upgrade_lower
            && (equal_ignoring_case (get upgrade_name request.headers) web_socket_value
                && equal_ignoring_case (get version_name request.headers) version_value)))

module _ (sha1 : List ℕ → List ℕ) (base64_encode : List ℕ → List ℕ) where
  unfoldable pub generate_accept_response : List ℕ → List ℕ
  generate_accept_response key = base64_encode (sha1 (key ++ guid))

  -- What the server does with the response.
  unfoldable pub connect_actions : Request → List ℕ → List Action
  unfolding generate_accept_response until_zero
  connect_actions request subprotocol =
      let accept = generate_accept_response (until_zero (get key_name request.headers)) in
      set_status switching_protocols
      ∷ (write_header connection_name upgrade_value
          ∷ (write_header upgrade_name web_socket_value
              ∷ (write_header accept_name accept
                  ∷ ((if is_empty subprotocol
                        then []
                        else write_header protocol_name subprotocol ∷ [])
                      ++ raw_stream ∷ []))))

  unfoldable pub refuse_actions : List Action
  refuse_actions =
      set_status bad_request
      ∷ (write_header version_name version_value ∷ (set_status_message invalid_handshake ∷ []))

  module _ (status_name : ℕ → List ℕ) (to_string : ℕ → List ℕ) {P : Type 0} where
    unfoldable pub server_connect :
        Request → List ℕ → Response → WebSocket P → Result (Bool × (Response × WebSocket P))
    unfolding is_request_valid connect_actions refuse_actions
    server_connect request subprotocol response ws =
        if is_request_valid request
        then act_all status_name to_string (connect_actions request subprotocol) response
          >>= (λ r. ok (true, (r, record ws { has_stream = true })))
        else act_all status_name to_string refuse_actions response >>= (λ r. ok (false, (r, ws)))

module _ {P : Type 0} where
  -- The checks of the response, whose status and headers are given.
  unfoldable pub client_connect : List ℕ → ℕ → Headers → WebSocket P → Result (WebSocket P)
  client_connect accept status headers ws =
      if not (status == switching_protocols)
      then err http_status
      else if not (
          equal_ignoring_case (get connection_name headers) upgrade_lower
          && equal_ignoring_case (get upgrade_name headers) web_socket_lower)
      then err protocol_error
      else if not (same_string accept (get accept_name headers))
      then err protocol_error
      else ok (record ws { has_stream = true })
