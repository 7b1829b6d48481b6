-- ===== src/WebSocket/Handshake.antt =====
-- The handshake of io/WebSocket.cc for a request that reaches the server as it should be.
use crouton.Common.{if_true, ℕ, if◌then◌else◌, true, false, List, [], ◌∷◌, ◌≡◌, refl, ap, ◌∙◌}
use crouton.Common.Result.{ok, ◌>>=◌}
use crouton.Strings.{equal_ignoring_case, equal_loop, to_lower}
use crouton.Http.{Headers, get, set}
use crouton.Http.Fields.{get-set, same_string_refl}
use crouton.Http.Handler.{Request, Response, act, act_all, finish_headers}
use crouton.WebSocket.{WebSocket}
use crouton.WebSocket.Connect.{
  connection_name, upgrade_name, key_name, accept_name, protocol_name, upgrade_value,
  web_socket_value, switching_protocols, until_zero, is_request_valid, generate_accept_response,
  connect_actions, server_connect, client_connect,
}

get-set-same :
    (name m value : List ℕ) (h : Headers)
    → equal_ignoring_case m name ≡ true
    → get m (set name value h) ≡ value
get-set-same name m value h same =
    get-set name m value h ∙ ap (λ b. if b then value else get m h) same

get-set-other :
    (name m value : List ℕ) (h : Headers)
    → equal_ignoring_case m name ≡ false
    → get m (set name value h) ≡ get m h
get-set-other name m value h other =
    get-set name m value h ∙ ap (λ b. if b then value else get m h) other

own_headers : List ℕ → Headers → Headers
own_headers accept headers =
    set accept_name accept
      (set upgrade_name web_socket_value (set connection_name upgrade_value headers))

server_headers : List ℕ → List ℕ → Headers → Headers
server_headers accept [] headers = own_headers accept headers
server_headers accept (x ∷ xs) headers = set protocol_name (x ∷ xs) (own_headers accept headers)

Agreed : List ℕ → Headers → Type 0
Agreed accept headers =
    (get connection_name headers ≡ upgrade_value)
    × (get upgrade_name headers ≡ web_socket_value)
    × (get accept_name headers ≡ accept)

own_headers-Agreed :
    (accept : List ℕ) (headers : Headers) → Agreed accept (own_headers accept headers)
unfolding Agreed own_headers equal_ignoring_case equal_loop to_lower
own_headers-Agreed accept headers =
    let h1 = set connection_name upgrade_value headers in
    let h2 = set upgrade_name web_socket_value h1 in
    (
      get-set-other accept_name connection_name accept h2 refl
          ∙ get-set-other upgrade_name connection_name web_socket_value h1 refl
          ∙ get-set-same connection_name connection_name upgrade_value headers refl,
      get-set-other accept_name upgrade_name accept h2 refl
          ∙ get-set-same upgrade_name upgrade_name web_socket_value h1 refl,
      get-set-same accept_name accept_name accept h2 refl,
    )

server_headers-Agreed :
    (accept subprotocol : List ℕ) (headers : Headers)
    → Agreed accept (server_headers accept subprotocol headers)
unfolding Agreed server_headers equal_ignoring_case equal_loop to_lower
server_headers-Agreed accept [] headers = own_headers-Agreed accept headers
server_headers-Agreed accept (x ∷ xs) headers =
    let own = own_headers accept headers in
    let (c, u, a) = own_headers-Agreed accept headers in
    (
      get-set-other protocol_name connection_name (x ∷ xs) own refl ∙ c,
      get-set-other protocol_name upgrade_name (x ∷ xs) own refl ∙ u,
      get-set-other protocol_name accept_name (x ∷ xs) own refl ∙ a,
    )

accepted :
    {P : Type 0} (accept : List ℕ) (headers : Headers) (ws : WebSocket P)
    → Agreed accept headers
    → client_connect accept switching_protocols headers ws ≡ ok (record ws { has_stream = true })
unfolding client_connect equal_ignoring_case equal_loop to_lower Agreed
accepted accept headers ws (c, u, a) = rw (c, u, a, same_string_refl accept) refl

module _ (sha1 : List ℕ → List ℕ) (base64_encode : List ℕ → List ℕ) (status_name : ℕ → List ℕ)
    (to_string : ℕ → List ℕ) where
  -- What the server's actions leave of a response that has not been sent.
  acted :
      (request : Request) (accept subprotocol : List ℕ) (r : Response)
      → r.sent_headers ≡ false
      → generate_accept_response sha1 base64_encode (until_zero (get key_name request.headers))
        ≡ accept
      → (r' : Response) × (act_all status_name to_string
            (connect_actions sha1 base64_encode request subprotocol)
            r
          ≡ ok r')
        × (r'.status ≡ switching_protocols)
        × (r'.headers ≡ server_headers accept subprotocol r.headers)
  unfolding act_all act connect_actions server_headers own_headers finish_headers
  acted request accept [] r unsent answer = rw (unsent, answer) (_, refl, refl, refl)
  acted request accept (x ∷ xs) r unsent answer = rw (unsent, answer) (_, refl, refl, refl)

  -- A server takes a request that is valid, whose key has no zero byte, whatever the response had
  -- before its headers are sent, and a client with this key takes the response: both have a stream.
  pub server_connect-client_connect :
      {P : Type 0} (request : Request) (subprotocol : List ℕ) (r : Response)
      (server client : WebSocket P)
      → is_request_valid request ≡ true
      → until_zero (get key_name request.headers) ≡ get key_name request.headers
      → r.sent_headers ≡ false
      → (r' : Response) × (server_connect sha1 base64_encode status_name to_string request
            subprotocol r server
          ≡ ok (true, (r', record server { has_stream = true })))
        × (client_connect
              (generate_accept_response sha1 base64_encode (get key_name request.headers))
              r'.status
              r'.headers
              client
            ≡ ok (record client { has_stream = true }))
  unfolding server_connect
  server_connect-client_connect request subprotocol r server client valid no_zero unsent =
      let accept = generate_accept_response sha1 base64_encode (get key_name request.headers) in
      let (r', done, status, headers) =
        acted request accept subprotocol r unsent
          (ap (generate_accept_response sha1 base64_encode) no_zero) in
      (
        r',
        if_true _ _ (is_request_valid request) valid
            ∙ ap (λ x. x >>= (λ q. ok (true, (q, record server { has_stream = true })))) done,
        ap (λ st. client_connect accept st r'.headers client) status
            ∙ ap (λ h. client_connect accept switching_protocols h client) headers
            ∙ accepted accept (server_headers accept subprotocol r.headers) client
                (server_headers-Agreed accept subprotocol r.headers),
      )
