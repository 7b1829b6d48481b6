-- ===== src/WebSocket/Refused.antt =====
-- The request that a ClientWebSocket sends over an HTTP connection, as a server gets it.
use crouton.Common.{
  ℕ, ◌==◌, Bool, true, false, ◌&&◌, Bool-cases, inl, inr, List, [], ◌∷◌, ◌++◌, append_assoc,
  append-nil, length-append, suc, ◌+◌, length, ◌≡◌, refl, sym, ap, ◌∙◌, arith,
}
use crouton.Common.Result.{ok, err, http_status}
use crouton.Strings.{equal_ignoring_case, equal_loop, to_lower}
use crouton.Url.{Url}
use crouton.Http.{get}
use crouton.Http.Fields.{add_fields, values_of, comma_list, after_commas, get-add_fields}
use crouton.Http.Client.{
  ClientRequest, check_request, request_fields, host_name, connection_field, close_value,
}
use crouton.Http.Handler.{Request, Response, act, act_all}
use crouton.WebSocket.{WebSocket}
use crouton.WebSocket.Connect.{
  connection_name, upgrade_lower, is_request_valid, client_headers, set_headers, client_request,
  bad_request, refuse_actions, server_connect, client_connect,
}

-- The last of the values stands at the end of their list.
values_of-append :
    (name : List ℕ) (fs gs : List (List ℕ × List ℕ))
    → values_of name (fs ++ gs) ≡ values_of name fs ++ values_of name gs
unfolding values_of
values_of-append name [] gs = refl
values_of-append name ((n, value) ∷ fs) gs = elim (Bool-cases (equal_ignoring_case name n)) [
  | inl same ↦ rw same (ap (λ vs. value ∷ vs) (values_of-append name fs gs))
  | inr other ↦ rw other (values_of-append name fs gs)
]

after_commas-last :
    (vs : List (List ℕ)) (v : List ℕ)
    → (before : List ℕ) × (after_commas (vs ++ v ∷ []) ≡ before ++ v)
unfolding after_commas
after_commas-last [] v = (44 ∷ 32 ∷ [], append-nil (44 ∷ 32 ∷ v))
after_commas-last (w ∷ vs) v =
    let (before, same) = after_commas-last vs v in
    (
      44 ∷ 32 ∷ w ++ before,
      ap (λ x. 44 ∷ 32 ∷ w ++ x) same ∙ sym (append_assoc (44 ∷ 32 ∷ w) before v),
    )

comma_list-last :
    (vs : List (List ℕ)) (v : List ℕ)
    → (before : List ℕ) × (comma_list (vs ++ v ∷ []) ≡ before ++ v)
unfolding comma_list
comma_list-last [] v = ([], unfold after_commas in append-nil v)
comma_list-last (w ∷ vs) v =
    let (before, same) = after_commas-last vs v in
    (w ++ before, ap (λ x. w ++ x) same ∙ sym (append_assoc w before v))

two_tests : (x y : Bool) → (x && (y && false)) ≡ false
two_tests true true = refl
two_tests true false = refl
two_tests false y = refl

too_long : (n : ℕ) → (suc (suc (suc (n + 5))) == 7) ≡ false
too_long n = ground arith

-- "upgrade" does not end with "close".
ends_with_close :
    (before : List ℕ) → equal_ignoring_case (before ++ close_value) upgrade_lower ≡ false
unfolding equal_ignoring_case equal_loop to_lower
ends_with_close [] = refl
ends_with_close (a ∷ []) = refl
ends_with_close (a ∷ (b ∷ [])) = two_tests (to_lower a == 117) (to_lower b == 112)
ends_with_close (a ∷ (b ∷ (c ∷ rest))) =
    rw (length-append rest close_value, too_long (length rest)) refl

-- The fields that the connection adds.
own_fields : List ℕ → List (List ℕ × List ℕ)
own_fields hostname = (host_name, hostname) ∷ ((connection_field, close_value) ∷ [])

own_values :
    (hostname : List ℕ) → values_of connection_name (own_fields hostname) ≡ close_value ∷ []
unfolding own_fields values_of equal_ignoring_case equal_loop to_lower
own_values hostname = refl

no_upgrade :
    (fields : List (List ℕ × List ℕ)) (hostname : List ℕ)
    → equal_ignoring_case
        (get connection_name (add_fields (fields ++ own_fields hostname) []))
        upgrade_lower
      ≡ false
no_upgrade fields hostname =
    let (before, same) = comma_list-last (values_of connection_name fields) close_value in
    ap (λ v. equal_ignoring_case v upgrade_lower)
      ((get-add_fields connection_name (fields ++ own_fields hostname)).1
        ∙ ap comma_list (
            values_of-append connection_name fields (own_fields hostname)
            ∙ ap (λ vs. values_of connection_name fields ++ vs) (own_values hostname))
        ∙ same)
    ∙ ends_with_close before

invalid :
    (request : Request)
    → equal_ignoring_case (get connection_name request.headers) upgrade_lower ≡ false
    → is_request_valid request ≡ false
unfolding is_request_valid
invalid request other = rw other (two_tests _ _)

-- What the server gets of the fields that were sent.
unfoldable pub request_of : ClientRequest → List (List ℕ × List ℕ) → Url → Request
request_of req fields uri = record {
  method = req.method;
  uri = uri;
  headers = add_fields fields [];
  body = req.body;
}

module _ (sha1 : List ℕ → List ℕ) (base64_encode : List ℕ → List ℕ) (status_name : ℕ → List ℕ)
    (to_string : ℕ → List ℕ) where
  refuses :
      {P : Type 0} (request : Request) (subprotocol accept : List ℕ) (r : Response)
      (server client : WebSocket P)
      → is_request_valid request ≡ false
      → r.sent_headers ≡ false
      → (r' : Response) × (server_connect sha1 base64_encode status_name to_string request
            subprotocol r server
          ≡ ok (false, (r', server)))
        × (r'.status ≡ bad_request)
        × (client_connect accept r'.status r'.headers client ≡ err http_status)
  unfolding server_connect refuse_actions act_all act client_connect
  refuses request subprotocol accept r server client bad unsent =
      rw (bad, unsent) (_, refl, refl, refl)

  -- What a ClientWebSocket sends is refused. Whatever headers were set for it, the fields that go out
  -- are they and those that its connection adds, of which one is "Connection: close". A server that
  -- gets these fields, and whose response has not sent its headers, answers with the status BadRequest
  -- and has no stream, and the client raises an error for that status, whatever it expects as accept.
  pub connect_refused :
      {P : Type 0} (key accept hostname subprotocol : List ℕ) (more : List (List ℕ × List ℕ))
      (uri : Url) (r : Response) (server client : WebSocket P)
      → r.sent_headers ≡ false
      → (fields : List (List ℕ × List ℕ)) × (r' : Response) × (request_fields to_string hostname
            (client_request (set_headers more (client_headers key)))
          ≡ ok fields)
        × (server_connect sha1 base64_encode status_name to_string
              (request_of (client_request (set_headers more (client_headers key))) fields uri)
              subprotocol
              r
              server
            ≡ ok (false, (r', server)))
        × (r'.status ≡ bad_request)
        × (client_connect accept r'.status r'.headers client ≡ err http_status)
  unfolding request_fields check_request client_request own_fields request_of
  connect_refused key accept hostname subprotocol more uri r server client unsent =
      let req = client_request (set_headers more (client_headers key)) in
      let fields = req.headers ++ own_fields hostname in
      let request = request_of req fields uri in
      let (r', refused, status, raised) =
        refuses request subprotocol accept r server client
          (invalid request (no_upgrade req.headers hostname)) unsent in
      (fields, r', refl, refused, status, raised)
