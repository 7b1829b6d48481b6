-- ===== src/Http/Reply.antt =====
-- What a client gets: which route answers, and what is written to the stream.
use crouton.Common.{ℕ, true, false, List, [], ◌∷◌, ◌++◌, append-nil, append_assoc, ◌≡◌, refl, ◌∙◌}
use crouton.Common.Result.{Result, ok, err, ◌>>=◌, assertion}
use crouton.Http.{Headers, set}
use crouton.Http.Handler.{
  Socket, Response, Action, set_status, set_status_message, write_header, write_to_body, raw_stream,
  write, end_body, header_block, write_headers, finish_headers, act, act_all, new_response, respond,
  status_ok,
}

-- What is written from some action on once the headers have been sent: the bodies, and no header
-- may be among the actions.
unfoldable pub rest_of : List Action → Result (List (List ℕ))
rest_of [] = ok []
rest_of (set_status status ∷ actions) = rest_of actions
rest_of (set_status_message message ∷ actions) = rest_of actions
rest_of (write_header name value ∷ actions) = err assertion
rest_of (write_to_body bytes ∷ actions) = rest_of actions >>= λ bodies. ok (bytes ∷ bodies)
rest_of (raw_stream ∷ actions) = rest_of actions

-- The stream after all that has been written to it, closed.
unfoldable pub closed_with : Socket → Result (List (List ℕ)) → Result Socket
closed_with s blocks = blocks >>= λ bs. ok (record { written = s.written ++ bs; closed = true })

closed_more :
    (s : Socket) (bytes : List ℕ) (r : Result (List (List ℕ)))
    → closed_with (write bytes s) r ≡ closed_with s (r >>= λ bs. ok (bytes ∷ bs))
unfolding closed_with write
closed_more s bytes (err failure) = refl
closed_more s bytes (ok bs) = rw (append_assoc s.written (bytes ∷ []) bs) refl

closed_nil : (s : Socket) → ok (end_body s) ≡ closed_with s (ok [])
unfolding closed_with end_body
closed_nil s = rw (append-nil s.written) refl

closed_twice :
    (s : Socket) (block bytes : List ℕ) (r : Result (List (List ℕ)))
    → closed_with (write bytes (write block s)) r
      ≡ closed_with s (r >>= λ bs. ok (block ∷ (bytes ∷ bs)))
closed_twice s block bytes (err failure) =
    closed_more (write block s) bytes (err failure) ∙ closed_more s block (err failure)
closed_twice s block bytes (ok bs) =
    closed_more (write block s) bytes (ok bs) ∙ closed_more s block (ok (bytes ∷ bs))

module _ (status_name : ℕ → List ℕ) (to_string : ℕ → List ℕ) where
  -- The reply as a whole: one block of headers, of what was set before the first action that needs
  -- them to be sent, and then the bodies.
  unfoldable pub reply : ℕ → List ℕ → Headers → List Action → Result (List (List ℕ))
  unfolding rest_of
  reply status message headers [] =
      ok (header_block status_name to_string status message headers ∷ [])
  reply status message headers (set_status other ∷ actions) = reply other message headers actions
  reply status message headers (set_status_message other ∷ actions) =
      reply status other headers actions
  reply status message headers (write_header name value ∷ actions) =
      reply status message (set name value headers) actions
  reply status message headers (write_to_body bytes ∷ actions) = rest_of actions >>= λ bodies.
      ok (header_block status_name to_string status message headers ∷ (bytes ∷ bodies))
  reply status message headers (raw_stream ∷ actions) = rest_of actions >>= λ bodies.
      ok (header_block status_name to_string status message headers ∷ bodies)

  closing : Response → Result Socket
  closing r = ok (end_body (finish_headers status_name to_string r).socket)

  after_headers :
      (actions : List Action) (status : ℕ) (message : List ℕ) (headers : Headers) (s : Socket)
      → (act_all status_name to_string actions (record {
        status = status;
        status_message = message;
        headers = headers;
        sent_headers = true;
        socket = s;
      })
          >>= closing)
        ≡ closed_with s (rest_of actions)
  unfolding act_all act closing finish_headers rest_of
  after_headers [] status message headers s = closed_nil s
  after_headers (set_status other ∷ actions) status message headers s =
      after_headers actions other message headers s
  after_headers (set_status_message other ∷ actions) status message headers s =
      after_headers actions status other headers s
  after_headers (write_header name value ∷ actions) status message headers s =
      unfold closed_with in refl
  after_headers (write_to_body bytes ∷ actions) status message headers s =
      after_headers actions status message headers (write bytes s)
      ∙ closed_more s bytes (rest_of actions)
  after_headers (raw_stream ∷ actions) status message headers s =
      after_headers actions status message headers s

  before_headers :
      (actions : List Action) (status : ℕ) (message : List ℕ) (headers : Headers) (s : Socket)
      → (act_all status_name to_string actions (record {
        status = status;
        status_message = message;
        headers = headers;
        sent_headers = false;
        socket = s;
      })
          >>= closing)
        ≡ closed_with s (reply status message headers actions)
  unfolding act_all act closing finish_headers reply write_headers
  before_headers [] status message headers s =
      closed_nil (write (header_block status_name to_string status message headers) s)
      ∙ closed_more s (header_block status_name to_string status message headers) (ok [])
  before_headers (set_status other ∷ actions) status message headers s =
      before_headers actions other message headers s
  before_headers (set_status_message other ∷ actions) status message headers s =
      before_headers actions status other headers s
  before_headers (write_header name value ∷ actions) status message headers s =
      before_headers actions status message (set name value headers) s
  before_headers (write_to_body bytes ∷ actions) status message headers s =
      after_headers actions status message headers
        (write bytes (write (header_block status_name to_string status message headers) s))
      ∙ closed_twice s (header_block status_name to_string status message headers) bytes
          (rest_of actions)
  before_headers (raw_stream ∷ actions) status message headers s =
      after_headers actions status message headers
        (write (header_block status_name to_string status message headers) s)
      ∙ closed_more s (header_block status_name to_string status message headers) (rest_of actions)

  -- Whatever a handler function does with the response, the client gets one block of headers, of the
  -- status, the message and the headers that were set before they were needed, then the bodies in
  -- their order, and the stream is closed; unless a header is written after that, where the
  -- precondition of writeHeader does not hold.
  pub respond-reply :
      (headers : Headers) (actions : List Action) (s : Socket)
      → respond status_name to_string headers actions s
        ≡ closed_with s (reply status_ok [] headers actions)
  unfolding respond new_response
  respond-reply headers actions s = unfold closing in before_headers actions status_ok [] headers s
