-- ===== src/Http/Handler.antt =====
-- io/HTTPHandler.cc: the answer to a request. What `regex_match` says of a path, llhttp's names of
-- the status codes and the text of a number are parameters; a handler is what it does with the
-- response, step by step. The stream keeps what is written to it.
use crouton.Common.{
  ℕ, ◌==◌, if◌then◌else◌, Bool, true, false, not, Option, none, some, List, [], ◌∷◌, ◌++◌, is_empty,
}
use crouton.Common.Result.{Result, ok, err, ◌>>=◌, ◌>>◌, guard, assertion, bad_optional_access}
use crouton.Url.{UrlRef, Url}
use crouton.Http.{Headers, set}
use crouton.Http.Parser.{Llhttp, Parser, read_headers, entire_body}

pub record Request : Type 0 where
  pub method : ℕ
  pub uri : Url
  pub headers : Headers
  pub body : List ℕ

pub record Socket : Type 0 where
  pub written : List (List ℕ)
  pub closed : Bool

pub record Response : Type 0 where
  pub status : ℕ
  pub status_message : List ℕ
  pub headers : Headers
  pub sent_headers : Bool
  -- the stream of its handler
  pub socket : Socket

-- What a handler function does with the response.
pub data Action : Type 0 where
  set_status : ℕ → Action
  set_status_message : List ℕ → Action
  write_header : List ℕ → List ℕ → Action
  write_to_body : List ℕ → Action
  raw_stream : Action

pub record Route : Type 0 where
  pub method : ℕ
  pub matches : List ℕ → Bool
  pub handler : Request → List Action

abbrev pub status_ok : ℕ
status_ok = 200

abbrev pub not_found : ℕ
not_found = 404

abbrev pub method_not_allowed : ℕ
method_not_allowed = 405

unfoldable pub write : List ℕ → Socket → Socket
write bytes s = record s { written = s.written ++ bytes ∷ [] }

unfoldable pub end_body : Socket → Socket
end_body s = record s { closed = true }

abbrev user_agent : List ℕ
user_agent = 85 ∷ 115 ∷ 101 ∷ 114 ∷ 45 ∷ 65 ∷ 103 ∷ 101 ∷ 110 ∷ 116 ∷ []

abbrev crouton_name : List ℕ
crouton_name = 67 ∷ 114 ∷ 111 ∷ 117 ∷ 116 ∷ 111 ∷ 110 ∷ []

abbrev connection_text : List ℕ
connection_text = 67 ∷ 111 ∷ 110 ∷ 110 ∷ 101 ∷ 99 ∷ 116 ∷ 105 ∷ 111 ∷ 110 ∷ []

abbrev close_text : List ℕ
close_text = 99 ∷ 108 ∷ 111 ∷ 115 ∷ 101 ∷ []

-- "User-Agent: Crouton" and "Connection: close"
unfoldable pub response_headers : Headers
response_headers = set connection_text close_text (set user_agent crouton_name [])

-- The lines of the headers; 58 is ':', 13 and 10 end a line.
unfoldable pub header_lines : Headers → List ℕ
header_lines [] = []
header_lines ((name, value) ∷ rest) = name ++ (58 ∷ 32 ∷ value ++ (13 ∷ 10 ∷ header_lines rest))

module _ (status_name : ℕ → List ℕ) (to_string : ℕ → List ℕ) where
  -- "HTTP/1.1 ", the status, its name or message, and the headers
  unfoldable pub header_block : ℕ → List ℕ → Headers → List ℕ
  unfolding header_lines
  header_block status message headers =
      let name = if is_empty message then status_name status else message in
      72 ∷ 84 ∷ 84 ∷ 80 ∷ 47 ∷ 49 ∷ 46 ∷ 49 ∷ 32 ∷ to_string status
      ++ (32 ∷ name ++ (13 ∷ 10 ∷ header_lines headers ++ 13 ∷ 10 ∷ []))

  unfoldable pub write_headers : ℕ → List ℕ → Headers → Socket → Socket
  unfolding write header_block
  write_headers status message headers s = write (header_block status message headers) s

  unfoldable pub finish_headers : Response → Response
  unfolding write_headers
  finish_headers r =
      let sent = record r { socket = write_headers r.status r.status_message r.headers r.socket } in
      record (if r.sent_headers then r else sent) { sent_headers = true }

  unfoldable pub act : Action → Response → Result Response
  unfolding finish_headers write
  act (set_status status) r = ok (record r { status = status })
  act (set_status_message message) r = ok (record r { status_message = message })
  act (write_header name value) r =
      guard (not r.sent_headers) assertion >> ok (record r { headers = set name value r.headers })
  act (write_to_body bytes) r =
      let r' = finish_headers r in ok (record r' { socket = write bytes r'.socket })
  act raw_stream r = ok (finish_headers r)

  unfoldable pub act_all : List Action → Response → Result Response
  unfolding act
  act_all [] r = ok r
  act_all (a ∷ actions) r = act a r >>= λ r'. act_all actions r'

  unfoldable pub new_response : Headers → Socket → Response
  new_response headers s = record {
    status = status_ok;
    status_message = [];
    headers = headers;
    sent_headers = false;
    socket = s;
  }

  -- The handler runs, and then the headers are sent if they have not been.
  unfoldable pub respond : Headers → List Action → Socket → Result Socket
  unfolding act_all finish_headers new_response end_body
  respond headers actions s =
      act_all actions (new_response headers s) >>= λ r. ok (end_body (finish_headers r).socket)

  module _ {L : Type 0} (parse_url : List ℕ → Option UrlRef) (lib : Llhttp L) where
    unfoldable pub handle_request :
        List (List ℕ) → Headers → (Request → List Action) → Parser L → Socket → Result Socket
    unfolding respond
    handle_request chunks headers handler p s = entire_body parse_url lib chunks p >>= λ (body, p').
        elim p'.request_uri [
          | none ↦ err bad_optional_access
          | some uri ↦
              respond headers
                (handler (record {
                  method = p'.request_method;
                  uri = uri;
                  headers = p'.headers;
                  body = body;
                }))
                s
        ]

    -- The loop over the routes: the status so far, and what is done.
    unfoldable pub run_routes :
        List Route → ℕ → List (List ℕ) → Parser L → List ℕ → Socket → Result Socket
    unfolding write_headers end_body handle_request response_headers
    run_routes [] status chunks p path s =
        ok (end_body (write_headers status [] response_headers s))
    run_routes (route ∷ routes) status chunks p path s =
        let handled = handle_request chunks response_headers route.handler p s in
        let next_found = run_routes routes not_found chunks p path s in
        let next = run_routes routes status chunks p path s in
        if route.method == p.request_method
        then if route.matches path then handled else next_found
        else next

    unfoldable pub run : List Route → List (List ℕ) → Parser L → Socket → Result Socket
    unfolding run_routes
    run routes chunks p s = read_headers parse_url lib chunks p >>= λ (p', chunks').
        elim p'.request_uri [
          | none ↦ err bad_optional_access
          | some uri ↦ run_routes routes method_not_allowed chunks' p' uri.parts.path s
        ]
