-- ===== src/Http/Examples.antt =====
-- Messages whose parts are given in place of llhttp: at each read, the next of them.
use crouton.Common.{
  ℕ, ◌+◌, ◌/◌, ◌%◌, true, false, Option, some, List, [], ◌∷◌, ◌++◌, is_empty, ◌≡◌, refl,
}
use crouton.Common.Result.{ok, err, ◌>>=◌, assertion}
use crouton.Url.{UrlRef}
use crouton.Http.{get}
use crouton.Http.Fields.{comma_list, values_of}
use crouton.Http.Parser.{
  Event, on_url, on_header_field, on_header_value, on_body, on_headers_complete,
  on_message_complete, hpe_ok, request, Executed, Llhttp, Parser, new_parser, handle_event,
  handle_events, read_headers, entire_body,
}
use crouton.Http.Body.{all_read, entire_body_lem}
use crouton.Http.Received.{field_events, get-received, value_in_parts}
use crouton.Http.Handler.{
  Socket, Action, set_status, write_header, write_to_body, Route, respond, response_headers, run,
  status_ok,
}
use crouton.Http.Reply.{closed_with, reply, respond-reply}
use crouton.Http.Routes.{answer_request, run-answer_request}

abbrev play : List (List Event) → Executed (List (List Event))
play [] = record { events = []; errno = hpe_ok; error_pos = 0; state = [] }
play (events ∷ later) = record { events = events; errno = hpe_ok; error_pos = 0; state = later }

abbrev script : Llhttp (List (List Event))
script = record {
  execute = λ bytes l. play l;
  finish = play;
  get_upgrade = λ l. false;
  get_method = λ l. 1;
  get_status_code = λ l. 200;
}

abbrev url_of : List ℕ → Option UrlRef
url_of path = some (record { scheme = []; hostname = []; port = 0; path = path; query = [] })

abbrev parser : List (List Event) → Parser (List (List Event))
parser l = new_parser true request 0 l

-- "a" and "A"
abbrev fields : List (List ℕ × List ℕ)
fields = (97 ∷ [], 1 ∷ []) ∷ ((98 ∷ [], 2 ∷ []) ∷ ((65 ∷ [], 3 ∷ []) ∷ []))

get-received_example :
    (p' : Parser (List (List Event))) × (handle_events url_of (field_events fields) (parser [])
      ≡ ok p')
    × ((name : List ℕ) → get name p'.headers ≡ comma_list (values_of name fields))
unfolding new_parser
get-received_example = get-received url_of fields (parser []) refl (refl, (refl, (refl, tt)))

value_in_parts_example :
    handle_events url_of
      ((on_url (47 ∷ []) ∷ [])
        ++ on_header_field (97 ∷ []) ∷ (on_header_value (1 ∷ []) ∷ (on_header_value (2 ∷ []) ∷ [])))
      (parser [])
    ≡ err assertion
unfolding handle_events handle_event
value_in_parts_example =
    value_in_parts url_of (on_url (47 ∷ []) ∷ []) [] (97 ∷ []) (1 ∷ []) (2 ∷ []) (parser [])
      (record (parser []) {
        request_uri = some (record {
          str = 47 ∷ [];
          parts = record { scheme = []; hostname = []; port = 0; path = 47 ∷ []; query = [] };
        });
      })
      refl refl

-- A request with a body that comes in two reads after its headers.
abbrev body_later : List (List Event)
body_later =
    (on_body (1 ∷ 2 ∷ []) ∷ []) ∷ ([] ∷ ((on_body (3 ∷ []) ∷ on_message_complete ∷ []) ∷ []))

entire_body_lem_example :
    entire_body url_of script ((7 ∷ []) ∷ ((7 ∷ []) ∷ ((7 ∷ []) ∷ []))) (parser body_later)
    ≡ all_read url_of script [] ((7 ∷ []) ∷ ((7 ∷ []) ∷ ((7 ∷ []) ∷ []))) (parser body_later)
unfolding new_parser
entire_body_lem_example =
    entire_body_lem url_of script ((7 ∷ []) ∷ ((7 ∷ []) ∷ ((7 ∷ []) ∷ []))) (parser body_later) refl

body_read :
    (entire_body url_of script ((7 ∷ []) ∷ ((7 ∷ []) ∷ ((7 ∷ []) ∷ []))) (parser body_later)
      >>= λ (body, p). ok body)
    ≡ ok (1 ∷ 2 ∷ 3 ∷ [])
unfolding entire_body new_parser
body_read = refl

-- The same request in one read.
abbrev at_once : List (List Event)
at_once =
    (on_url (47 ∷ []) ∷ on_headers_complete ∷ on_body (1 ∷ 2 ∷ 3 ∷ []) ∷ on_message_complete ∷ [])
    ∷ []

body_lost :
    (read_headers url_of script ((7 ∷ []) ∷ []) (parser at_once)
      >>= (λ (p, chunks). entire_body url_of script chunks p)
      >>= λ (body, p). ok body)
    ≡ ok []
unfolding read_headers entire_body new_parser
body_lost = refl

abbrev actions : List Action
actions =
    write_header (97 ∷ []) (1 ∷ [])
    ∷ (set_status 201 ∷ (write_to_body (2 ∷ []) ∷ (write_to_body (3 ∷ []) ∷ [])))

abbrev socket : Socket
socket = record { written = []; closed = false }

abbrev name_of : ℕ → List ℕ
name_of status = 79 ∷ 75 ∷ []

abbrev digits : ℕ → List ℕ
digits n = (48 + n / 100) ∷ ((48 + n / 10 % 10) ∷ ((48 + n % 10) ∷ []))

respond-reply_example :
    respond name_of digits response_headers actions socket
    ≡ closed_with socket (reply name_of digits status_ok [] response_headers actions)
respond-reply_example = respond-reply name_of digits response_headers actions socket

abbrev routes : List Route
routes =
    record { method = 1; matches = λ path. is_empty path; handler = λ r. [] }
    ∷ (record { method = 1; matches = λ path. true; handler = λ r. actions } ∷ [])

run-answer_request_example :
    run name_of digits url_of script routes ((7 ∷ []) ∷ []) (parser at_once) socket ≡ (
      read_headers url_of script ((7 ∷ []) ∷ []) (parser at_once) >>= λ x.
      answer_request name_of digits url_of script routes x socket)
run-answer_request_example =
    run-answer_request name_of digits url_of script routes ((7 ∷ []) ∷ []) (parser at_once) socket
