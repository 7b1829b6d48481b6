-- ===== src/Http/Client.antt =====
-- What Connection::send of io/HTTPConnection.cc adds to the headers of a request. The text of a number
-- is a parameter, and the connection has sent no request before.
use crouton.Common.{
  ℕ, ◌==◌, if◌then◌else◌, Bool, not, ◌&&◌, ◌||◌, List, [], ◌∷◌, ◌++◌, length, is_empty,
}
use crouton.Common.Result.{Result, ok, ◌>>◌, guard, assertion, invalid_argument}
use crouton.Http.{Headers, contains}

pub record ClientRequest : Type 0 where
  pub method : ℕ
  pub headers : Headers
  pub body : List ℕ
  pub has_body_stream : Bool

abbrev pub get_method : ℕ
get_method = 1

-- "Host"
abbrev pub host_name : List ℕ
host_name = 72 ∷ 111 ∷ 115 ∷ 116 ∷ []

-- "Connection"
abbrev pub connection_field : List ℕ
connection_field = 67 ∷ 111 ∷ 110 ∷ 110 ∷ 101 ∷ 99 ∷ 116 ∷ 105 ∷ 111 ∷ 110 ∷ []

-- "close"
abbrev pub close_value : List ℕ
close_value = 99 ∷ 108 ∷ 111 ∷ 115 ∷ 101 ∷ []

-- "Content-Length"
abbrev pub content_length : List ℕ
content_length = 67 ∷ 111 ∷ 110 ∷ 116 ∷ 101 ∷ 110 ∷ 116 ∷ 45 ∷ 76 ∷ 101 ∷ 110 ∷ 103 ∷ 116 ∷ 104 ∷ []

-- Which requests are refused.
unfoldable pub check_request : ClientRequest → Result (Unit {0})
check_request req =
    if req.method == get_method
    then guard (not (req.has_body_stream || not (is_empty req.body))) invalid_argument
    else guard (not (req.has_body_stream && not (contains content_length req.headers)))
        invalid_argument

module _ (to_string : ℕ → List ℕ) where
  -- The header fields that go out: those of the request, and after them the connection's own.
  unfoldable pub request_fields : List ℕ → ClientRequest → Result (List (List ℕ × List ℕ))
  unfolding check_request
  request_fields hostname req =
      let own = req.headers ++ (host_name, hostname) ∷ ((connection_field, close_value) ∷ []) in
      let length_field : List ℕ × List ℕ = (content_length, to_string (length req.body)) in
      check_request req
      >> (if not (req.method == get_method) && not req.has_body_stream
          then guard (not (contains content_length req.headers)) assertion
            >> ok (own ++ length_field ∷ [])
          else ok own)
