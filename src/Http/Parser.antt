-- ===== src/Http/Parser.antt =====
-- The class Parser of io/HTTPParser.cc. llhttp, which finds the parts of a message, is a parameter:
-- what it is given makes it call back with parts, one after the other. A stream is the list of what
-- its readNoCopy returns, and after those the empty string, which means its end.
use crouton.Common.{
  ℕ, leb, if◌then◌else◌, Bool, true, false, not, ◌&&◌, Option, none, some, List, [], ◌∷◌, ◌++◌,
  length, drop, is_empty, zero, suc,
}
use crouton.Common.Result.{
  Result, ok, err, ◌>>=◌, ◌>>◌, guard, assertion, parse_error, invalid_url, unexpected_eof,
  unfinished,
}
use crouton.Url.{UrlRef, Url}
use crouton.Http.{Headers, add}

pub data Role : Type 0 where
  request response : Role

-- The callbacks of `llhttp_settings_s`, with the text they are given.
pub data Event : Type 0 where
  on_status on_url on_header_field on_header_value on_body : List ℕ → Event
  on_headers_complete on_message_complete : Event

pub data Errno : Type 0 where
  hpe_ok hpe_paused_upgrade hpe_error : Errno

-- What `llhttp_execute` or `llhttp_finish` does: its callbacks, its result, how far it came in the
-- data where it stopped, and its new state.
pub record Executed (L : Type 0) : Type 0 where
  pub events : List Event
  pub errno : Errno
  pub error_pos : ℕ
  pub state : L

pub record Llhttp (L : Type 0) : Type 0 where
  pub execute : List ℕ → L → Executed L
  pub finish : L → Executed L
  pub get_upgrade : L → Bool
  pub get_method : L → ℕ
  pub get_status_code : L → ℕ

pub record Parser (L : Type 0) : Type 0 where
  pub has_stream : Bool
  pub role : Role
  pub llhttp : L
  pub request_method : ℕ
  pub request_uri : Option Url
  pub status : ℕ
  pub status_message : List ℕ
  pub headers : Headers
  pub cur_header_name : List ℕ
  pub body : List ℕ
  pub headers_complete : Bool
  pub message_complete : Bool
  pub upgraded : Bool

module _ {L : Type 0} where
  -- The Method of a parser that has read nothing is not initialized.
  unfoldable pub new_parser : Bool → Role → ℕ → L → Parser L
  new_parser has_stream role method llhttp = record {
    has_stream = has_stream;
    role = role;
    llhttp = llhttp;
    request_method = method;
    request_uri = none;
    status = 0;
    status_message = [];
    headers = [];
    cur_header_name = [];
    body = [];
    headers_complete = false;
    message_complete = false;
    upgraded = false;
  }

  unfoldable pub add_header : List ℕ → Parser L → Result (Parser L)
  add_header value p =
      guard (not (is_empty p.cur_header_name)) assertion
      >> ok (record p { headers = add p.cur_header_name value p.headers; cur_header_name = [] })

  unfoldable pub got_body : List ℕ → Parser L → Parser L
  got_body bytes p = record p { body = p.body ++ bytes }

  unfoldable pub latest_body_data : Parser L → List ℕ × Parser L
  latest_body_data p = (p.body, record p { body = [] })

  module _ (lib : Llhttp L) where
    -- After `llhttp_execute`: its result, and what is after an upgrade.
    unfoldable pub after_execute : List ℕ → Executed L → Parser L → Result (Parser L)
    after_execute bytes run p = elim run.errno [
      | hpe_ok ↦ ok p
      | hpe_paused_upgrade ↦
          guard (lib.get_upgrade run.state) assertion
          >> (guard (leb run.error_pos (length bytes)) assertion
              >> ok (record p { upgraded = true; body = drop run.error_pos bytes }))
      | hpe_error ↦ err parse_error
    ]

    unfoldable pub take_metadata : Parser L → Parser L
    take_metadata p =
        if p.headers_complete
        then elim p.role [
          | request ↦ record p { request_method = lib.get_method p.llhttp }
          | response ↦ record p { status = lib.get_status_code p.llhttp }
        ]
        else p

  module _ (parse_url : List ℕ → Option UrlRef) where
    unfoldable pub handle_event : Event → Parser L → Result (Parser L)
    unfolding add_header got_body
    handle_event (on_status text) p = ok (record p { status_message = text })
    handle_event (on_url text) p = elim (parse_url text) [
      | none ↦ err invalid_url
      | some parts ↦ ok (record p { request_uri = some (record { str = text; parts = parts }) })
    ]
    handle_event (on_header_field text) p = ok (record p { cur_header_name = text })
    handle_event (on_header_value text) p = add_header text p
    handle_event (on_body bytes) p = ok (got_body bytes p)
    handle_event on_headers_complete p = ok (record p { headers_complete = true })
    handle_event on_message_complete p = ok (record p { message_complete = true })

    unfoldable pub handle_events : List Event → Parser L → Result (Parser L)
    unfolding handle_event
    handle_events [] p = ok p
    handle_events (e ∷ es) p = handle_event e p >>= λ p'. handle_events es p'

    module _ (lib : Llhttp L) where
      unfoldable pub parse_data : List ℕ → Parser L → Result (Bool × Parser L)
      unfolding handle_events after_execute take_metadata
      parse_data bytes p =
          let run = if is_empty bytes then lib.finish p.llhttp else lib.execute bytes p.llhttp in
          handle_events run.events p >>= λ p1.
          after_execute lib bytes run (record p1 { llhttp = run.state }) >>= λ p2.
          ok (p2.headers_complete, take_metadata lib p2)

      -- The loop of `readHeaders`.
      unfoldable pub read_headers_loop :
          List (List ℕ) → Parser L → Result (Parser L × List (List ℕ))
      unfolding parse_data
      read_headers_loop [] p =
          parse_data [] p >>= λ (done, p'). if done then ok (p', []) else err unexpected_eof
      read_headers_loop (bytes ∷ chunks) p = parse_data bytes p >>= λ (done, p').
          let later = read_headers_loop chunks p' in
          if done then ok (p', chunks) else if is_empty bytes then err unexpected_eof else later

      unfoldable pub read_headers : List (List ℕ) → Parser L → Result (Parser L × List (List ℕ))
      unfolding read_headers_loop
      read_headers chunks p = guard p.has_stream assertion >> read_headers_loop chunks p

      -- The loop of `readBody`.
      unfoldable pub read_body_loop : List (List ℕ) → Parser L → Result (Parser L × List (List ℕ))
      unfolding parse_data
      read_body_loop [] p =
          if is_empty p.body && not p.message_complete
          then parse_data [] p
            >>= (λ (done, p'). if p'.message_complete then ok (p', []) else err unexpected_eof)
          else ok (p, [])
      read_body_loop (bytes ∷ chunks) p =
          let next = parse_data bytes p >>= λ (done, p').
          let later = read_body_loop chunks p' in
          let at_end = if p'.message_complete then ok (p', chunks) else err unexpected_eof in
          if is_empty bytes then at_end else later in
          if is_empty p.body && not p.message_complete then next else ok (p, bytes ∷ chunks)

      -- The body is moved out of the parser, which leaves it empty.
      unfoldable pub read_body :
          List (List ℕ) → Parser L → Result (List ℕ × (Parser L × List (List ℕ)))
      unfolding read_body_loop
      read_body chunks p =
          guard p.has_stream assertion
          >> (read_body_loop chunks p >>= λ (p', chunks').
              ok (p'.body, (record p' { body = [] }, chunks')))

      -- The loop of `entireBody`.
      unfoldable pub entire_body_loop :
          ℕ → List ℕ → List (List ℕ) → Parser L → Result (List ℕ × Parser L)
      unfolding read_body
      entire_body_loop zero entire chunks p = err unfinished
      entire_body_loop (suc k) entire chunks p =
          let next = read_body chunks p >>= λ (part, (p', chunks')).
          entire_body_loop k (entire ++ part) chunks' p' in
          if p.message_complete then ok (entire, p) else next

      -- Each round but the first reads from the stream.
      unfoldable pub entire_body : List (List ℕ) → Parser L → Result (List ℕ × Parser L)
      unfolding entire_body_loop
      entire_body chunks p = entire_body_loop (suc (suc (suc (length chunks)))) [] chunks p
