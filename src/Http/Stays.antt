-- ===== src/Http/Stays.antt =====
-- Reading leaves the stream of a parser as it is.
use crouton.Common.{
  ℕ, if◌then◌else◌, Bool, true, false, not, Option, none, some, List, [], ◌∷◌, leb, length, drop,
  is_empty, ◌≡◌, refl, sym, ◌∙◌,
}
use crouton.Common.Result.{
  Result, ok, err, ◌>>=◌, ◌>>◌, guard, Gives, Gives-bind, Gives-guard, assertion, invalid_url,
  parse_error,
}
use crouton.Url.{UrlRef}
use crouton.Http.{add}
use crouton.Http.Parser.{
  Event, on_status, on_url, on_header_field, on_header_value, on_body, on_headers_complete,
  on_message_complete, hpe_ok, hpe_paused_upgrade, hpe_error, request, response, Executed, Llhttp,
  Parser, add_header, got_body, handle_event, handle_events, after_execute, take_metadata,
  parse_data,
}

module _ {L : Type 0} where
  Keeps : Bool → Result (Parser L) → Type 0
  Keeps b r = Gives (λ p. p.has_stream ≡ b) r

  module _ (parse_url : List ℕ → Option UrlRef) where
    handle_event-Keeps :
        (e : Event) (p : Parser L) → Keeps p.has_stream (handle_event parse_url e p)
    unfolding handle_event add_header got_body Keeps Gives
    handle_event-Keeps (on_status text) p = refl
    handle_event-Keeps (on_url text) p =
        elim (parse_url text)
          as (λ u. Keeps p.has_stream (elim u [
            | none ↦ err invalid_url
            | some parts ↦
                ok (record p { request_uri = some (record { str = text; parts = parts }) })
          ])) [ none ↦ tt | some parts ↦ refl ]
    handle_event-Keeps (on_header_field text) p = refl
    handle_event-Keeps (on_header_value text) p =
        Gives-guard (λ q. q.has_stream ≡ p.has_stream) (not (is_empty p.cur_header_name)) assertion
          (ok (record p { headers = add p.cur_header_name text p.headers; cur_header_name = [] }))
          refl
    handle_event-Keeps (on_body text) p = refl
    handle_event-Keeps on_headers_complete p = refl
    handle_event-Keeps on_message_complete p = refl

    handle_events-Keeps :
        (es : List Event) (p : Parser L) → Keeps p.has_stream (handle_events parse_url es p)
    unfolding handle_events Keeps Gives
    handle_events-Keeps [] p = refl
    handle_events-Keeps (e ∷ es) p =
        Gives-bind (λ q. q.has_stream ≡ p.has_stream) (λ q. q.has_stream ≡ p.has_stream)
          (handle_event parse_url e p) (handle_events parse_url es) (handle_event-Keeps e p)
          (λ q k. rw (sym k) (handle_events-Keeps es q))

    module _ (lib : Llhttp L) where
      after_execute-Keeps :
          (bytes : List ℕ) (run : Executed L) (p : Parser L)
          → Keeps p.has_stream (after_execute lib bytes run p)
      unfolding after_execute Keeps Gives
      after_execute-Keeps bytes run p =
          elim run.errno
            as (λ e. Keeps p.has_stream (elim e [
              | hpe_ok ↦ ok p
              | hpe_paused_upgrade ↦
                  guard (lib.get_upgrade run.state) assertion
                  >> (guard (leb run.error_pos (length bytes)) assertion
                      >> ok (record p { upgraded = true; body = drop run.error_pos bytes }))
              | hpe_error ↦ err parse_error
            ])) [
              | hpe_ok ↦ refl
              | hpe_paused_upgrade ↦
                  Gives-guard (λ q. q.has_stream ≡ p.has_stream) (lib.get_upgrade run.state)
                    assertion
                    (guard (leb run.error_pos (length bytes)) assertion
                      >> ok (record p { upgraded = true; body = drop run.error_pos bytes }))
                    (Gives-guard (λ q. q.has_stream ≡ p.has_stream)
                      (leb run.error_pos (length bytes)) assertion
                      (ok (record p { upgraded = true; body = drop run.error_pos bytes })) refl)
              | hpe_error ↦ tt
            ]

      take_metadata-stream : (p : Parser L) → (take_metadata lib p).has_stream ≡ p.has_stream
      unfolding take_metadata
      take_metadata-stream p =
          elim p.headers_complete
            as (λ c.
              (if c
                then elim p.role [
                  | request ↦ record p { request_method = lib.get_method p.llhttp }
                  | response ↦ record p { status = lib.get_status_code p.llhttp }
                ]
                else p).has_stream
              ≡ p.has_stream) [
                | true ↦
                    elim p.role
                      as (λ r.
                        (elim r as (λ x. Parser L) [
                          | request ↦ record p { request_method = lib.get_method p.llhttp }
                          | response ↦ record p { status = lib.get_status_code p.llhttp }
                        ]).has_stream
                        ≡ p.has_stream) [ request ↦ refl | response ↦ refl ]
                | false ↦ refl
              ]

      pub parse_data-Gives :
          (bytes : List ℕ) (p : Parser L)
          → Gives (λ r. r.1.has_stream ≡ p.has_stream) (parse_data parse_url lib bytes p)
      unfolding parse_data Keeps
      parse_data-Gives bytes p =
          let run = if is_empty bytes then lib.finish p.llhttp else lib.execute bytes p.llhttp in
          let next : Parser L → Result (Parser L) =
            λ p1. after_execute lib bytes run (record p1 { llhttp = run.state }) in
          let last : Parser L → Result (Bool × Parser L) =
            λ p2. ok (p2.headers_complete, take_metadata lib p2) in
          Gives-bind {A = Parser L} {B = Bool × Parser L} (λ q. q.has_stream ≡ p.has_stream)
            (λ r. r.1.has_stream ≡ p.has_stream) (handle_events parse_url run.events p)
            (λ p1. next p1 >>= last) (handle_events-Keeps run.events p)
            (λ p1 k.
              Gives-bind {A = Parser L} {B = Bool × Parser L} (λ q. q.has_stream ≡ p.has_stream)
                (λ r. r.1.has_stream ≡ p.has_stream) (next p1) last
                (rw (sym k) (after_execute-Keeps bytes run (record p1 { llhttp = run.state })))
                (λ p2 k'. unfold Gives in (take_metadata-stream p2 ∙ k')))
