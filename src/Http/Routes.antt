-- ===== src/Http/Routes.antt =====
-- Which route answers a request.
use crouton.Common.{
  ℕ, ◌==◌, if◌then◌else◌, Bool, true, false, ◌&&◌, ◌||◌, Option, none, some, List, [], ◌∷◌,
  Bool-cases, inl, inr, ◌≡◌, refl, ap, ◌∙◌,
}
use crouton.Common.Result.{Result, ok, err, ◌>>=◌, bad_optional_access}
use crouton.Url.{UrlRef, Url}
use crouton.Http.Parser.{Llhttp, Parser, read_headers}
use crouton.Http.Handler.{
  Socket, Route, method_not_allowed, not_found, end_body, write_headers, response_headers,
  handle_request, run_routes, run,
}

-- The first route with the method and a pattern that the path matches.
unfoldable pub chosen : List Route → ℕ → List ℕ → Option Route
chosen [] method path = none
chosen (route ∷ routes) method path =
    let next = chosen routes method path in
    if route.method == method && route.matches path then some route else next

unfoldable pub has_method : List Route → ℕ → Bool
has_method [] method = false
has_method (route ∷ routes) method = route.method == method || has_method routes method

same_either : (b : Bool) (n : ℕ) → (if b then n else n) ≡ n
same_either true n = refl
same_either false n = refl

module _ (status_name : ℕ → List ℕ) (to_string : ℕ → List ℕ) {L : Type 0}
    (parse_url : List ℕ → Option UrlRef) (lib : Llhttp L) where
  -- The answer of the route, or an error.
  unfoldable pub answer : Option Route → ℕ → List (List ℕ) → Parser L → Socket → Result Socket
  answer (some route) status chunks p s =
      handle_request status_name to_string parse_url lib chunks response_headers route.handler p s
  answer none status chunks p s =
      ok (end_body (write_headers status_name to_string status [] response_headers s))

  routes_from :
      (routes : List Route) (status : ℕ) (chunks : List (List ℕ)) (p : Parser L) (path : List ℕ)
      (s : Socket)
      → run_routes status_name to_string parse_url lib routes status chunks p path s
        ≡ answer
            (chosen routes p.request_method path)
            (if has_method routes p.request_method then not_found else status)
            chunks
            p
            s
  unfolding run_routes chosen has_method answer
  routes_from [] status chunks p path s = refl
  routes_from (route ∷ routes) status chunks p path s =
      elim (Bool-cases (route.method == p.request_method)) [
        | inl same ↦ elim (Bool-cases (route.matches path)) [
          | inl match ↦ rw (same, match) refl
          | inr other ↦
              rw (same, other)
                (routes_from routes not_found chunks p path s
                  ∙ ap (λ st. answer (chosen routes p.request_method path) st chunks p s)
                      (same_either (has_method routes p.request_method) not_found))
        ]
        | inr other ↦ rw other (routes_from routes status chunks p path s)
      ]

  -- What is done once the headers are read: `run` without its loop.
  unfoldable pub answer_request : List Route → Parser L × List (List ℕ) → Socket → Result Socket
  answer_request routes (p, chunks) s = elim p.request_uri [
    | none ↦ err bad_optional_access
    | some uri ↦
        answer (chosen routes p.request_method uri.parts.path)
          (if has_method routes p.request_method then not_found else method_not_allowed) chunks p s
  ]

  answered :
      (routes : List Route) (r : Result (Parser L × List (List ℕ))) (s : Socket)
      → (r >>= λ (p', chunks'). elim p'.request_uri [
        | none ↦ err bad_optional_access
        | some uri ↦
            run_routes status_name to_string parse_url lib routes method_not_allowed chunks' p'
              uri.parts.path s
      ])
        ≡ (r >>= λ x. answer_request routes x s)
  unfolding answer_request
  answered routes (err failure) s = refl
  answered routes (ok (p, chunks)) s = at_uri p.request_uri
    where
      at_uri :
          (u : Option Url)
          → elim u as (λ x. Result Socket) [
            | none ↦ err bad_optional_access
            | some uri ↦
                run_routes status_name to_string parse_url lib routes method_not_allowed chunks p
                  uri.parts.path s
          ]
            ≡ elim u as (λ x. Result Socket) [
              | none ↦ err bad_optional_access
              | some uri ↦
                  answer
                    (chosen routes p.request_method uri.parts.path)
                    (if has_method routes p.request_method then not_found else method_not_allowed)
                    chunks
                    p
                    s
            ]
      at_uri none = refl
      at_uri (some uri) = routes_from routes method_not_allowed chunks p uri.parts.path s

  -- The first route with the method of the request and a pattern that its path matches answers it.
  -- Where there is none, what is written is the block of headers of the status NotFound if some route
  -- has the method, and of MethodNotAllowed if none has, and the stream is closed. The errors of
  -- readHeaders are passed on, and a request without a URI is an error too.
  pub run-answer_request :
      (routes : List Route) (chunks : List (List ℕ)) (p : Parser L) (s : Socket)
      → run status_name to_string parse_url lib routes chunks p s
        ≡ (read_headers parse_url lib chunks p >>= λ x. answer_request routes x s)
  unfolding run
  run-answer_request routes chunks p s = answered routes (read_headers parse_url lib chunks p) s
