-- ===== src/Http/Received.antt =====
-- The header fields of a message, as llhttp calls back with them.
use crouton.Common.{ℕ, Option, is_empty, false, List, [], ◌∷◌, ◌++◌, All, ◌≡◌, refl, sym, ap, ◌∙◌}
use crouton.Common.Result.{Result, ok, err, ◌>>=◌, assertion}
use crouton.Url.{UrlRef}
use crouton.Http.{get, add}
use crouton.Http.Fields.{add_fields, values_of, comma_list, get-add_fields}
use crouton.Http.Parser.{
  Event, on_header_field, on_header_value, Parser, add_header, handle_event, handle_events,
}

unfoldable pub field_events : List (List ℕ × List ℕ) → List Event
field_events [] = []
field_events ((name, value) ∷ fields) =
    on_header_field name ∷ (on_header_value value ∷ field_events fields)

module _ {L : Type 0} (parse_url : List ℕ → Option UrlRef) where
  bind_assoc :
      (r : Result (Parser L)) (f g : Parser L → Result (Parser L))
      → (r >>= f >>= g) ≡ (r >>= λ p. f p >>= g)
  bind_assoc (err failure) f g = refl
  bind_assoc (ok p) f g = refl

  handle_events-append :
      (es fs : List Event) (p : Parser L)
      → handle_events parse_url (es ++ fs) p
        ≡ (handle_events parse_url es p >>= λ p'. handle_events parse_url fs p')
  unfolding handle_events
  handle_events-append [] fs p = refl
  handle_events-append (e ∷ es) fs p =
      ap (λ f. handle_event parse_url e p >>= f) (λ i q. handle_events-append es fs q i)
      ∙ sym (
          bind_assoc (handle_event parse_url e p) (handle_events parse_url es)
            (handle_events parse_url fs))

  received :
      (fields : List (List ℕ × List ℕ)) (p : Parser L)
      → All (λ f. is_empty f.0 ≡ false) fields
      → (p' : Parser L) × (handle_events parse_url (field_events fields) p ≡ ok p')
        × (p'.headers ≡ add_fields fields p.headers)
  unfolding handle_events handle_event add_header field_events add_fields
  received [] p named = (p, refl, refl)
  received ((name, value) ∷ fields) p (some_name, named) = rw some_name (
      received fields (record p { cur_header_name = []; headers = add name value p.headers }) named)

  -- Where a parser with no headers is called back with the fields of a header, none with an empty
  -- name, it raises no error, and from then on a name, in any case, finds the values of all its
  -- fields in their order, with commas between them.
  pub get-received :
      (fields : List (List ℕ × List ℕ)) (p : Parser L)
      → p.headers ≡ []
      → All (λ f. is_empty f.0 ≡ false) fields
      → (p' : Parser L) × (handle_events parse_url (field_events fields) p ≡ ok p')
        × ((name : List ℕ) → get name p'.headers ≡ comma_list (values_of name fields))
  get-received fields p new named =
      let (p', done, same) = received fields p named in
      (
        p',
        done,
        λ name. ap (get name) (same ∙ ap (add_fields fields) new) ∙ (get-add_fields name fields).1,
      )

  value_twice :
      (later : List Event) (name part more : List ℕ) (p : Parser L)
      → is_empty name ≡ false
      → handle_events parse_url
          (on_header_field name ∷ (on_header_value part ∷ (on_header_value more ∷ later)))
          p
        ≡ err assertion
  unfolding handle_events handle_event add_header
  value_twice later name part more p named = rw named refl

  -- When a parser, after callbacks that raised no error, is called back with a name that is not
  -- empty, a part of a value and then a further part of that value, as when the value is spread over
  -- two reads, the precondition of addHeader does not hold, whatever comes later.
  pub value_in_parts :
      (es later : List Event) (name part more : List ℕ) (p p' : Parser L)
      → handle_events parse_url es p ≡ ok p'
      → is_empty name ≡ false
      → handle_events parse_url
          (es ++ on_header_field name ∷ (on_header_value part ∷ (on_header_value more ∷ later)))
          p
        ≡ err assertion
  value_in_parts es later name part more p p' done named =
      handle_events-append es
        (on_header_field name ∷ (on_header_value part ∷ (on_header_value more ∷ later))) p
      ∙ ap
          (λ r. r >>= λ q.
            handle_events parse_url
              (on_header_field name ∷ (on_header_value part ∷ (on_header_value more ∷ later))) q)
          done
      ∙ value_twice later name part more p' named
