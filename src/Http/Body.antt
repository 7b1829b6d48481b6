-- ===== src/Http/Body.antt =====
-- `entireBody` and a loop that reads the stream string by string.
use crouton.Common.{
  if_true, if_false, ℕ, zero, suc, ◌≤◌, if◌then◌else◌, Bool, true, false, not, ◌&&◌, Option, List,
  [], ◌∷◌, ◌++◌, append-nil, length, is_empty, Bool-cases, inl, inr, ◌≡◌, refl, sym, ap, ◌∙◌, arith,
}
use crouton.Common.Result.{
  Error, Result, ok, err, ◌>>=◌, ◌>>◌, guard, Gives, assertion, unexpected_eof,
}
use crouton.Url.{UrlRef}
use crouton.Http.Parser.{
  Llhttp, Parser, parse_data, read_body_loop, read_body, entire_body_loop, entire_body,
}
use crouton.Http.Stays.{parse_data-Gives}

is_empty_nil : (bytes : List ℕ) → is_empty bytes ≡ true → bytes ≡ []
is_empty_nil [] empty = refl
is_empty_nil (x ∷ xs) empty = cc

neither : (a b : Bool) → a ≡ false → (a && not b) ≡ false
neither true b e = cc
neither false b e = refl

neither' : (a b : Bool) → b ≡ true → (a && not b) ≡ false
neither' true true e = refl
neither' false true e = refl
neither' a false e = cc

passes_guard {ℓ} :
    {A : Type ℓ} {r : Result A} (test : Bool) (failure : Error)
    → test ≡ true
    → (guard test failure >> r) ≡ r
passes_guard true failure same = refl
passes_guard false failure same = cc

both : (a b : Bool) → a ≡ true → b ≡ false → (a && not b) ≡ true
both true false e g = refl
both true true e g = cc
both false b e g = cc

module _ {L : Type 0} where
  -- A body that has been taken.
  abbrev pub taken : Parser L → Parser L
  taken p = record p { body = [] }

  taken_empty : (p : Parser L) → is_empty p.body ≡ true → taken p ≡ p
  taken_empty p empty = ap (λ b. record p { body = b }) (sym (is_empty_nil p.body empty))

  module _ (parse_url : List ℕ → Option UrlRef) (lib : Llhttp L) where
    -- The rounds of reading, each until something of the body has come.
    unfoldable pub all_read : List ℕ → List (List ℕ) → Parser L → Result (List ℕ × Parser L)
    all_read entire [] p = parse_data parse_url lib [] p >>= λ (done, p').
        if p'.message_complete then ok (entire ++ p'.body, taken p') else err unexpected_eof
    all_read entire (bytes ∷ chunks) p = parse_data parse_url lib bytes p >>= λ (done, p').
        let later = all_read (entire ++ p'.body) chunks (taken p') in
        if p'.message_complete
        then ok (entire ++ p'.body, taken p')
        else if is_empty bytes
        then err unexpected_eof
        else later

    -- What `entireBody` does with the result of a round of `readBody`.
    collect : ℕ → List ℕ → Result (Parser L × List (List ℕ)) → Result (List ℕ × Parser L)
    collect k entire (err failure) = err failure
    collect k entire (ok (p', chunks')) =
        entire_body_loop parse_url lib k (entire ++ p'.body) chunks' (taken p')

    collect_bind :
        (k : ℕ) (entire : List ℕ) (r : Result (Parser L × List (List ℕ)))
        → (r >>= (λ (p', chunks'). ok (p'.body, (taken p', chunks'))) >>= (λ (part, (p', chunks')).
            entire_body_loop parse_url lib k (entire ++ part) chunks' p'))
          ≡ collect k entire r
    unfolding collect
    collect_bind k entire (err failure) = refl
    collect_bind k entire (ok (p', chunks')) = refl

    round : ℕ → List ℕ → List (List ℕ) → Parser L → Result (List ℕ × Parser L)
    round k entire chunks p = collect k entire (read_body_loop parse_url lib chunks p)

    loop-round :
        (k : ℕ) (entire : List ℕ) (chunks : List (List ℕ)) (p : Parser L)
        → p.has_stream ≡ true
        → p.message_complete ≡ false
        → entire_body_loop parse_url lib (suc k) entire chunks p ≡ round k entire chunks p
    unfolding entire_body_loop read_body round
    loop-round k entire chunks p stream going =
        if_false _ _ p.message_complete going
        ∙ ap
            (λ r. r >>= (λ (part, (p', chunks')).
              entire_body_loop parse_url lib k (entire ++ part) chunks' p'))
            (passes_guard p.has_stream assertion stream)
        ∙ collect_bind k entire (read_body_loop parse_url lib chunks p)

    -- A round that has got something of the body, or has come to the end of the message.
    round_done :
        (k : ℕ) (entire : List ℕ) (chunks : List (List ℕ)) (p : Parser L)
        → (is_empty p.body && not p.message_complete) ≡ false
        → round k entire chunks p
          ≡ entire_body_loop parse_url lib k (entire ++ p.body) chunks (taken p)
    unfolding round read_body_loop
    round_done k entire [] p stops =
        ap (collect k entire) (if_false _ _ (is_empty p.body && not p.message_complete) stops)
        ∙ unfold collect in refl
    round_done k entire (bytes ∷ chunks) p stops =
        ap (collect k entire) (if_false _ _ (is_empty p.body && not p.message_complete) stops)
        ∙ unfold collect in refl

    complete_loop :
        (k : ℕ) (entire : List ℕ) (chunks : List (List ℕ)) (p : Parser L)
        → 1 ≤ k
        → p.message_complete ≡ true
        → entire_body_loop parse_url lib k entire chunks p ≡ ok (entire, p)
    unfolding entire_body_loop
    complete_loop zero entire chunks p enough complete = absurd (omega arith)
    complete_loop (suc k) entire chunks p enough complete = if_true _ _ p.message_complete complete

    collect_choice :
        (k : ℕ) (entire : List ℕ) (chunks : List (List ℕ)) (p : Parser L) (c e : Bool)
        (inner : Result (Parser L × List (List ℕ))) {x y : Result (List ℕ × Parser L)}
        → (c ≡ true → collect k entire (ok (p, chunks)) ≡ x)
        → (e ≡ false → c ≡ true → collect k entire inner ≡ x)
        → (e ≡ false → c ≡ false → collect k entire inner ≡ y)
        → collect k entire (if e then (if c then ok (p, chunks) else err unexpected_eof) else inner)
          ≡ (if c then x else if e then err unexpected_eof else y)
    collect_choice k entire chunks p true true inner one two three = one refl
    collect_choice k entire chunks p true false inner one two three = two refl refl
    collect_choice k entire chunks p false true inner one two three = unfold collect in refl
    collect_choice k entire chunks p false false inner one two three = three refl refl

    all_read-taken :
        (entire : List ℕ) (chunks : List (List ℕ)) (p : Parser L)
        → is_empty p.body ≡ true
        → all_read entire chunks p ≡ all_read (entire ++ p.body) chunks (taken p)
    all_read-taken entire chunks p empty =
        ap (λ e. all_read e chunks p)
          (sym (append-nil entire) ∙ ap (λ b. entire ++ b) (sym (is_empty_nil p.body empty)))
        ∙ ap (all_read (entire ++ p.body) chunks) (sym (taken_empty p empty))

    -- `round` reads as `all_read` does.
    ReadsAlike : List (List ℕ) → Type 0
    ReadsAlike chunks =
        (k : ℕ) (entire : List ℕ) (p : Parser L)
        → suc (length chunks) ≤ k
        → p.has_stream ≡ true
        → is_empty p.body ≡ true
        → p.message_complete ≡ false
        → round k entire chunks p ≡ all_read entire chunks p

    rounds_end :
        (k : ℕ) (entire : List ℕ) (r : Result (Bool × Parser L))
        → 1 ≤ k
        → collect k entire
            (r >>= (λ (done, p'). if p'.message_complete then ok (p', []) else err unexpected_eof))
          ≡ (r >>= λ (done, p').
              if p'.message_complete then ok (entire ++ p'.body, taken p') else err unexpected_eof)
    unfolding collect
    rounds_end k entire (err failure) enough = refl
    rounds_end k entire (ok (done, p')) enough =
        collect_choice k entire [] p' p'.message_complete true (err unexpected_eof)
          {y = err unexpected_eof} (complete_loop k (entire ++ p'.body) [] (taken p') enough)
          (λ e c. cc) (λ e c. cc)

    rounds_more :
        (chunks : List (List ℕ)) (k : ℕ) (entire : List ℕ) (p : Parser L)
        → ReadsAlike chunks
        → suc (length chunks) ≤ k
        → p.has_stream ≡ true
        → p.message_complete ≡ false
        → round (suc k) entire chunks p ≡ all_read (entire ++ p.body) chunks (taken p)
    unfolding ReadsAlike
    rounds_more chunks k entire p later enough stream going = elim (Bool-cases (is_empty p.body)) [
      | inl empty ↦
          later (suc k) entire p (omega arith) stream empty going
          ∙ all_read-taken entire chunks p empty
      | inr some_body ↦
          round_done (suc k) entire chunks p
            (neither (is_empty p.body) p.message_complete some_body)
          ∙ loop-round k (entire ++ p.body) chunks (taken p) stream going
          ∙ later k (entire ++ p.body) (taken p) enough stream refl going
    ]

    rounds_next :
        (bytes : List ℕ) (chunks : List (List ℕ)) (k : ℕ) (entire : List ℕ)
        (r : Result (Bool × Parser L))
        → ReadsAlike chunks
        → suc (length chunks) ≤ k
        → Gives (λ r'. r'.1.has_stream ≡ true) r
        → collect (suc k) entire (
            r >>= λ (done, p').
            let later = read_body_loop parse_url lib chunks p' in
            let at_end = if p'.message_complete then ok (p', chunks) else err unexpected_eof in
            if is_empty bytes then at_end else later)
          ≡ (r >>= λ (done, p').
              let later = all_read (entire ++ p'.body) chunks (taken p') in
              if p'.message_complete
              then ok (entire ++ p'.body, taken p')
              else if is_empty bytes
              then err unexpected_eof
              else later)
    unfolding collect Gives
    rounds_next bytes chunks k entire (err failure) later enough kept = refl
    rounds_next bytes chunks k entire (ok (done, p')) later enough kept =
        collect_choice (suc k) entire chunks p' p'.message_complete (is_empty bytes)
          (read_body_loop parse_url lib chunks p')
          (complete_loop (suc k) (entire ++ p'.body) chunks (taken p') (omega arith))
          (λ e c.
            unfold round in
            round_done (suc k) entire chunks p' (neither' (is_empty p'.body) p'.message_complete c)
            ∙ complete_loop (suc k) (entire ++ p'.body) chunks (taken p') (omega arith) c)
          (λ e c. unfold round in rounds_more chunks k entire p' later enough kept c)

    rounds : (chunks : List (List ℕ)) → ReadsAlike chunks
    unfolding ReadsAlike round read_body_loop all_read
    rounds [] k entire p enough stream empty going =
        ap (collect k entire) (
          if_true _ _ (is_empty p.body && not p.message_complete)
            (both (is_empty p.body) p.message_complete empty going))
        ∙ rounds_end k entire (parse_data parse_url lib [] p) enough
    rounds (bytes ∷ chunks) zero entire p enough stream empty going = absurd (omega arith)
    rounds (bytes ∷ chunks) (suc k) entire p enough stream empty going =
        ap (collect (suc k) entire) (
          if_true _ _ (is_empty p.body && not p.message_complete)
            (both (is_empty p.body) p.message_complete empty going))
        ∙ rounds_next bytes chunks k entire (parse_data parse_url lib bytes p) (rounds chunks)
            (omega arith) (rw (sym stream) (parse_data-Gives parse_url lib bytes p))

    -- What entireBody does, on a parser with a stream: where the message is complete
    -- when it is called it returns the empty string and leaves what has come of the body; else it
    -- takes what has come of the body, and then reads string by string and takes what each brings,
    -- up to the end of the message, and raises UnexpectedEOF if the stream ends before that, and
    -- the errors of parseData. In each case its loops come to an end.
    pub entire_body_lem :
        (chunks : List (List ℕ)) (p : Parser L)
        → p.has_stream ≡ true
        → entire_body parse_url lib chunks p
          ≡ (if p.message_complete then ok ([], p) else all_read p.body chunks (taken p))
    unfolding entire_body
    entire_body_lem chunks p stream = elim (Bool-cases p.message_complete) [
      | inl complete ↦
          complete_loop (suc (suc (suc (length chunks)))) [] chunks p (omega arith) complete
          ∙ sym (if_true _ _ p.message_complete complete)
      | inr going ↦
          loop-round (suc (suc (length chunks))) [] chunks p stream going
          ∙ unfold ReadsAlike in
            rounds_more chunks (suc (length chunks)) [] p (rounds chunks) (omega arith) stream going
            ∙ sym (if_false _ _ p.message_complete going)
    ]
