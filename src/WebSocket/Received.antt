-- ===== src/WebSocket/Received.antt =====
-- What `receive` yields, whatever reads the fragments come in.
use mathlib.Core.Path.{subst}
use crouton.Common.{
  if_true, if_false, ℕ, true, false, not, ◌&&◌, Option, none, List, [], ◌∷◌, ◌++◌, is_empty, inl,
  inr, ◌≡◌, refl, sym, ap, ◌∙◌, map,
}
use crouton.Common.Result.{Error}
use crouton.WebSocket.{
  Message, Fragment, Protocol, WebSocket, close_message, deliver, handle_fragments, receive,
  abnormal, closed_text,
}
use crouton.WebSocket.Pieces.{
  completed, left_over, completed-append, handle_fragments-completed, Cut, whole, fragments_of,
  fragments_of-completed,
}
use crouton.WebSocket.Delivered.{yielded, AtEnd, AtClose, deliver-cases, no_more, goes_further}

module _ {P : Type 0} (protocol : Protocol P) where
  -- The fragments in what is read.
  unfoldable pub fed : P → List (List ℕ) → List Fragment
  fed p [] = []
  fed p (bytes ∷ chunks) =
      let run = protocol.consume bytes p in run.fragments ++ fed run.state chunks

  -- Reads that bring some bytes each, without an error of the framing.
  unfoldable pub IsFine : P → List (List ℕ) → Type 0
  IsFine p [] = Unit
  IsFine p (bytes ∷ chunks) =
      let run = protocol.consume bytes p in
      (is_empty bytes ≡ false) × (run.failed ≡ false) × IsFine run.state chunks

  end_message : Message
  end_message = close_message protocol abnormal closed_text

  Yields : List (List ℕ) → WebSocket P → Type 0
  Yields chunks ws =
      (receive protocol chunks ws).0
      ≡ yielded (ws.incoming ++ completed ws.cur_message (fed ws.parser chunks)) end_message

  after_read :
      (bytes : List ℕ) (chunks : List (List ℕ)) (ws : WebSocket P)
      → ws.incoming ≡ []
      → ((ws' : WebSocket P)
          → ws'.has_stream ≡ ws.has_stream
          → ws'.close_received ≡ ws.close_received
          → ws'.parser ≡ (protocol.consume bytes ws.parser).state
          → Yields chunks ws')
      → (receive protocol chunks (
          handle_fragments
            (protocol.consume bytes ws.parser).fragments
            (record ws { parser = (protocol.consume bytes ws.parser).state }))).0
        ≡ yielded (completed ws.cur_message (fed ws.parser (bytes ∷ chunks))) end_message
  unfolding fed Yields
  after_read bytes chunks ws none_there later =
      let run = protocol.consume bytes ws.parser in
      let ws' : WebSocket P = record ws {
        parser = run.state;
        incoming = ws.incoming ++ completed ws.cur_message run.fragments;
        cur_message = left_over ws.cur_message run.fragments;
      } in
      ap (λ w. (receive protocol chunks w).0)
        (handle_fragments-completed run.fragments (record ws { parser = run.state }))
      ∙ later ws' refl refl refl
      ∙ ap
          (λ q.
            yielded
              ((q ++ completed ws.cur_message run.fragments)
                ++ completed (left_over ws.cur_message run.fragments) (fed run.state chunks))
              end_message)
          none_there
      ∙ ap (λ ms. yielded ms end_message)
          (sym (completed-append ws.cur_message run.fragments (fed run.state chunks)))

  messages_of : List Message × (Option Error × WebSocket P) → List Message
  messages_of x = x.0

  receive-Yields :
      (chunks : List (List ℕ)) (ws : WebSocket P)
      → ws.has_stream ≡ true
      → ws.close_received ≡ false
      → IsFine ws.parser chunks
      → Yields chunks ws
  unfolding Yields receive fed end_message IsFine AtEnd AtClose completed yielded messages_of
  receive-Yields [] ws stream going fine =
      let r = deliver protocol ws.incoming ws in
      elim (deliver-cases protocol ws.incoming ws stream going refl) [
        | inl (s, c, cur, parser, empty, yields) ↦
            ap messages_of (
              if_true _ _ (r.1.has_stream && not r.1.close_received)
                (goes_further r.1.has_stream r.1.close_received s c))
            ∙ sym (yields [] end_message)
        | inr (closed, yields) ↦
            ap messages_of (
              if_false _ _ (r.1.has_stream && not r.1.close_received)
                (no_more r.1.has_stream r.1.close_received closed))
            ∙ sym (yields [] end_message)
      ]
  receive-Yields (bytes ∷ chunks) ws stream going (some_bytes, goes, fine) =
      let r = deliver protocol ws.incoming ws in
      let all = completed ws.cur_message (fed ws.parser (bytes ∷ chunks)) in
      elim (deliver-cases protocol ws.incoming ws stream going refl) [
        | inl (s, c, cur, parser, empty, yields) ↦
            ap messages_of (
              if_true _ _ (r.1.has_stream && not r.1.close_received)
                (goes_further r.1.has_stream r.1.close_received s c))
            ∙ ap messages_of (if_false _ _ (is_empty bytes) some_bytes)
            ∙ ap messages_of (
                if_false _ _ (protocol.consume bytes r.1.parser).failed
                  (ap (λ p. (protocol.consume bytes p).failed) parser ∙ goes))
            ∙ ap (λ ms. r.0 ++ ms)
                (after_read bytes chunks r.1 empty (λ ws' s' c' p'.
                  receive-Yields chunks ws' (s' ∙ s) (c' ∙ c) (
                    subst (λ p. IsFine p chunks)
                      (sym (p' ∙ ap (λ p. (protocol.consume bytes p).state) parser)) fine)))
            ∙ ap (λ q. r.0 ++ yielded (completed q (fed r.1.parser (bytes ∷ chunks))) end_message)
                cur
            ∙ ap
                (λ p.
                  r.0 ++ yielded (completed ws.cur_message (fed p (bytes ∷ chunks))) end_message)
                parser
            ∙ sym (yields all end_message)
        | inr (closed, yields) ↦
            ap messages_of (
              if_false _ _ (r.1.has_stream && not r.1.close_received)
                (no_more r.1.has_stream r.1.close_received closed))
            ∙ sym (yields all end_message)
      ]

  -- Whatever reads the fragments of messages come in, and however each message is cut into fragments
  -- one after the other, `receive` yields just the messages of a text or of bytes in their order, up
  -- to the first Close and with it; where there is none it ends with the Close that says the socket
  -- was closed unexpectedly. The socket is new, each read brings some bytes, and the framing finds
  -- no error and no fragments but those.
  pub receive-fragments_of :
      (chunks : List (List ℕ)) (cuts : List Cut) (ws : WebSocket P)
      → ws.has_stream ≡ true
      → ws.close_received ≡ false
      → ws.incoming ≡ []
      → ws.cur_message ≡ none
      → IsFine ws.parser chunks
      → fed ws.parser chunks ≡ fragments_of cuts
      → (receive protocol chunks ws).0
        ≡ yielded (map whole cuts) (close_message protocol abnormal closed_text)
  unfolding end_message
  receive-fragments_of chunks cuts ws stream going queue cur fine found =
      unfold Yields in
      receive-Yields chunks ws stream going fine
      ∙ ap (λ q. yielded (q ++ completed ws.cur_message (fed ws.parser chunks)) end_message) queue
      ∙ ap (λ c. yielded (completed c (fed ws.parser chunks)) end_message) cur
      ∙ ap (λ fs. yielded (completed none fs) end_message) found
      ∙ ap (λ ms. yielded ms end_message) (fragments_of-completed cuts)
