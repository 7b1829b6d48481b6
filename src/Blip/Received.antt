-- ===== src/Blip/Received.antt =====
-- What receivedFrame of io/blip/Message.cc leaves as it is, and when it ends a message.
use crouton.Common.{
  ℕ, ◌-◌, ◌==◌, leb, ltb, Bool, true, false, not, ◌||◌, List, ◌++◌, length, take, drop, ◌≡◌, refl,
  sym, ap, ◌∙◌,
}
use crouton.Common.Result.{
  either-Gives, ◌>>◌, guard, Gives, Gives-any, Gives-bind, Gives-guard, Gives-weaken, bad_checksum,
  invalid_frame, properties_too_large, out_of_bounds,
}
use crouton.Varint.{read}
use crouton.Blip.{has_flag, more_coming_flag}
use crouton.Blip.Codec.{Codec, Mode, checksum_size, verify_checksum, read_checksum, write_all}
use crouton.Blip.Incoming.{
  MessageIn, ReceiveState, end, is_other, ends_with_zero, start_properties, more_properties,
  finish_frame, frame_mode, frame_data, received_frame, max_properties_size,
}

-- A message with the number and the Future of another.
unfoldable pub IsSame : MessageIn → MessageIn → Type 0
IsSame m' m = (m'.number ≡ m.number) × (m'.on_response ≡ m.on_response)

abbrev pub is_end : ReceiveState → Bool
is_end end = true
is_end _ = false

-- A frame ends the message if no others come after it, and then the message is complete.
unfoldable pub EndsWith : ℕ → ReceiveState → MessageIn → Type 0
EndsWith flags state m =
    (is_end state ≡ not (has_flag more_coming_flag flags))
    × (is_end state ≡ true → m.complete ≡ true)

module _ {S : Type 0} (codec : Codec S) where
  start_properties-Gives :
      (mode : Mode) (flags : ℕ) (frame : List ℕ) (m : MessageIn) (s : S)
      → Gives (λ r. IsSame r.1 m) (start_properties codec mode flags frame m s)
  unfolding start_properties IsSame Gives
  start_properties-Gives mode flags frame m s =
      either-Gives (λ r. IsSame r.1 m) m.got_properties _ _ (λ got. (refl, refl))
        (λ none_got.
          Gives-any (λ r. IsSame r.1 m) (codec.write mode frame 10 s) _
            (λ w.
              Gives-any (λ r. IsSame r.1 m) (read w.0) _
                (λ x.
                  Gives-guard (λ r. IsSame r.1 m) (leb x.0 max_properties_size) properties_too_large
                    _ (refl, refl))))

  more_properties-Gives :
      (mode : Mode) (frame : List ℕ) (m : MessageIn) (s : S)
      → Gives (λ r. IsSame r.2 m × (is_end r.0 ≡ false)) (more_properties codec mode frame m s)
  unfolding more_properties IsSame Gives
  more_properties-Gives mode frame m s =
      either-Gives Kept (ltb (length m.properties) m.properties_size) _ _
        (λ some_left.
          Gives-any Kept (codec.write mode frame (m.properties_size - length m.properties) s) _
            (λ w.
              either-Gives Kept (length (m.properties ++ w.0) == m.properties_size) _ _
                (λ whole.
                  Gives-guard Kept (m.properties_size == 0 || ends_with_zero (m.properties ++ w.0))
                    invalid_frame _ ((refl, refl), refl))
                (λ partial. ((refl, refl), refl))))
        (λ none_left. ((refl, refl), refl))
    where
      Kept : ReceiveState × List ℕ × MessageIn × S → Type 0
      Kept r = IsSame r.2 m × (is_end r.0 ≡ false)

  finish_frame-Gives :
      (checksum flags : ℕ) (state : ReceiveState) (m : MessageIn) (s : S)
      → is_end state ≡ false
      → Gives
          (λ r. IsSame r.1 m × EndsWith flags r.0 r.1)
          (finish_frame codec checksum flags state m s)
  unfolding finish_frame verify_checksum IsSame EndsWith Gives
  finish_frame-Gives checksum flags state m s begun =
      Gives-guard Done (checksum == codec.checksum s) bad_checksum _ (
        either-Gives Done (has_flag more_coming_flag flags) _ _
          (λ more. ((refl, refl), (begun ∙ sym (ap not more), λ ended. cc)))
          (λ last.
            Gives-guard Done (not (is_other state)) invalid_frame _
              ((refl, refl), (sym (ap not last), λ ended. refl))))
    where
      Done : ReceiveState × MessageIn × S → Type 0
      Done r = IsSame r.1 m × EndsWith flags r.0 r.1

  pub received_frame-Gives :
      (fuel : ℕ) (bytes : List ℕ) (flags : ℕ) (m : MessageIn) (s : S)
      → Gives
          (λ r. IsSame r.1 m × EndsWith flags r.0 r.1)
          (received_frame codec fuel bytes flags m s)
  unfolding received_frame
  received_frame-Gives fuel bytes flags m s =
      let cut : ℕ = length bytes - checksum_size in
      let mode = frame_mode codec flags in
      Gives-any Done
        (guard (leb checksum_size (length bytes)) out_of_bounds >> read_checksum (drop cut bytes)) _
        (λ checksum.
          Gives-bind (λ r. IsSame r.1 m) Done
            (start_properties codec mode flags (frame_data codec mode (take cut bytes)) m s) _
            (start_properties-Gives mode flags (frame_data codec mode (take cut bytes)) m s)
            (λ r1 same1.
              Gives-bind (λ r. IsSame r.2 r1.1 × (is_end r.0 ≡ false)) Done
                (more_properties codec mode r1.0 r1.1 r1.2) _
                (more_properties-Gives mode r1.0 r1.1 r1.2)
                (λ r2 (same2, begun).
                  Gives-any Done (write_all codec fuel mode r2.1 r2.2.body r2.3) _ (λ w.
                    Gives-weaken (λ r. IsSame r.1 r2.2 × EndsWith flags r.0 r.1) Done
                      (finish_frame codec checksum flags r2.0 (record r2.2 { body = w.0 }) w.1)
                      (λ r (same3, ends). (
                        unfold IsSame in (same3.0 ∙ same2.0 ∙ same1.0, same3.1 ∙ same2.1 ∙ same1.1),
                        ends,
                      ))
                      (unfold IsSame in
                        finish_frame-Gives checksum flags r2.0 (record r2.2 { body = w.0 }) w.1
                          begun)))))
    where
      Done : ReceiveState × MessageIn × S → Type 0
      Done r = IsSame r.1 m × EndsWith flags r.0 r.1
