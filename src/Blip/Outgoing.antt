-- ===== src/Blip/Outgoing.antt =====
-- MessageOut::nextFrameToSend, the class Contents and getPropsAndBody of io/blip/MessageOut.cc: the
-- frames that a message is cut into.
use Prim.Native.Nat.{bit_or}
use crouton.Common.{
  ℕ, zero, suc, ◌+◌, ◌-◌, ◌%◌, ◌^◌, min, leb, ltb, ◌==◌, if◌then◌else◌, Bool, false, ◌&&◌, List, [],
  ◌∷◌, ◌++◌, length, take, drop, is_empty,
}
use crouton.Common.Result.{
  Result, ok, err, ◌>>=◌, ◌>>◌, guard, assertion, invalid_frame, compression_error, out_of_bounds,
  unfinished,
}
use crouton.Varint.{read}
use crouton.Blip.{MessageOut, is_ack, compressed, more_coming_flag, type_of, ack_request_type}
use crouton.Blip.Codec.{Codec, Mode, raw, sync_flush, checksum_size, write_checksum}

-- The bytes that `SyncFlush` ends its output with.
abbrev pub flush_trailer : List ℕ
flush_trailer = 0 ∷ 0 ∷ 0xff ∷ 0xff ∷ []

abbrev pub ends_with_trailer : List ℕ → Bool
ends_with_trailer (a ∷ b ∷ c ∷ d ∷ []) = a == 0 && b == 0 && c == 0xff && d == 0xff
ends_with_trailer _ = false

-- What is sent of the output of a write.
unfoldable pub trim : Mode → List ℕ → Result (List ℕ)
trim raw out = ok out
trim sync_flush out =
    if is_empty out
    then ok out
    else (guard (leb 4 (length out) && ends_with_trailer (drop (length out - 4) out)) assertion
        >> ok (take (length out - 4) out))

module _ {S : Type 0} (codec : Codec S) where
  -- The loop that writes data into the frame: the data and the room that are left, and the output.
  unfoldable pub write_loop : ℕ → Mode → List ℕ → ℕ → List ℕ → S → Result (List ℕ × ℕ × List ℕ × S)
  write_loop zero mode unsent room out s = err unfinished
  write_loop (suc k) mode unsent room out s =
      let written = codec.write mode unsent room s >>= λ (bytes, rest, s').
      let left : ℕ = room - length bytes in
      let more = write_loop k mode rest left (out ++ bytes) s' in
      if leb 1024 left then more else ok (rest, left, out ++ bytes, s') in
      if is_empty unsent then ok (unsent, room, out, s) else written

  abbrev pub mode_of : MessageOut → Mode
  mode_of m = if compressed m then sync_flush else raw

  -- `room` is the size of `dst`. The result is what is written there, the frame's flags, and the
  -- message and the codec as they are left.
  unfoldable pub next_frame_to_send : ℕ → MessageOut → S → Result (List ℕ × ℕ × MessageOut × S)
  unfolding trim write_checksum
  next_frame_to_send room m s =
      let ack = ok (
        take room m.unsent_payload,
        m.flags,
        record m { bytes_sent = (m.bytes_sent + min room (length m.unsent_payload)) % 2 ^ 32 },
        s,
      ) in
      let frame =
        (guard (leb checksum_size room) out_of_bounds
          >> write_loop (suc (length m.unsent_payload)) (mode_of m) m.unsent_payload
              (room - checksum_size) [] s
          >>= λ (rest, left, out, s').
              guard (codec.unflushed_bytes s' == 0) compression_error
              >> trim (mode_of m) out
              >>= λ sent.
                  let bytes = sent ++ write_checksum codec s' in
                  let flags = if is_empty rest then m.flags else bit_or m.flags more_coming_flag in
                  let consumed : ℕ = length m.unsent_payload - length rest in
                  ok (
                    bytes,
                    flags,
                    record m {
                      unsent_payload = rest;
                      uncompressed_bytes_sent = (m.uncompressed_bytes_sent + consumed) % 2 ^ 32;
                      bytes_sent = (m.bytes_sent + length bytes) % 2 ^ 32;
                      unacked_bytes = (m.unacked_bytes + length bytes) % 2 ^ 32;
                    },
                    s',
                  )) in
      if is_ack m then ack else frame

-- `Contents::getPropsAndBody`
unfoldable pub contents_props_and_body : List ℕ → Result (List ℕ × List ℕ)
contents_props_and_body payload =
    if is_empty payload
    then ok ([], [])
    else (read payload >>= λ (size, rest).
        guard (leb size (length rest)) invalid_frame >> ok (take size rest, drop size rest))

unfoldable pub get_props_and_body : MessageOut → Result (List ℕ × List ℕ)
unfolding contents_props_and_body
get_props_and_body m =
    if ltb (type_of m.flags) ack_request_type
    then contents_props_and_body m.payload
    else ok ([], m.payload)
