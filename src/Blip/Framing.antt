-- ===== src/Blip/Framing.antt =====
-- MessageOut::nextFrameToSend with the NullCodec: what one frame of an uncompressed message holds.
use Prim.Native.Nat.{bit_or}
use crouton.Common.{
  ℕ, suc, ◌+◌, ◌-◌, ◌%◌, ◌^◌, ◌≤◌, false, if◌then◌else◌, List, [], ◌∷◌, ◌++◌, ◌≡◌, refl, arith,
  append-nil, length, take, drop, is_empty, drop_all, length-take, length-drop,
}
use crouton.Common.Result.{ok}
use crouton.Blip.{MessageOut, is_ack, compressed, more_coming_flag}
use crouton.Blip.Codec.{raw, null_codec, encode_big, write_raw, null_write, write_checksum}
use crouton.Blip.Outgoing.{write_loop, next_frame_to_send, trim}

module _ (crc32 : ℕ → List ℕ → ℕ) where
  write_loop_empty :
      (k room : ℕ) (out : List ℕ) (s : ℕ)
      → write_loop (null_codec crc32) (suc k) raw [] room out s ≡ ok ([], room, out, s)
  unfolding write_loop
  write_loop_empty k room out s = refl

  -- One round is enough: it empties the data, or fills the room.
  write_loop_data :
      (k room : ℕ) (x : ℕ) (xs : List ℕ) (s : ℕ)
      → 1 ≤ room
      → write_loop (null_codec crc32) (suc (suc k)) raw (x ∷ xs) room [] s
        ≡ ok (
          drop room (x ∷ xs),
          room - length (take room (x ∷ xs)),
          take room (x ∷ xs),
          crc32 s (take room (x ∷ xs)),
        )
  unfolding write_loop null_write write_raw
  write_loop_data k room x xs s h = ground (
    arith,
    append-nil (take room (x ∷ xs)),
    length-take room (x ∷ xs),
    length-drop room (x ∷ xs),
    drop_all room (x ∷ xs),
  )

  -- The bytes that a frame of this size takes from the message, and the message afterwards.
  abbrev pub chunk : ℕ → MessageOut → List ℕ
  chunk room m = take (room - 4) m.unsent_payload

  abbrev pub frame_bytes : ℕ → MessageOut → ℕ → List ℕ
  frame_bytes room m s = chunk room m ++ encode_big (crc32 s (chunk room m))

  abbrev pub rest_of : ℕ → MessageOut → List ℕ
  rest_of room m = drop (room - 4) m.unsent_payload

  abbrev pub frame_flags : ℕ → MessageOut → ℕ
  frame_flags room m =
      if is_empty (rest_of room m) then m.flags else bit_or m.flags more_coming_flag

  abbrev pub after_send : ℕ → MessageOut → ℕ → MessageOut
  after_send room m s = record m {
    unsent_payload = rest_of room m;
    uncompressed_bytes_sent =
        (m.uncompressed_bytes_sent + (length m.unsent_payload - length (rest_of room m))) % 2 ^ 32;
    bytes_sent = (m.bytes_sent + length (frame_bytes room m s)) % 2 ^ 32;
    unacked_bytes = (m.unacked_bytes + length (frame_bytes room m s)) % 2 ^ 32;
  }

  write_loop_raw :
      (room s : ℕ) (u : List ℕ)
      → 1 ≤ room
      → 1 ≤ length u
      → write_loop (null_codec crc32) (suc (length u)) raw u room [] s
        ≡ ok (drop room u, room - length (take room u), take room u, crc32 s (take room u))
  write_loop_raw room s [] h one = absurd (omega arith)
  write_loop_raw room s (x ∷ xs) h one = write_loop_data (length xs) room x xs s h

  pub next_frame_raw :
      (room s : ℕ) (m : MessageOut)
      → 1 ≤ length m.unsent_payload
      → is_ack m ≡ false
      → compressed m ≡ false
      → 5 ≤ room
      → next_frame_to_send (null_codec crc32) room m s
        ≡ ok (frame_bytes room m s, frame_flags room m, after_send room m s, crc32 s (chunk room m))
  unfolding next_frame_to_send trim write_checksum
  next_frame_raw room s m some_left ack plain big =
      ground (arith, write_loop_raw (room - 4) s m.unsent_payload (omega arith) some_left)
