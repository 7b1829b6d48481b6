-- ===== src/Blip/Incoming.antt =====
-- MessageIn of io/blip/Message.cc and include/crouton/io/blip/Message.hh: a message that arrives in
-- frames. The acknowledgement that it may have to send is a result; the Future of the response is a
-- number, and the message resolves it when it is complete. `_in`, `_bodyAsFleece` and
-- `_outgoingSize` are never read.
use Prim.Native.Nat.{bit_and, bit_or}
use crouton.Common.{
  ℕ, ◌+◌, ◌-◌, ◌*◌, ◌%◌, ◌^◌, leb, ltb, ◌==◌, if◌then◌else◌, Bool, true, false, not, ◌&&◌, ◌||◌,
  Option, none, some, List, [], ◌∷◌, ◌++◌, length, take, drop,
}
use crouton.Common.Result.{
  Result, ok, ◌>>=◌, ◌>>◌, guard, invalid_frame, properties_too_large, out_of_bounds,
}
use crouton.Varint.{read, put}
use crouton.Blip.{
  has_flag, type_of, urgent_flag, no_reply_flag, more_coming_flag, compressed_flag, response_type,
  error_type, ack_request_type, ack_response_type,
}
use crouton.Blip.Codec.{
  Codec, Mode, raw, sync_flush, checksum_size, read_checksum, verify_checksum, write_all,
}
use crouton.Blip.Outgoing.{flush_trailer}

pub record MessageIn : Type 0 where
  pub flags : ℕ
  pub number : ℕ
  pub on_response : Option ℕ
  pub raw_bytes_received : ℕ
  pub properties_size : ℕ
  pub unacked_bytes : ℕ
  pub properties : List ℕ
  pub body : List ℕ
  pub got_properties : Bool
  pub complete : Bool
  pub responded : Bool

abbrev pub new_message_in : ℕ → ℕ → Option ℕ → MessageIn
new_message_in flags number on_response = record {
  flags = bit_and flags 0xbf;
  number = number;
  on_response = on_response;
  raw_bytes_received = 0;
  properties_size = 0;
  unacked_bytes = 0;
  properties = [];
  body = [];
  got_properties = false;
  complete = false;
  responded = false;
}

abbrev pub incoming_ack_threshold : ℕ
incoming_ack_threshold = 50000

abbrev pub max_properties_size : ℕ
max_properties_size = 100 * 1024

unfoldable pub is_response_in : MessageIn → Bool
is_response_in m = leb response_type (type_of m.flags)

-- The flags and the data of the acknowledgement to send, if any.
unfoldable pub acknowledge : ℕ → MessageIn → Option (ℕ × List ℕ) × MessageIn
unfolding is_response_in
acknowledge frame_size m =
    let unacked : ℕ = (m.unacked_bytes + frame_size % 2 ^ 32) % 2 ^ 32 in
    let t : ℕ = if is_response_in m then ack_response_type else ack_request_type in
    if leb incoming_ack_threshold unacked
    then (
      some (bit_or (bit_or t urgent_flag) no_reply_flag, put m.raw_bytes_received),
      record m { unacked_bytes = 0 },
    )
    else (none, record m { unacked_bytes = unacked })

-- The first two lines of `receivedFrame`.
unfoldable pub count_frame : List ℕ → MessageIn → Option (ℕ × List ℕ) × MessageIn
unfolding acknowledge
count_frame frame m =
    acknowledge (length frame)
      (record m { raw_bytes_received = (m.raw_bytes_received + length frame) % 2 ^ 64 })

pub data ReceiveState : Type 0 where
  other beginning end : ReceiveState

abbrev pub is_other : ReceiveState → Bool
is_other other = true
is_other _ = false

abbrev pub ends_with_zero : List ℕ → Bool
ends_with_zero [] = false
ends_with_zero (x ∷ []) = x == 0
ends_with_zero (x ∷ (y ∷ rest)) = ends_with_zero (y ∷ rest)

module _ {S : Type 0} (codec : Codec S) where
  -- `if (!_gotProperties)`: the size of the properties, and what else the first ten bytes hold.
  unfoldable pub start_properties :
      Mode → ℕ → List ℕ → MessageIn → S → Result (List ℕ × MessageIn × S)
  unfolding is_response_in
  start_properties mode frame_flags frame m s =
      let start =
        (codec.write mode frame 10 s >>= λ (out, rest, s'). read out >>= λ (size, dst).
        guard (leb size max_properties_size) properties_too_large
        >> ok (
          rest,
          record m {
            properties_size = size;
            properties = m.properties ++ take size dst;
            body = m.body ++ drop size dst;
            got_properties = true;
            flags =
                (if is_response_in m && type_of frame_flags == error_type
                  then bit_or (bit_and m.flags 0xf8) error_type
                  else m.flags);
          },
          s',
        )) in
      if m.got_properties then ok (frame, m, s) else start

  -- The rest of the properties, as far as the frame goes.
  unfoldable pub more_properties :
      Mode → List ℕ → MessageIn → S → Result (ReceiveState × List ℕ × MessageIn × S)
  more_properties mode frame m s =
      let read_more =
        (codec.write mode frame (m.properties_size - length m.properties) s >>= λ (out, rest, s').
        let all = m.properties ++ out in
        let m' = record m { properties = all } in
        if length all == m.properties_size
        then guard (m.properties_size == 0 || ends_with_zero all) invalid_frame
          >> ok (beginning, rest, m', s')
        else ok (other, rest, m', s')) in
      if ltb (length m.properties) m.properties_size then read_more else ok (beginning, frame, m, s)

  -- The end of `receivedFrame`, from the checksum on.
  unfoldable pub finish_frame :
      ℕ → ℕ → ReceiveState → MessageIn → S → Result (ReceiveState × MessageIn × S)
  unfolding verify_checksum
  finish_frame checksum frame_flags state m s =
      verify_checksum codec checksum s
      >> (if has_flag more_coming_flag frame_flags
          then ok (state, m, s)
          else (guard (not (is_other state)) invalid_frame
              >> ok (end, record m { complete = true }, s)))

  abbrev pub frame_mode : ℕ → Mode
  frame_mode frame_flags = if has_flag compressed_flag frame_flags then sync_flush else raw

  -- The frame without its checksum, as it goes through the codec.
  abbrev pub frame_data : Mode → List ℕ → List ℕ
  frame_data raw bytes = bytes
  frame_data sync_flush bytes = bytes ++ flush_trailer

  -- `receivedFrame` after `count_frame`; the fuel is for `writeAll`.
  unfoldable pub received_frame :
      ℕ → List ℕ → ℕ → MessageIn → S → Result (ReceiveState × MessageIn × S)
  unfolding start_properties more_properties write_all finish_frame
  received_frame fuel entire frame_flags m s =
      let mode = frame_mode frame_flags in
      let cut : ℕ = length entire - checksum_size in
      guard (leb checksum_size (length entire)) out_of_bounds
      >> read_checksum (drop cut entire)
      >>= λ checksum.
          start_properties mode frame_flags (frame_data mode (take cut entire)) m s
          >>= λ (rest1, m1, s1). more_properties mode rest1 m1 s1 >>= λ (state, rest2, m2, s2).
              write_all codec fuel mode rest2 m2.body s2 >>= λ (text, s3).
              finish_frame checksum frame_flags state (record m2 { body = text }) s3
