-- ===== src/Blip/Runs.antt =====
-- A message over two frames, on concrete bytes; the checksum is the sum of the bytes.
use crouton.Common.{
  ℕ, ◌+◌, ◌<◌, ◌^◌, ◌%◌, true, none, List, [], ◌∷◌, ◌++◌, ◌≡◌, refl, arith, map, length,
}
use crouton.Common.Result.{Result, ok, err}
use crouton.Varint.{put, put_loop}
use crouton.Blip.{MessageOut, is_ack, compressed, has_flag}
use crouton.Blip.Builder.{
  MessageBuilder, new_builder, add_properties, add_property, write_tokenized_string,
  finish_properties, write, finish,
}
use crouton.Blip.Codec.{null_codec, null_write}
use crouton.Blip.Outgoing.{next_frame_to_send, write_loop}
use crouton.Blip.Incoming.{MessageIn, new_message_in, end}
use crouton.Strings.{same_string}
use crouton.Blip.Properties.{property}
use crouton.Blip.Exchange.{transmit, receive_all, capacity}
use crouton.Blip.Lookup.{Pair, first_value}
use crouton.Blip.Delivery.{receive_all-transmit}
use crouton.Blip.RoundTrip.{property-receive_all}

sum : List ℕ → ℕ
sum [] = 0
sum (x ∷ xs) = x + sum xs

sum-append : (a b : List ℕ) → sum (a ++ b) ≡ sum a + sum b
unfolding sum
sum-append [] b = omega arith
sum-append (x ∷ a) b = omega (arith, sum-append a b)

abbrev check : ℕ → List ℕ → ℕ
check s a = (s + sum a) % 2 ^ 32

check-append : (s : ℕ) (a b : List ℕ) → check (check s a) b ≡ check s (a ++ b)
check-append s a b = omega (arith, sum-append a b)

check_bound : (s : ℕ) (a : List ℕ) → check s a < 2 ^ 32
check_bound s a = omega arith

-- Two properties with the names "a" and "bc", and the first name again.
abbrev pairs : List Pair
pairs = (97 ∷ [], 1 ∷ 2 ∷ []) ∷ (98 ∷ 99 ∷ [], 3 ∷ []) ∷ (97 ∷ [], 4 ∷ []) ∷ []

abbrev encoded : List ℕ
encoded = 97 ∷ 0 ∷ 1 ∷ 2 ∷ 0 ∷ 98 ∷ 99 ∷ 0 ∷ 3 ∷ 0 ∷ 97 ∷ 0 ∷ 4 ∷ 0 ∷ []

abbrev message_body : List ℕ
message_body = 200 ∷ 201 ∷ 202 ∷ 203 ∷ 204 ∷ []

abbrev message_payload : List ℕ
message_payload = 14 ∷ (encoded ++ message_body)

abbrev filled_builder : MessageBuilder
filled_builder = record new_builder { properties = encoded }

abbrev written : MessageBuilder
written = record filled_builder { out = message_payload; wrote_properties = true }

abbrev outgoing : MessageOut
outgoing = record {
  address = 1;
  flags = 0x10;
  number = 1;
  bytes_sent = 0;
  unacked_bytes = 0;
  on_response = none;
  payload = message_payload;
  unsent_payload = message_payload;
  uncompressed_bytes_sent = 0;
}

abbrev incoming : MessageIn
incoming = new_message_in 0x10 1 none

abbrev rooms : List ℕ
rooms = 14 ∷ 14 ∷ 14 ∷ []

receive_all-transmit_example :
    (frames : List (List ℕ × ℕ)) × (m' : MessageOut) × (r' : MessageIn) × (s' : ℕ) × (transmit
        (null_codec check)
        rooms
        outgoing
        7
      ≡ ok (frames, m', s'))
    × (receive_all (null_codec check) 5 frames incoming 7 ≡ ok (end, r', s'))
    × (m'.unsent_payload ≡ [])
    × (r'.complete ≡ true)
    × (r'.properties ≡ encoded)
    × (r'.body ≡ message_body)
unfolding is_ack compressed has_flag capacity put put_loop
receive_all-transmit_example =
    receive_all-transmit check check-append check_bound 5 7 rooms encoded message_body outgoing
      incoming (refl, refl, refl, omega arith) (omega arith, (omega arith, (omega arith, tt))) refl
      (omega arith) (omega arith) refl (refl, refl, refl)

property-receive_all_example :
    (frames : List (List ℕ × ℕ)) × (m' : MessageOut) × (r' : MessageIn) × (s' : ℕ) × (transmit
        (null_codec check)
        rooms
        outgoing
        7
      ≡ ok (frames, m', s'))
    × (receive_all (null_codec check) 5 frames incoming 7 ≡ ok (end, r', s'))
    × (r'.complete ≡ true)
    × (property (97 ∷ []) r'.properties ≡ ok (1 ∷ 2 ∷ []))
    × (r'.body ≡ message_body)
unfolding is_ack compressed has_flag capacity put put_loop add_properties add_property
    write_tokenized_string write finish finish_properties first_value same_string
property-receive_all_example =
    property-receive_all check check-append check_bound 5 7 rooms (97 ∷ []) message_body
      message_payload pairs filled_builder written written outgoing incoming refl refl refl
      (refl, refl, refl, omega arith) refl (omega arith, (omega arith, (omega arith, tt)))
      (omega arith) (refl, refl, refl)

abbrev sizes : Result (List (List ℕ × ℕ) × MessageOut × ℕ) → List (ℕ × ℕ)
sizes r = elim r [
  | ok (frames, m, s) ↦ map (λ (bytes, flags). (length bytes, flags)) frames
  | err e ↦ []
]

-- The lengths of the frames and their flags; the properties of the message go over two of them.
transmitted : sizes (transmit (null_codec check) rooms outgoing 7) ≡ (14, 0x50) ∷ (14, 0x10) ∷ []
unfolding transmit next_frame_to_send write_loop null_write is_ack compressed
transmitted = refl
