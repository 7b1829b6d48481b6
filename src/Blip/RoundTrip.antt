-- ===== src/Blip/RoundTrip.antt =====
-- A message from its MessageBuilder (io/blip/MessageBuilder.cc), over its frames
-- (io/blip/MessageOut.cc and io/blip/Message.cc), to MessageIn::property.
use crouton.Common.{
  ℕ, suc, ◌≤◌, ◌<◌, ◌^◌, true, List, ◌++◌, ◌≡◌, sym, ap, ◌∙◌, arith, All, length, append_assoc,
}
use crouton.Common.Result.{ok}
use crouton.Varint.{put}
use crouton.Blip.{MessageOut}
use crouton.Blip.Builder.{
  MessageBuilder, new_builder, add_properties, finish_properties, write, finish,
}
use crouton.Blip.Codec.{null_codec}
use crouton.Blip.Incoming.{MessageIn, end, max_properties_size}
use crouton.Blip.Properties.{property}
use crouton.Blip.Reassembly.{IsNew}
use crouton.Blip.Exchange.{transmit, receive_all, capacity}
use crouton.Blip.Delivery.{IsPlain, receive_all-transmit}
use crouton.Blip.Lookup.{
  Pair, encode, first_value, HasNoZero, add_properties_lem, property_loop-encode, encode-IsEnded,
}

write_lem :
    (props body payload : List ℕ) (b1 b2 : MessageBuilder)
    → write body (record new_builder { properties = props }) ≡ ok b1
    → finish b1 ≡ ok (payload, b2)
    → (payload ≡ put (length props) ++ (props ++ body)) × (length props ≤ max_properties_size)
unfolding write finish finish_properties
write_lem props body payload b1 b2 wrote finished =
    (ground (arith, append_assoc (put (length props)) props body), ground arith)

-- The bytes that a builder gives are the size, the properties and the body.
pub built :
    (ps : List Pair) (body payload : List ℕ) (b b1 b2 : MessageBuilder)
    → add_properties ps new_builder ≡ ok b
    → write body b ≡ ok b1
    → finish b1 ≡ ok (payload, b2)
    → (payload ≡ put (length (encode ps)) ++ (encode ps ++ body))
      × (length (encode ps) ≤ max_properties_size)
      × All HasNoZero ps
built ps body payload b b1 b2 added wrote finished =
    let (same, clean) = add_properties_lem ps new_builder b added in
    let (shape, small) =
      write_lem (encode ps) body payload b1 b2 (ap (write body) (sym same) ∙ wrote) finished in
    (shape, small, clean)

property-encode :
    (name : List ℕ) (ps : List Pair)
    → All HasNoZero ps
    → property name (encode ps) ≡ ok (first_value name ps)
unfolding property
property-encode name ps clean =
    property_loop-encode (suc (length (encode ps))) name ps clean (omega arith)

module _ (crc32 : ℕ → List ℕ → ℕ)
    (crc32-append : (s : ℕ) (a b : List ℕ) → crc32 (crc32 s a) b ≡ crc32 s (a ++ b))
    (crc32_bound : (s : ℕ) (a : List ℕ) → crc32 s a < 2 ^ 32) where
  -- Where a builder takes these properties and this body without an error, and the message of its
  -- bytes is not compressed, it is sent in frames of 14 bytes at least with room for all of it, and
  -- a new message receives them, with the same checksum on both sides: then the frames are taken
  -- without an error, the message is complete, its body is the one that was written, and `property`
  -- gives for any name the value of the first property that was added with it, or the empty string.
  pub property-receive_all :
      (fuel s : ℕ) (rooms name body payload : List ℕ) (ps : List Pair) (b b1 b2 : MessageBuilder)
      (m : MessageOut) (r : MessageIn)
      → add_properties ps new_builder ≡ ok b
      → write body b ≡ ok b1
      → finish b1 ≡ ok (payload, b2)
      → IsPlain crc32 crc32-append crc32_bound m
      → m.unsent_payload ≡ payload
      → All (λ room. 14 ≤ room) rooms
      → length payload ≤ capacity rooms
      → IsNew r
      → (frames : List (List ℕ × ℕ)) × (m' : MessageOut) × (r' : MessageIn) × (s' : ℕ) × (transmit
            (null_codec crc32)
            rooms
            m
            s
          ≡ ok (frames, m', s'))
        × (receive_all (null_codec crc32) fuel frames r s ≡ ok (end, r', s'))
        × (r'.complete ≡ true)
        × (property name r'.properties ≡ ok (first_value name ps))
        × (r'.body ≡ body)
  property-receive_all fuel s rooms name body payload ps b b1 b2 m r added wrote finished plain same
        big enough new =
      let (shape, small, clean) = built ps body payload b b1 b2 added wrote finished in
      let (frames, m', r', s', sent, received, empty, complete, props, rest) =
        receive_all-transmit crc32 crc32-append crc32_bound fuel s rooms (encode ps) body m r plain
          big (same ∙ shape) (rw same enough) small (encode-IsEnded ps) new in
      (
        frames,
        m',
        r',
        s',
        sent,
        received,
        complete,
        ap (property name) props ∙ property-encode name ps clean,
        rest,
      )
