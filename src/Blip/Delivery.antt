-- ===== src/Blip/Delivery.antt =====
-- nextFrameToSend of io/blip/MessageOut.cc and receivedFrame of io/blip/Message.cc together: a
-- message that is cut into frames and put together again, through a NullCodec on either side.
use Prim.Native.Nat.{bit_or}
use crouton.Common.{
  ℕ, ◌-◌, ◌≤◌, ◌<◌, ◌^◌, ◌==◌, true, false, ◌||◌, List, [], ◌∷◌, ◌++◌, ◌≡◌, refl, sym, ap, ◌∙◌, inl,
  inr, arith, All, append_assoc, append-nil, length, take, drop, take_all, drop_all, drop_append,
  take-append, drop-append, take_append, take-append-drop, length-drop, length-append, List-cases,
  is_empty,
}
use mathlib.Core.Path.{subst}
use crouton.Common.Result.{ok, ◌>>=◌}
use crouton.Common.Bits.{IsByte}
use crouton.Varint.{put}
use crouton.Varint.Put.{put_shape}
use crouton.Blip.{MessageOut, is_ack, compressed, has_flag, compressed_flag, more_coming_flag}
use crouton.Blip.Codec.{Codec, null_codec}
use crouton.Blip.Incoming.{
  MessageIn, ReceiveState, end, ends_with_zero, received_frame, finish_frame, max_properties_size,
}
use crouton.Blip.Exchange.{more_flags, transmit, receive_all, capacity}
use crouton.Blip.Framing.{chunk, frame_bytes, rest_of, after_send, next_frame_raw}
use crouton.Blip.Reassembly.{
  Holds, state_of, IsTerminated, IsNew, with_content, started, received_next, received_first,
  finish_more, finish_last,
}

module _ (crc32 : ℕ → List ℕ → ℕ)
    (crc32-append : (s : ℕ) (a b : List ℕ) → crc32 (crc32 s a) b ≡ crc32 s (a ++ b))
    (crc32_bound : (s : ℕ) (a : List ℕ) → crc32 s a < 2 ^ 32) where
  abbrev pub Codec0 : Codec ℕ
  Codec0 = null_codec crc32

  -- What is required of the message that is sent.
  abbrev pub IsPlain : MessageOut → Type 0
  IsPlain m =
      (is_ack m ≡ false)
      × (compressed m ≡ false)
      × (has_flag more_coming_flag m.flags ≡ false)
      × IsByte m.flags

  after_send-IsPlain :
      (room s : ℕ) (m : MessageOut) → IsPlain m → IsPlain (after_send crc32 room m s)
  unfolding is_ack compressed
  after_send-IsPlain room s m plain = plain

  -- The message has been sent and received: all its frames.
  abbrev Delivered : ℕ → ℕ → List ℕ → List ℕ → MessageOut → MessageIn → ℕ → Type 0
  Delivered size fuel rooms content m r s =
      (frames : List (List ℕ × ℕ)) × (m' : MessageOut) × (r' : MessageIn) × (s' : ℕ) × (transmit
          Codec0 rooms m s
        ≡ ok (frames, m', s'))
      × (receive_all Codec0 fuel frames r s ≡ ok (end, r', s'))
      × (m'.unsent_payload ≡ [])
      × (r'.complete ≡ true)
      × Holds content r'
      × (r'.properties_size ≡ size)

  transmit_last :
      (room s : ℕ) (rooms : List ℕ) (m : MessageOut)
      → IsPlain m
      → 5 ≤ room
      → 1 ≤ length m.unsent_payload
      → rest_of crc32 room m ≡ []
      → transmit Codec0 (room ∷ rooms) m s
        ≡ ok (
          (frame_bytes crc32 room m s, m.flags) ∷ [],
          after_send crc32 room m s,
          crc32 s (chunk crc32 room m),
        )
  unfolding transmit
  transmit_last room s rooms m (ack, plain, no_more, byte) big some_left none_left =
      rw (next_frame_raw crc32 room s m some_left ack plain big) (ground arith)

  transmit_more :
      (room s x : ℕ) (xs rooms : List ℕ) (m : MessageOut)
      → IsPlain m
      → 5 ≤ room
      → 1 ≤ length m.unsent_payload
      → rest_of crc32 room m ≡ x ∷ xs
      → transmit Codec0 (room ∷ rooms) m s ≡ (
          transmit Codec0 rooms (after_send crc32 room m s) (crc32 s (chunk crc32 room m))
          >>= λ (frames, m', s').
              ok ((frame_bytes crc32 room m s, bit_or m.flags more_coming_flag) ∷ frames, m', s'))
  unfolding transmit
  transmit_more room s x xs rooms m (ack, plain, no_more, byte) big some_left more_left =
      rw (next_frame_raw crc32 room s m some_left ack plain big)
        (ground (arith, more_flags m.flags byte))

  receive_cons :
      (fuel flags : ℕ) (bytes : List ℕ) (frames : List (List ℕ × ℕ)) (r r' : MessageIn) (s s' : ℕ)
      (state : ReceiveState) (result : ReceiveState × MessageIn × ℕ)
      → received_frame Codec0 fuel bytes flags r s ≡ ok (state, r', s')
      → receive_all Codec0 fuel frames r' s' ≡ ok result
      → receive_all Codec0 fuel ((bytes, flags) ∷ frames) r s ≡ ok result
  unfolding receive_all
  receive_cons fuel flags bytes [] r r' s s' state result first others = cc
  receive_cons fuel flags bytes (f ∷ frames) r r' s s' state result first others = rw first others

  -- The frame of this size, with these flags, gives the receiver these bytes after the size.
  abbrev Took : ℕ → ℕ → ℕ → List ℕ → ℕ → MessageOut → MessageIn → MessageIn → ℕ → Type 0
  Took fuel flags room content size m r r' s =
      (received_frame Codec0 fuel (frame_bytes crc32 room m s) flags r s
        ≡ finish_frame Codec0 (crc32 s (chunk crc32 room m)) flags (state_of size content) r'
            (crc32 s (chunk crc32 room m)))
      × Holds content r'
      × (r'.properties_size ≡ size)

  -- One frame is sent and received; where it is not the last, the others have to be delivered.
  deliver_step :
      (fuel room size s : ℕ) (rooms content all : List ℕ) (m : MessageOut) (r r1 r2 : MessageIn)
      → IsPlain m
      → 5 ≤ room
      → 1 ≤ length m.unsent_payload
      → Took fuel m.flags room content size m r r1 s
      → Took fuel (bit_or m.flags more_coming_flag) room content size m r r2 s
      → content ++ rest_of crc32 room m ≡ all
      → size ≤ length all
      → (1 ≤ length (rest_of crc32 room m)
          → Delivered size fuel rooms all
              (after_send crc32 room m s)
              r2
              (crc32 s (chunk crc32 room m)))
      → Delivered size fuel (room ∷ rooms) all m r s
  unfolding receive_all
  deliver_step fuel room size s rooms content all m r r1 r2 plain big some_left
        (took1, held1, size1) (took2, held2, size2) whole fits others =
      elim (List-cases (rest_of crc32 room m)) [
        | inl none_left ↦
            let complete : content ≡ all =
              sym (append-nil content)
              ∙ ap (λ (x : List ℕ). content ++ x) (sym none_left)
              ∙ whole in
            (
              (frame_bytes crc32 room m s, m.flags) ∷ [],
              after_send crc32 room m s,
              record r1 { complete = true },
              crc32 s (chunk crc32 room m),
              transmit_last room s rooms m plain big some_left none_left,
              took1
                  ∙ finish_last crc32 crc32-append m.flags size content r1
                      (crc32 s (chunk crc32 room m)) plain.2 (rw complete fits),
              none_left,
              refl,
              subst (λ c. Holds c (record r1 { complete = true })) complete held1,
              size1,
            )
        | inr (x, xs, more_left) ↦
            let (frames, m', r', s', sent, received, empty, complete, held, same) =
              others (rw more_left (omega arith)) in
            let flags = bit_or m.flags more_coming_flag in
            let bits = more_flags m.flags plain.3 in
            (
              (frame_bytes crc32 room m s, flags) ∷ frames,
              m',
              r',
              s',
              transmit_more room s x xs rooms m plain big some_left more_left ∙ rw sent,
              receive_cons fuel flags (frame_bytes crc32 room m s) frames r r2 s
                  (crc32 s (chunk crc32 room m)) (state_of size content) (end, r', s')
                  (took2
                    ∙ finish_more crc32 crc32-append flags (state_of size content) r2
                        (crc32 s (chunk crc32 room m)) bits.0)
                  received,
              empty,
              complete,
              held,
              same,
            )
      ]

  IsTerminated-front :
      (size : ℕ) (front back all : List ℕ)
      → front ++ back ≡ all
      → ((size == 0) || ends_with_zero (take size all)) ≡ true
      → IsTerminated size front
  IsTerminated-front size front back all whole ended =
      ground
        (arith, take_append size front back, append-nil (take size front), ap (take size) whole)

  terminated_all :
      (properties body : List ℕ)
      → (is_empty properties || ends_with_zero properties) ≡ true
      → ((length properties == 0) || ends_with_zero (take (length properties) (properties ++ body)))
        ≡ true
  terminated_all [] body ended = refl
  terminated_all (x ∷ xs) body ended = ground (arith, take-append (x ∷ xs) body)

  deliver_rest :
      (fuel s : ℕ) (rooms content all : List ℕ) (m : MessageOut) (r : MessageIn)
      → IsPlain m
      → All (λ room. 14 ≤ room) rooms
      → 1 ≤ length m.unsent_payload
      → length m.unsent_payload ≤ capacity rooms
      → r.got_properties ≡ true
      → Holds content r
      → content ++ m.unsent_payload ≡ all
      → r.properties_size ≤ length all
      → ((r.properties_size == 0) || ends_with_zero (take r.properties_size all)) ≡ true
      → Delivered r.properties_size fuel rooms all m r s
  unfolding capacity compressed
  deliver_rest fuel s [] content all m r plain big some_left enough got held whole fits ended =
      absurd (omega arith)
  deliver_rest fuel s (room ∷ rooms) content all m r plain (big, others_big) some_left enough got
        held whole fits ended =
      let bytes = chunk crc32 room m in
      let sum = crc32 s bytes in
      let n = r.properties_size in
      let next = content ++ bytes in
      let whole' : next ++ rest_of crc32 room m ≡ all =
        append_assoc content bytes (rest_of crc32 room m)
        ∙ ap (λ (x : List ℕ). content ++ x) (take-append-drop (room - 4) m.unsent_payload)
        ∙ whole in
      let ended' = IsTerminated-front n next (rest_of crc32 room m) all whole' ended in
      let bits = more_flags m.flags plain.3 in
      let took = λ (f : ℕ) (e : has_flag compressed_flag f ≡ false).
        received_next crc32 crc32-append fuel f content bytes r s (crc32_bound s bytes) e got held
          ended' in
      deliver_step fuel room n s rooms next all m r (with_content crc32 crc32-append next r)
        (with_content crc32 crc32-append next r) plain (omega arith) some_left
        (took m.flags plain.1, (refl, refl), refl)
        (took (bit_or m.flags more_coming_flag) (bits.1 ∙ plain.1), (refl, refl), refl) whole' fits
        (λ h.
          deliver_rest fuel sum rooms next all (after_send crc32 room m s)
            (with_content crc32 crc32-append next r) (after_send-IsPlain room s m plain) others_big
            h (omega (arith, length-drop (room - 4) m.unsent_payload)) got (refl, refl) whole' fits
            ended)

  deliver_first :
      (fuel s : ℕ) (rooms properties body : List ℕ) (m : MessageOut) (r : MessageIn)
      → IsPlain m
      → All (λ room. 14 ≤ room) rooms
      → m.unsent_payload ≡ put (length properties) ++ (properties ++ body)
      → length m.unsent_payload ≤ capacity rooms
      → length properties ≤ max_properties_size
      → (is_empty properties || ends_with_zero properties) ≡ true
      → IsNew r
      → Delivered (length properties) fuel rooms (properties ++ body) m r s
  unfolding capacity compressed
  deliver_first fuel s [] properties body m r plain big sends enough small ended new = absurd (
      omega (
        arith,
        ap length sends,
        length-append (put (length properties)) (properties ++ body),
        put_shape (length properties) (omega arith),
      ))
  deliver_first fuel s (room ∷ rooms) properties body m r plain (big, others_big) sends enough small
        ended new =
      let size = length properties in
      let all = properties ++ body in
      let bytes = chunk crc32 room m in
      let sum = crc32 s bytes in
      let short = put_shape size (omega arith) in
      let k : ℕ = room - 4 - length (put size) in
      let content = take k all in
      let cut : bytes ≡ put size ++ content =
        ap (take (room - 4)) sends
        ∙ take_append (room - 4) (put size) all
        ∙ ap (λ (x : List ℕ). x ++ content) (take_all (room - 4) (put size) (omega arith)) in
      let left : rest_of crc32 room m ≡ drop k all =
        ap (drop (room - 4)) sends
        ∙ drop_append (room - 4) (put size) all
        ∙ ap (λ (x : List ℕ). x ++ drop k all) (drop_all (room - 4) (put size) (omega arith)) in
      let whole : content ++ rest_of crc32 room m ≡ all =
        ap (λ (x : List ℕ). content ++ x) left ∙ take-append-drop k all in
      let fits : size ≤ length all = omega (arith, length-append properties body) in
      let ended' : ((size == 0) || ends_with_zero (take size all)) ≡ true =
        terminated_all properties body ended in
      let term = IsTerminated-front size content (rest_of crc32 room m) all whole ended' in
      let bits = more_flags m.flags plain.3 in
      let took : (f : ℕ)
          → has_flag compressed_flag f ≡ false
          → Took fuel f room content size m r (started crc32 crc32-append f size content r) s =
        λ f e. (
          rw cut (
              received_first crc32 crc32-append fuel f size content r s
                (crc32_bound s (put size ++ content)) e new small term),
          (refl, refl),
          refl,
        ) in
      let second = bit_or m.flags more_coming_flag in
      let r2 = started crc32 crc32-append second size content r in
      deliver_step fuel room size s rooms content all m r
        (started crc32 crc32-append m.flags size content r) r2 plain (omega arith)
        (omega (arith, ap length sends, length-append (put size) all)) (took m.flags plain.1)
        (took second (bits.1 ∙ plain.1)) whole fits
        (λ h.
          deliver_rest fuel sum rooms content all (after_send crc32 room m s) r2
            (after_send-IsPlain room s m plain) others_big h
            (omega (arith, length-drop (room - 4) m.unsent_payload)) refl (refl, refl) whole fits
            ended')

  in_parts :
      (fuel s : ℕ) (rooms properties body : List ℕ) (m : MessageOut) (r : MessageIn)
      → Delivered (length properties) fuel rooms (properties ++ body) m r s
      → (frames : List (List ℕ × ℕ)) × (m' : MessageOut) × (r' : MessageIn) × (s' : ℕ) × (transmit
            Codec0 rooms m s
          ≡ ok (frames, m', s'))
        × (receive_all Codec0 fuel frames r s ≡ ok (end, r', s'))
        × (m'.unsent_payload ≡ [])
        × (r'.complete ≡ true)
        × (r'.properties ≡ properties)
        × (r'.body ≡ body)
  in_parts fuel s rooms properties body m r
        (frames, m', r', s', sent, received, empty, complete, held, same) =
      (
        frames,
        m',
        r',
        s',
        sent,
        received,
        empty,
        complete,
        held.0 ∙ ap (λ (n : ℕ). take n (properties ++ body)) same ∙ take-append properties body,
        held.1 ∙ ap (λ (n : ℕ). drop n (properties ++ body)) same ∙ drop-append properties body,
      )

  -- A message that is not compressed is delivered: where its data are a size, that many bytes of
  -- properties, which end with a zero byte if there are any and fit the limit, and a body, and the
  -- receiving message is new, and both codecs have the same checksum; whatever the sizes of its
  -- frames, if each has 14 bytes at least and all together have the room. nextFrameToSend then gives
  -- frames until nothing is left, and receivedFrame takes them without an error, ends with the last
  -- one, and leaves a complete message with these properties and this body.
  pub receive_all-transmit :
      (fuel s : ℕ) (rooms properties body : List ℕ) (m : MessageOut) (r : MessageIn)
      → IsPlain m
      → All (λ room. 14 ≤ room) rooms
      → m.unsent_payload ≡ put (length properties) ++ (properties ++ body)
      → length m.unsent_payload ≤ capacity rooms
      → length properties ≤ max_properties_size
      → (is_empty properties || ends_with_zero properties) ≡ true
      → IsNew r
      → (frames : List (List ℕ × ℕ)) × (m' : MessageOut) × (r' : MessageIn) × (s' : ℕ) × (transmit
            Codec0 rooms m s
          ≡ ok (frames, m', s'))
        × (receive_all Codec0 fuel frames r s ≡ ok (end, r', s'))
        × (m'.unsent_payload ≡ [])
        × (r'.complete ≡ true)
        × (r'.properties ≡ properties)
        × (r'.body ≡ body)
  receive_all-transmit fuel s rooms properties body m r plain big sends enough small ended new =
      in_parts fuel s rooms properties body m r
        (deliver_first fuel s rooms properties body m r plain big sends enough small ended new)
