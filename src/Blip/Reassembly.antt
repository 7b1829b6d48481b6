-- ===== src/Blip/Reassembly.antt =====
-- MessageIn::receivedFrame with uncompressed frames: what a message holds after each frame.
use crouton.Common.{
  ℕ, ◌-◌, ◌≤◌, ◌<◌, ◌^◌, leb, ltb, ◌==◌, true, false, not, ◌||◌, ◌&&◌, if◌then◌else◌, List, [],
  ◌++◌, ◌≡◌, refl, sym, ap, ◌∙◌, inl, inr, arith, append-nil, length, take, drop, drop_all,
  take_all, take_append, drop_append, take-append-drop, take-append, drop-append, length-take,
  length-append, Bool-cases,
}
use crouton.Common.Result.{Result, ok, ◌>>=◌}
use Prim.Native.Nat.{bit_and, bit_or}
use crouton.Varint.{put}
use crouton.Varint.RoundTrip.{read-put}
use crouton.Varint.Put.{put_shape}
use crouton.Blip.{type_of, error_type, has_flag, more_coming_flag, compressed_flag}
use crouton.Blip.Codec.{
  raw, null_codec, null_write, write_raw, write_all, verify_checksum, encode_big, read_checksum,
  decode_big-encode_big, length-encode_big,
}
use crouton.Blip.Incoming.{
  MessageIn, is_response_in, max_properties_size, ReceiveState, beginning, other, end,
  ends_with_zero, more_properties, start_properties, finish_frame, received_frame,
}

-- The properties and the body that the bytes after the size stand for.
abbrev pub Holds : List ℕ → MessageIn → Type 0
Holds content m =
    (m.properties ≡ take m.properties_size content) × (m.body ≡ drop m.properties_size content)

-- The properties end with a zero byte as soon as they are whole.
abbrev pub IsTerminated : ℕ → List ℕ → Type 0
IsTerminated size content =
    ((size == 0) || not (leb size (length content)) || ends_with_zero (take size content)) ≡ true

-- A message that has not got a frame yet.
abbrev pub IsNew : MessageIn → Type 0
IsNew m = (m.got_properties ≡ false) × (m.properties ≡ []) × (m.body ≡ [])

abbrev pub state_of : ℕ → List ℕ → ReceiveState
state_of size content = if leb size (length content) then beginning else other

module _ (crc32 : ℕ → List ℕ → ℕ)
    (crc32-append : (s : ℕ) (a b : List ℕ) → crc32 (crc32 s a) b ≡ crc32 s (a ++ b)) where
  -- The bytes of a frame that go to the properties.
  abbrev to_properties : List ℕ → List ℕ → MessageIn → List ℕ
  to_properties content bytes m = take (m.properties_size - length content) bytes

  abbrev pub with_content : List ℕ → MessageIn → MessageIn
  with_content content m = record m {
    properties = take m.properties_size content;
    body = drop m.properties_size content;
  }

  more_properties_raw :
      (content bytes : List ℕ) (m : MessageIn) (s : ℕ)
      → m.properties ≡ take m.properties_size content
      → length content < m.properties_size
      → IsTerminated m.properties_size (content ++ bytes)
      → more_properties (null_codec crc32) raw bytes m s
        ≡ ok (
          state_of m.properties_size (content ++ bytes),
          drop (m.properties_size - length content) bytes,
          record m { properties = take m.properties_size (content ++ bytes) },
          crc32 s (take (m.properties_size - length content) bytes),
        )
  unfolding more_properties null_write write_raw
  more_properties_raw content bytes m s held short ended =
      let n = m.properties_size in
      let whole : m.properties ≡ content = held ∙ take_all n content (omega arith) in
      let joined : take n (content ++ bytes) ≡ content ++ take (n - length content) bytes =
        take_append n content bytes
        ∙ ap (λ (c : List ℕ). c ++ take (n - length content) bytes)
            (take_all n content (omega arith)) in
      ground (arith, length-take n (content ++ bytes))

  more_properties_done :
      (bytes : List ℕ) (m : MessageIn) (s : ℕ)
      → m.properties_size ≤ length m.properties
      → more_properties (null_codec crc32) raw bytes m s ≡ ok (beginning, bytes, m, s)
  unfolding more_properties
  more_properties_done bytes m s full = ground arith

  -- What `receivedFrame` does with the bytes of a frame, up to the check of the checksum.
  abbrev absorb : ℕ → ℕ → ℕ → List ℕ → MessageIn → ℕ → Result (ReceiveState × MessageIn × ℕ)
  absorb fuel sum flags bytes m s =
      more_properties (null_codec crc32) raw bytes m s >>= λ (state, rest, m', s').
      write_all (null_codec crc32) fuel raw rest m'.body s' >>= λ (text, s'').
      finish_frame (null_codec crc32) sum flags state (record m' { body = text }) s''

  absorb_lem :
      (fuel sum flags : ℕ) (content bytes : List ℕ) (m : MessageIn) (s : ℕ)
      → Holds content m
      → IsTerminated m.properties_size (content ++ bytes)
      → absorb fuel sum flags bytes m s
        ≡ finish_frame
            (null_codec crc32)
            sum
            flags
            (state_of m.properties_size (content ++ bytes))
            (with_content (content ++ bytes) m)
            (crc32 s bytes)
  unfolding write_all
  absorb_lem fuel sum flags content bytes m s (held, text) ended =
      elim (Bool-cases (ltb (length content) m.properties_size)) [
        | inl short ↦
            let n = m.properties_size in
            let k = n - length content in
            let joined =
              crc32-append s (take k bytes) (drop k bytes)
              ∙ ap (crc32 s) (take-append-drop k bytes) in
            let no_body = drop_all n content (ground arith) in
            rw (more_properties_raw content bytes m s held (ground arith) ended)
              (ground (arith, drop_append n content bytes))
        | inr long ↦
            let n = m.properties_size in
            let full : n ≤ length m.properties = ground (arith, length-take n content) in
            let none_missing : n - length content ≡ 0 = ground arith in
            rw (more_properties_done bytes m s full) (
              ground (
                arith,
                take_append n content bytes,
                drop_append n content bytes,
                append-nil (take n content),
                length-append content bytes,
              ))
      ]

  abbrev pub framed : List ℕ → ℕ → List ℕ
  framed bytes s = bytes ++ encode_big (crc32 s bytes)

  -- A frame without its checksum, and the checksum.
  unframed :
      (bytes : List ℕ) (s : ℕ)
      → (leb 4 (length (framed bytes s)) ≡ true)
        × (length (framed bytes s) - 4 ≡ length bytes)
        × (take (length bytes) (framed bytes s) ≡ bytes)
        × (drop (length bytes) (framed bytes s) ≡ encode_big (crc32 s bytes))
  unframed bytes s =
      let sum = encode_big (crc32 s bytes) in
      let size = length-append bytes sum in
      let four = length-encode_big (crc32 s bytes) in
      (ground arith, omega arith, take-append bytes sum, drop-append bytes sum)

  received_framed :
      (fuel flags : ℕ) (bytes : List ℕ) (m : MessageIn) (s : ℕ)
      → crc32 s bytes < 2 ^ 32
      → has_flag compressed_flag flags ≡ false
      → received_frame (null_codec crc32) fuel (framed bytes s) flags m s ≡ (
          start_properties (null_codec crc32) raw flags bytes m s >>= λ (rest, m', s').
          absorb fuel (crc32 s bytes) flags rest m' s')
  unfolding received_frame read_checksum
  received_framed fuel flags bytes m s small plain =
      let parts = unframed bytes s in
      let sum = decode_big-encode_big (crc32 s bytes) small in
      rw (parts.1, parts.2, parts.3, parts.0, plain, sum)

  start_properties_done :
      (flags : ℕ) (bytes : List ℕ) (m : MessageIn) (s : ℕ)
      → m.got_properties ≡ true
      → start_properties (null_codec crc32) raw flags bytes m s ≡ ok (bytes, m, s)
  unfolding start_properties
  start_properties_done flags bytes m s got = rw got

  -- A message whose first frame's first ten bytes have been read.
  abbrev pub started : ℕ → ℕ → List ℕ → MessageIn → MessageIn
  started flags size dst m = record m {
    properties_size = size;
    properties = take size dst;
    body = drop size dst;
    got_properties = true;
    flags =
        (if is_response_in m && type_of flags == error_type
          then bit_or (bit_and m.flags 0xf8) error_type
          else m.flags);
  }

  start_properties_first :
      (flags size : ℕ) (content : List ℕ) (m : MessageIn) (s : ℕ)
      → IsNew m
      → size ≤ max_properties_size
      → start_properties (null_codec crc32) raw flags (put size ++ content) m s
        ≡ ok (
          drop (10 - length (put size)) content,
          started flags size (take (10 - length (put size)) content) m,
          crc32 s (take 10 (put size ++ content)),
        )
  unfolding start_properties null_write write_raw
  start_properties_first flags size content m s (got, none_yet, empty) small =
      let short = put_shape size (ground arith) in
      let first =
        take_append 10 (put size) content
        ∙ ap (λ (p : List ℕ). p ++ take (10 - length (put size)) content)
            (take_all 10 (put size) short.2) in
      let others =
        drop_append 10 (put size) content
        ∙ ap (λ (p : List ℕ). p ++ drop (10 - length (put size)) content)
            (drop_all 10 (put size) short.2) in
      let number = read-put size (take (10 - length (put size)) content) (ground arith) in
      ground arith

  pub received_next :
      (fuel flags : ℕ) (content bytes : List ℕ) (m : MessageIn) (s : ℕ)
      → crc32 s bytes < 2 ^ 32
      → has_flag compressed_flag flags ≡ false
      → m.got_properties ≡ true
      → Holds content m
      → IsTerminated m.properties_size (content ++ bytes)
      → received_frame (null_codec crc32) fuel (framed bytes s) flags m s
        ≡ finish_frame
            (null_codec crc32)
            (crc32 s bytes)
            flags
            (state_of m.properties_size (content ++ bytes))
            (with_content (content ++ bytes) m)
            (crc32 s bytes)
  received_next fuel flags content bytes m s small plain got held ended =
      received_framed fuel flags bytes m s small plain
      ∙ rw (start_properties_done flags bytes m s got)
          (absorb_lem fuel (crc32 s bytes) flags content bytes m s held ended)

  pub received_first :
      (fuel flags size : ℕ) (content : List ℕ) (m : MessageIn) (s : ℕ)
      → crc32 s (put size ++ content) < 2 ^ 32
      → has_flag compressed_flag flags ≡ false
      → IsNew m
      → size ≤ max_properties_size
      → IsTerminated size content
      → received_frame (null_codec crc32) fuel (framed (put size ++ content) s) flags m s
        ≡ finish_frame
            (null_codec crc32)
            (crc32 s (put size ++ content))
            flags
            (state_of size content)
            (started flags size content m)
            (crc32 s (put size ++ content))
  received_first fuel flags size content m s small plain new fits ended =
      let bytes = put size ++ content in
      let n : ℕ = 10 - length (put size) in
      let short = put_shape size (ground arith) in
      let others : drop 10 bytes ≡ drop n content =
        drop_append 10 (put size) content
        ∙ ap (λ (p : List ℕ). p ++ drop n content) (drop_all 10 (put size) short.2) in
      let sum : crc32 (crc32 s (take 10 bytes)) (drop n content) ≡ crc32 s bytes =
        crc32-append s (take 10 bytes) (drop n content)
        ∙ ap (λ (p : List ℕ). crc32 s (take 10 bytes ++ p)) (sym others)
        ∙ ap (crc32 s) (take-append-drop 10 bytes) in
      let both = take-append-drop n content in
      received_framed fuel flags bytes m s small plain
      ∙ rw (start_properties_first flags size content m s new fits) (
          absorb_lem fuel (crc32 s bytes) flags (take n content) (drop n content)
            (started flags size (take n content) m) (crc32 s (take 10 bytes)) (refl, refl)
            (rw both ended)
          ∙ rw (both, sum))

  pub finish_more :
      (flags : ℕ) (state : ReceiveState) (m : MessageIn) (s : ℕ)
      → has_flag more_coming_flag flags ≡ true
      → finish_frame (null_codec crc32) s flags state m s ≡ ok (state, m, s)
  unfolding finish_frame verify_checksum
  finish_more flags state m s more = ground arith

  pub finish_last :
      (flags size : ℕ) (content : List ℕ) (m : MessageIn) (s : ℕ)
      → has_flag more_coming_flag flags ≡ false
      → size ≤ length content
      → finish_frame (null_codec crc32) s flags (state_of size content) m s
        ≡ ok (end, record m { complete = true }, s)
  unfolding finish_frame verify_checksum
  finish_last flags size content m s last whole = ground arith
