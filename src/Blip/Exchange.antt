-- ===== src/Blip/Exchange.antt =====
-- nextFrameToSend of io/blip/MessageOut.cc and receivedFrame of io/blip/Message.cc, called for the
-- frames of one message.
use Prim.Native.Nat.{bit_and, bit_or}
use crouton.Common.{ℕ, ◌+◌, ◌-◌, ◌<◌, true, if◌then◌else◌, List, [], ◌∷◌, ◌≡◌, refl, arith}
use crouton.Common.Result.{Result, ok, err, assertion, ◌>>=◌}
use crouton.Common.Bits.{IsByte, all_below, all_below_agree}
use crouton.Blip.{MessageOut, has_flag, compressed_flag, more_coming_flag}
use crouton.Blip.Codec.{Codec}
use crouton.Blip.Outgoing.{next_frame_to_send}
use crouton.Blip.Incoming.{MessageIn, ReceiveState, received_frame}

keeps_compressed : (b : ℕ) → b < 256 → bit_and (bit_or b 0x40) 0x08 ≡ bit_and b 0x08
unfolding all_below
keeps_compressed = all_below_agree _ _ 256 refl

sets_more : (b : ℕ) → b < 256 → bit_and (bit_or b 0x40) 0x40 ≡ 0x40
unfolding all_below
sets_more = all_below_agree _ _ 256 refl

-- The flags of a frame, of a message whose own flags do not say that more is coming.
pub more_flags :
    (flags : ℕ)
    → IsByte flags
    → (has_flag more_coming_flag (bit_or flags more_coming_flag) ≡ true)
      × (has_flag compressed_flag (bit_or flags more_coming_flag) ≡ has_flag compressed_flag flags)
unfolding has_flag
more_flags flags byte = ground (arith, keeps_compressed flags byte, sets_more flags byte)

module _ {S : Type 0} (codec : Codec S) where
  -- Frames of the given sizes, as long as the last one says that more is coming.
  unfoldable pub transmit : List ℕ → MessageOut → S → Result (List (List ℕ × ℕ) × MessageOut × S)
  transmit [] m s = ok ([], m, s)
  transmit (room ∷ rooms) m s = next_frame_to_send codec room m s >>= λ (bytes, flags, m', s').
      let others =
        transmit rooms m' s' >>= λ (frames, m'', s''). ok ((bytes, flags) ∷ frames, m'', s'') in
      if has_flag more_coming_flag flags then others else ok ((bytes, flags) ∷ [], m', s')

  -- The frames, received one after another; the result is that of the last.
  unfoldable pub receive_all :
      ℕ → List (List ℕ × ℕ) → MessageIn → S → Result (ReceiveState × MessageIn × S)
  receive_all fuel [] m s = err assertion
  receive_all fuel ((bytes, flags) ∷ []) m s = received_frame codec fuel bytes flags m s
  receive_all fuel ((bytes, flags) ∷ (f ∷ frames)) m s =
      received_frame codec fuel bytes flags m s >>= λ (_, m', s').
      receive_all fuel (f ∷ frames) m' s'

-- The room there is for data in frames of the given sizes.
unfoldable pub capacity : List ℕ → ℕ
capacity [] = 0
capacity (room ∷ rooms) = (room - 4) + capacity rooms
