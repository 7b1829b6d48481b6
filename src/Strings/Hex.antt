-- ===== src/Strings/Hex.antt =====
-- hexString, decodeHexString and equalIgnoringCase of support/StringUtils.cc.
use Prim.Native.Nat.{bit_or, bit_and}
use crouton.Common.{ℕ, ◌*◌, ◌/◌, ◌%◌, ◌<◌, ◌^◌, List, [], ◌∷◌, ◌≡◌, refl, All}
use crouton.Common.Bits.{IsByte, all_below, all_below_agree}
use crouton.Strings.{digit, hex_digit_to_int, hex_string, decode_hex_string}

digits_decode :
    (b : ℕ)
    → b < 256
    → bit_or
          (hex_digit_to_int (digit (b / 2 ^ 4)) * 2 ^ 4 % 2 ^ 32)
          (hex_digit_to_int (digit (bit_and b 0xf)))
        % 256
      ≡ b
unfolding all_below hex_digit_to_int
digits_decode = all_below_agree _ (λ b. b) 256 refl

-- What hexString gives for bytes, decodeHexString gives back.
pub decode_hex_string-hex_string :
    (bytes : List ℕ) → All IsByte bytes → decode_hex_string (hex_string bytes) ≡ bytes
unfolding decode_hex_string hex_string
decode_hex_string-hex_string [] all_bytes = refl
decode_hex_string-hex_string (b ∷ bytes) (byte, others) =
    rw (digits_decode b byte, decode_hex_string-hex_string bytes others) refl
