-- ===== src/Blip/Codec.antt =====
-- io/blip/Codec.hh and Codec.cc: what messages are written and read through. A codec is an
-- interface over its state; the inflating and the deflating one are zlib's or miniz's, so only the
-- NullCodec, which copies, is a definition. The CRC32 of these libraries is a parameter: the next
-- checksum after a checksum and some bytes.
use crouton.Common.{
  ℕ, zero, suc, ◌+◌, ◌-◌, ◌*◌, ◌/◌, ◌%◌, ◌^◌, min, max, ◌==◌, if◌then◌else◌, ◌&&◌, ltb, List, [],
  ◌∷◌, ◌++◌, length, take, drop, is_empty, ◌<◌, ◌≡◌, arith,
}
use crouton.Common.Result.{
  Result, ok, err, ◌>>=◌, guard, assertion, invalid_frame, bad_checksum, compression_error,
  unfinished,
}

pub data Mode : Type 0 where
  raw sync_flush : Mode

-- `write` takes the input and the room there is for output; its result is the output, the input
-- that is left, and the state.
pub record Codec (S : Type 0) : Type 0 where
  pub write : Mode → List ℕ → ℕ → S → Result (List ℕ × List ℕ × S)
  pub unflushed_bytes : S → ℕ
  pub checksum : S → ℕ
  pub add_to_checksum : List ℕ → S → S

abbrev pub checksum_size : ℕ
checksum_size = 4

-- `encodeBig` and `decodeBig` on 32 bits.
unfoldable pub encode_big : ℕ → List ℕ
encode_big n = n / 2 ^ 24 % 256 ∷ n / 2 ^ 16 % 256 ∷ n / 2 ^ 8 % 256 ∷ n % 256 ∷ []

unfoldable pub decode_big : List ℕ → Result ℕ
decode_big (a ∷ b ∷ c ∷ d ∷ rest) = ok (a * 2 ^ 24 + b * 2 ^ 16 + c * 2 ^ 8 + d)
decode_big _ = err invalid_frame

module _ {S : Type 0} (codec : Codec S) where
  unfoldable pub write_checksum : S → List ℕ
  unfolding encode_big
  write_checksum s = encode_big (codec.checksum s)

  unfoldable pub verify_checksum : ℕ → S → Result (Unit {0})
  verify_checksum expected s = guard (expected == codec.checksum s) bad_checksum

  -- The loop of `writeAll`: the room that is left in the string, the input and the output so far.
  unfoldable pub write_all_loop : ℕ → Mode → ℕ → List ℕ → List ℕ → S → Result (List ℕ × S)
  write_all_loop zero mode room input output s = err unfinished
  write_all_loop (suc k) mode room input output s =
      let space : ℕ = if room == 0 then min (max (4 * length input) 4096) 32768 else room in
      codec.write mode input space s >>= λ (written, rest, s').
      let left : ℕ = space - length written in
      let more = write_all_loop k mode left rest (output ++ written) s' in
      if is_empty rest && ltb 0 left then ok (output ++ written, s') else more

  unfoldable pub write_all : ℕ → Mode → List ℕ → List ℕ → S → Result (List ℕ × S)
  unfolding write_all_loop
  write_all fuel raw input output s = ok (output ++ input, codec.add_to_checksum input s)
  write_all fuel sync_flush input output s = write_all_loop fuel sync_flush 0 input output s

unfoldable pub read_checksum : List ℕ → Result ℕ
unfolding decode_big
read_checksum input = decode_big input

module _ (crc32 : ℕ → List ℕ → ℕ) where
  -- `_writeRaw` and `NullCodec::write`; the state is the checksum.
  unfoldable pub write_raw : List ℕ → ℕ → ℕ → Result (List ℕ × List ℕ × ℕ)
  write_raw input room sum =
      if room == 0
      then err assertion
      else ok (take room input, drop room input, crc32 sum (take room input))

  unfoldable pub null_write : Mode → List ℕ → ℕ → ℕ → Result (List ℕ × List ℕ × ℕ)
  unfolding write_raw
  null_write raw input room sum = write_raw input room sum
  null_write sync_flush input room sum = err compression_error

  abbrev pub null_codec : Codec ℕ
  null_codec = record {
    write = null_write;
    unflushed_bytes = λ _. 0;
    checksum = λ sum. sum;
    add_to_checksum = λ bytes sum. crc32 sum bytes;
  }

pub length-encode_big : (n : ℕ) → length (encode_big n) ≡ 4
unfolding encode_big
length-encode_big n = omega arith

pub decode_big-encode_big : (n : ℕ) → n < 2 ^ 32 → decode_big (encode_big n) ≡ ok n
unfolding decode_big encode_big
decode_big-encode_big n h = ground arith
