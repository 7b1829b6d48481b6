-- ===== src/Varint.antt =====
-- src/support/Varint.cc and include/crouton/util/Varint.hh: 64-bit unsigned integers in 1 to 10
-- bytes, seven bits a byte, lowest group first, the top bit set on every byte but the last.
-- A `ConstBytes` is the list of its bytes; a function that moves its start returns the rest.
pub mod Put
pub mod RoundTrip
pub mod Read
mod Examples
use Prim.Native.Nat.{bit_and, bit_or}
use mathlib.Core.Logic.{dite}
use mathlib.Core.WellFounded.{Acc}
use native.Mathlib.Decide.{dec_le}
use crouton.Common.{ℕ, zero, suc, ◌+◌, ◌*◌, ◌/◌, ◌%◌, ◌^◌, ◌≤◌, ◌<◌, ◌==◌, if◌then◌else◌, arith}
use crouton.Common.{Option, none, some, List, [], ◌∷◌, is_empty}
use crouton.Common.Result.{Result, ok, err, parse_error, ◌>>=◌}
use crouton.Common.Order.{lt_wf}

abbrev pub IsU64 : ℕ → Type 0
IsU64 n = n < 2 ^ 64

abbrev pub max_size : ℕ
max_size = 10

-- `uint64_t(b) << shift`
abbrev pub shl64 : ℕ → ℕ → ℕ
shl64 b shift = b * 2 ^ shift % 2 ^ 64

-- The loop of `readPartial`: the count is how many of the `kMaxSize` bytes are still to be looked
-- at. When it is used up the loop has met `kMaxSize` bytes with their top bit set.
pub read_loop : ℕ → List ℕ → ℕ → ℕ → Result (Option (ℕ × List ℕ))
read_loop zero bytes n shift = err parse_error
read_loop (suc k) [] n shift = ok none
read_loop (suc k) (b ∷ bytes) n shift =
    if bit_and b 0x80 == 0
    then ok (some (bit_or n (shl64 b shift), bytes))
    else read_loop k bytes (bit_or n (shl64 (bit_and b 0x7f) shift)) (shift + 7)

-- `ok none` is the result `false`, and `ok (some (n, rest))` is `true` with `*outN` set to `n`.
unfoldable pub read_partial : List ℕ → Result (Option (ℕ × List ℕ))
unfolding read_loop
read_partial bytes = if is_empty bytes then ok none else read_loop max_size bytes 0 0

abbrev complete : Option (ℕ × List ℕ) → Result (ℕ × List ℕ)
complete none = err parse_error
complete (some r) = ok r

unfoldable pub read : List ℕ → Result (ℕ × List ℕ)
unfolding read_partial
read bytes = read_partial bytes >>= complete

pub shift_shrinks : (n : ℕ) → 128 ≤ n → n / 128 < n
shift_shrinks n h = omega arith

-- The bytes that the loop of `put` writes from `n` on.
unfoldable pub put_loop : (n : ℕ) → Acc ◌<◌ n → List ℕ
put_loop n (Acc.intro _ smaller) =
    dite (dec_le 0x80 n)
      (λ h. bit_or (n % 256) 0x80 ∷ put_loop (n / 128) (smaller _ (shift_shrinks n h)))
      (λ _. n % 256 ∷ [])

-- What `put` writes at `dst`; its result is the number of these bytes.
unfoldable pub put : ℕ → List ℕ
unfolding put_loop lt_wf dec_le
put n = put_loop n (lt_wf.apply n)
