-- ===== src/Varint/Put.antt =====
-- The shape of what `put` writes.
use mathlib.Core.Logic.{dif_pos, dif_neg}
use mathlib.Core.WellFounded.{Acc}
use native.Mathlib.Decide.{dec_le}
use native.Mathlib.Bridge.{le_prop}
use crouton.Common.{ℕ, zero, suc, ◌/◌, ◌%◌, ◌^◌, ◌≤◌, ◌<◌, arith, length, All}
use crouton.Common.Bits.{IsByte, bit_or-128}
use crouton.Common.Order.{lt_wf}
use crouton.Varint.{IsU64, max_size, put_loop, put, shift_shrinks}

put_loop_shape :
    (k n : ℕ) (w : Acc ◌<◌ n)
    → n < 128 ^ suc k
    → All IsByte (put_loop n w) × (1 ≤ length (put_loop n w)) × (length (put_loop n w) ≤ suc k)
unfolding put_loop
put_loop_shape zero n (Acc.intro _ smaller) h = elim (dec_le 0x80 n) [
  | yes p ↦ absurd (omega arith)
  | no p ↦ rw (dif_neg _ p) (omega arith)
]
put_loop_shape (suc k) n (Acc.intro _ smaller) h = elim (dec_le 0x80 n) [
  | yes p ↦
      let ih = put_loop_shape k (n / 128) (smaller _ (shift_shrinks n p)) (omega arith) in
      rw (dif_pos _ le_prop p)
        ((omega (arith, bit_or-128 (n % 256)), ih.0), omega arith, omega (arith, ih.2))
  | no p ↦ rw (dif_neg _ p) (omega arith)
]

-- On every 64-bit number `put` writes between 1 and `kMaxSize` values, and each is a byte.
pub put_shape :
    (n : ℕ) → IsU64 n → All IsByte (put n) × (1 ≤ length (put n)) × (length (put n) ≤ max_size)
unfolding put
put_shape n h = put_loop_shape 9 n (lt_wf.apply n) (omega arith)
