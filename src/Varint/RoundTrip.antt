-- ===== src/Varint/RoundTrip.antt =====
-- `read` after `put`.
use mathlib.Core.Logic.{dif_pos, dif_neg}
use mathlib.Core.WellFounded.{Acc}
use native.Mathlib.Decide.{dec_le}
use native.Mathlib.Bridge.{le_prop}
use native.Mathlib.Nat.{div-add-mod}
use native.Mathlib.Numerals.{towards_suc}
use crouton.Common.{ℕ, zero, suc, ◌+◌, ◌*◌, ◌/◌, ◌%◌, ◌^◌, ◌<◌, ◌≡◌, refl, ap, arith}
use crouton.Common.{some, List, [], ◌∷◌, ◌++◌}
use crouton.Common.Result.{ok}
use crouton.Common.Bits.{bit_and-127, bit_and-128, bit_or-128, bit_or_shifted}
use crouton.Common.Order.{lt_wf}
use crouton.Varint.{IsU64, read_loop, read_partial, read, put_loop, put, shift_shrinks}

pow_seven : (s : ℕ) → 2 ^ (s + 7) ≡ 128 * 2 ^ s
pow_seven s = simp towards_suc (omega arith)

-- One round of the loop, on the last byte and on one with the top bit set over the group `g`.
last_byte :
    (k b n s : ℕ) (rest : List ℕ)
    → b < 128
    → n < 2 ^ s
    → b * 2 ^ s < 2 ^ 64
    → read_loop (suc k) (b ∷ rest) n s ≡ ok (some (n + b * 2 ^ s, rest))
unfolding read_loop
last_byte k b n s rest hb hn fits = ground (arith, bit_and-128 b, bit_or_shifted s n b)

inner_byte :
    (k g n s : ℕ) (rest : List ℕ)
    → g < 128
    → n < 2 ^ s
    → g * 2 ^ s < 2 ^ 64
    → read_loop (suc k) ((g + 128) ∷ rest) n s ≡ read_loop k rest (n + g * 2 ^ s) (s + 7)
unfolding read_loop
inner_byte k g n s rest hg hn fits =
    ground (arith, bit_and-128 (g + 128), bit_and-127 (g + 128), bit_or_shifted s n g)

-- The lowest group of `v` and the rest, both shifted by `s`.
split_group : (v s : ℕ) → v * 2 ^ s ≡ v % 128 * 2 ^ s + v / 128 * 2 ^ (s + 7)
split_group v s = omega (
  arith,
  ap (λ (t : ℕ). t * 2 ^ s) (div-add-mod v 128),
  ap (λ (t : ℕ). v / 128 * t) (pow_seven s),
)

group_fits : (n g s : ℕ) → n < 2 ^ s → g < 128 → n + g * 2 ^ s < 2 ^ (s + 7)
group_fits n g s hn hg = rw pow_seven (grind arith)

read_loop-put_loop :
    (k v n s : ℕ) (w : Acc ◌<◌ v) (rest : List ℕ)
    → v < 128 ^ suc k
    → n < 2 ^ s
    → v * 2 ^ s < 2 ^ 64
    → read_loop (suc k) (put_loop v w ++ rest) n s ≡ ok (some (n + v * 2 ^ s, rest))
unfolding put_loop
read_loop-put_loop zero v n s (Acc.intro _ smaller) rest hv hn fits = elim (dec_le 0x80 v) [
  | yes p ↦ absurd (omega arith)
  | no p ↦ rw (dif_neg _ p) (ground (arith, last_byte 0 v n s rest))
]
read_loop-put_loop (suc k) v n s (Acc.intro _ smaller) rest hv hn fits = elim (dec_le 0x80 v) [
  | yes p ↦ rw (dif_pos _ le_prop p) (
      ground (
        arith,
        bit_or-128 (v % 256),
        split_group v s,
        group_fits n (v % 128) s,
        inner_byte (suc k) (v % 128) n s
            (put_loop (v / 128) (smaller (v / 128) (shift_shrinks v p)) ++ rest),
        read_loop-put_loop k (v / 128) (n + v % 128 * 2 ^ s) (s + 7)
            (smaller (v / 128) (shift_shrinks v p)) rest (omega arith),
      ))
  | no p ↦ rw (dif_neg _ p) (ground (arith, last_byte (suc k) v n s rest))
]

-- The test for an empty input changes nothing: the loop answers `false` there by itself.
pub read_partial-read_loop : (bytes : List ℕ) → read_partial bytes ≡ read_loop 10 bytes 0 0
unfolding read_partial
read_partial-read_loop [] = refl
read_partial-read_loop (b ∷ bytes) = refl

pub read_partial-put :
    (n : ℕ) (rest : List ℕ) → IsU64 n → read_partial (put n ++ rest) ≡ ok (some (n, rest))
unfolding put
read_partial-put n rest h =
    rw read_partial-read_loop
      (ground (arith, read_loop-put_loop 9 n 0 0 (lt_wf.apply n) rest (omega arith)))

-- `read` returns the 64-bit number that `put` wrote, and leaves the bytes that follow it.
pub read-put : (n : ℕ) (rest : List ℕ) → IsU64 n → read (put n ++ rest) ≡ ok (n, rest)
unfolding read
read-put n rest h = rw (read_partial-put n rest h)
