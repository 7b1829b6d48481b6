-- ===== src/Common/Bits.antt =====
-- Facts about bytes and bit masks: tables over a byte, and `|` of disjoint fields at every width.
mod Step
use Prim.Native.Nat.{ℕ, zero, suc, ◌+◌, ◌*◌, ◌/◌, ◌%◌, ◌^◌, ◌<◌, bit_and, bit_or}
use mathlib.Core.Path.{◌≡◌, refl}
use mathlib.Core.Bool.{Bool, true, ◌&&◌}
use native.Mathlib.Omega.{arith}
use native.Mathlib.Nat.{pow-suc}
use crouton.Common.Tests.{◌==◌, ==_iff}
use Step.{bit_or_step, zero-bit_or}

abbrev pub IsByte : ℕ → Type 0
IsByte b = b < 256

-- The test holds of each number under the bound.
unfoldable pub all_below : ℕ → (ℕ → Bool) → Bool
all_below zero test = true
all_below (suc bound) test = all_below bound test && test bound

all_below-true :
    (test : ℕ → Bool) (i bound : ℕ) → i < bound → all_below bound test ≡ true → test i ≡ true
unfolding all_below
all_below-true test i zero below table = absurd (omega arith)
all_below-true test i (suc bound) below table = ground (arith, all_below-true test i bound)

-- Two functions that agree on a table agree on each number below its size.
pub all_below_agree :
    (f g : ℕ → ℕ) (n : ℕ) → all_below n (λ i. f i == g i) ≡ true → (i : ℕ) → i < n → f i ≡ g i
all_below_agree f g n t i h = (==_iff _ _).0 (all_below-true _ i n h t)

pub bit_and-127 : (b : ℕ) → b < 256 → bit_and b 0x7f ≡ b % 128
unfolding all_below
bit_and-127 = all_below_agree _ _ 256 refl

pub bit_and-128 : (b : ℕ) → b < 256 → bit_and b 0x80 ≡ b / 128 * 128
unfolding all_below
bit_and-128 = all_below_agree _ _ 256 refl

pub bit_or-128 : (b : ℕ) → b < 256 → bit_or b 0x80 ≡ b % 128 + 128
unfolding all_below
bit_or-128 = all_below_agree _ _ 256 refl

next_power : (low high k : ℕ) → low + high * 2 ^ suc k ≡ low + 2 * high * 2 ^ k
next_power low high k = rw (pow-suc 2 k) (omega arith)

halves : (low high k : ℕ) → low < 2 ^ suc k → low / 2 < 2 ^ k
halves low high k fits = omega (arith, pow-suc 2 k)

-- `r | (q << k)` is a sum when `r` fits in `k` bits.
pub bit_or_shifted : (k r q : ℕ) → r < 2 ^ k → bit_or r (q * 2 ^ k) ≡ r + q * 2 ^ k
bit_or_shifted zero low high fits = ground (arith, zero-bit_or high)
bit_or_shifted (suc k) low high fits = ground (
  arith,
  next_power 0 high k,
  bit_or_shifted k (low / 2) high (halves low high k fits),
  bit_or_step low (high * 2 ^ suc k),
)
