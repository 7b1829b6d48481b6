-- ===== src/Common/Bits/Step.antt =====
-- The native `|` means a recursion on binary digits with fuel. Here the fuel is dropped: one
-- equation for the lowest digit.
use Prim.Native.Nat.{ℕ, zero, suc, ◌+◌, ◌*◌, ◌/◌, ◌%◌, ◌≤◌, max, bit_or, digits, bit_or-bitwise}
use mathlib.Core.Path.{◌≡◌, refl, sym, ◌∙◌}
use native.Mathlib.Omega.{arith}

-- `|` with the fuel as an argument.
abbrev or_on_fuel : ℕ → ℕ → ℕ → ℕ
or_on_fuel fuel x y = digits (λ z. z) max fuel x y

zero_fuel : (y k : ℕ) → or_on_fuel k 0 y ≡ y
zero_fuel y zero = refl
zero_fuel zero (suc k) = refl
zero_fuel (suc y) (suc k) = refl

same_on_fuel : (x y k l : ℕ) → x ≤ l → x ≤ k → or_on_fuel k x y ≡ or_on_fuel l x y
same_on_fuel (suc x) y zero l left right = absurd (omega arith)
same_on_fuel (suc x) y (suc k) zero left right = absurd (omega arith)
same_on_fuel (suc x) zero (suc k) (suc l) left right =
    rw (same_on_fuel (suc x / 2) 0 k l (omega arith) (omega arith))
same_on_fuel (suc x) (suc y) (suc k) (suc l) left right =
    rw (same_on_fuel (suc x / 2) (suc y / 2) k l (omega arith) (omega arith))
same_on_fuel zero y k l left right = zero_fuel y k ∙ sym (zero_fuel y l)

pub zero-bit_or : (y : ℕ) → bit_or 0 y ≡ y
zero-bit_or y = bit_or-bitwise 0 y

pub bit_or_step : (x y : ℕ) → bit_or x y ≡ bit_or (x / 2) (y / 2) * 2 + max (x % 2) (y % 2)
bit_or_step zero y = omega (arith, zero-bit_or y, zero-bit_or (y / 2))
bit_or_step (suc x) y = omega (
  arith,
  bit_or-bitwise (suc x) y,
  bit_or-bitwise (suc x / 2) (y / 2),
  same_on_fuel (suc x / 2) (y / 2) x (suc x / 2) (omega arith) (omega arith),
)
