-- ===== src/Varint/Read.antt =====
-- `readPartial` and `read` on any input, well formed or not.
use Prim.Native.Nat.{bit_and, bit_or}
use native.Mathlib.Numerals.{towards_suc}
use crouton.Common.{ℕ, zero, suc, ◌+◌, ◌-◌, ◌*◌, ◌%◌, ◌^◌, ◌≤◌, ◌<◌, ◌≡◌, ◌≢◌, ◌↔◌, refl, arith}
use crouton.Common.{
  Option, none, some, Bool-cases, ◌==◌, inl, inr, List, [], ◌∷◌, ◌++◌, append-nil, length,
  length-append, take, All,
}
use crouton.Common.Result.{Result, ok, err, Error, parse_error}
use crouton.Common.Bits.{IsByte, bit_and-127, bit_or_shifted}
use crouton.Varint.{IsU64, shl64, max_size, read_loop, read_partial, put}
use crouton.Varint.RoundTrip.{read_partial-read_loop, read_partial-put}

-- The flag that says that more bytes follow.
abbrev pub IsContinued : ℕ → Type 0
IsContinued b = bit_and b 0x80 ≢ 0

read_loop-append_some :
    (k : ℕ) (bytes more : List ℕ) (n s v : ℕ) (rest : List ℕ)
    → read_loop k bytes n s ≡ ok (some (v, rest))
    → read_loop k (bytes ++ more) n s ≡ ok (some (v, rest ++ more))
unfolding read_loop
read_loop-append_some zero bytes more n s v rest e = ground arith
read_loop-append_some (suc k) [] more n s v rest e = ground arith
read_loop-append_some (suc k) (b ∷ bytes) more n s v rest e =
    ground (
      arith,
      read_loop-append_some k bytes more (bit_or n (shl64 (bit_and b 0x7f) s)) (s + 7) v rest,
    )

read_loop-append_err :
    (k : ℕ) (bytes more : List ℕ) (n s : ℕ) (e : Error)
    → read_loop k bytes n s ≡ err e
    → read_loop k (bytes ++ more) n s ≡ err e
unfolding read_loop
read_loop-append_err zero bytes more n s e h = ground arith
read_loop-append_err (suc k) [] more n s e h = ground arith
read_loop-append_err (suc k) (b ∷ bytes) more n s e h =
    ground
      (arith, read_loop-append_err k bytes more (bit_or n (shl64 (bit_and b 0x7f) s)) (s + 7) e)

read_loop_prefix :
    (r : Result (Option (ℕ × List ℕ))) (n x : ℕ) (front back : List ℕ)
    → read_loop 10 front 0 0 ≡ r
    → read_loop 10 (front ++ x ∷ back) 0 0 ≡ ok (some (n, []))
    → r ≡ ok none
read_loop_prefix (ok none) n x front back h e = refl
read_loop_prefix (ok (some (v, rest))) n x front back h e =
    let longer = read_loop-append_some 10 front (x ∷ back) 0 0 v rest h in
    ground (arith, longer, length-append rest (x ∷ back))
read_loop_prefix (err c) n x front back h e = cc (read_loop-append_err 10 front (x ∷ back) 0 0 c h)

-- `readPartial` answers `false` on every proper prefix of what `put` writes.
pub read_partial_prefix :
    (n x : ℕ) (front back : List ℕ)
    → IsU64 n
    → put n ≡ front ++ x ∷ back
    → read_partial front ≡ ok none
read_partial_prefix n x front back h e =
    read_loop_prefix (read_partial front) n x front back (rw read_partial-read_loop)
      (rw (append-nil, e, read_partial-read_loop) at (read_partial-put n [] h))

-- The digits of `b` that a shift by 7 * j keeps in 64 bits.
abbrev kept : ℕ → ℕ → ℕ
kept b j = b % 2 ^ (64 - 7 * j)

shl64_field :
    (j b : ℕ)
    → j < 10
    → (shl64 b (7 * j) ≡ kept b j * 2 ^ (7 * j)) × (kept b j * 2 ^ (7 * j) + 2 ^ (7 * j) ≤ 2 ^ 64)
shl64_field zero b h = omega arith
shl64_field (suc zero) b h = omega arith
shl64_field (suc (suc zero)) b h = omega arith
shl64_field (suc (suc (suc zero))) b h = omega arith
shl64_field (suc (suc (suc (suc zero)))) b h = omega arith
shl64_field (suc (suc (suc (suc (suc zero))))) b h = omega arith
shl64_field (suc (suc (suc (suc (suc (suc zero)))))) b h = omega arith
shl64_field (suc (suc (suc (suc (suc (suc (suc zero))))))) b h = omega arith
shl64_field (suc (suc (suc (suc (suc (suc (suc (suc zero)))))))) b h = omega arith
shl64_field (suc (suc (suc (suc (suc (suc (suc (suc (suc zero))))))))) b h = omega arith
shl64_field (suc (suc (suc (suc (suc (suc (suc (suc (suc (suc j)))))))))) b h = absurd (omega arith)

last_fits : (j n b : ℕ) → j < 10 → n < 2 ^ (7 * j) → bit_or n (shl64 b (7 * j)) < 2 ^ 64
last_fits j n b h hn =
    let (kept_eq, fits) = shl64_field j b h in
    rw (kept_eq, bit_or_shifted (7 * j) n (kept b j) hn) (omega arith)

pow_seven : (j : ℕ) → 2 ^ (7 * suc j) ≡ 128 * 2 ^ (7 * j)
pow_seven j = rw (seven j) (simp towards_suc (omega arith))
  where
    seven : (j : ℕ) → 7 * suc j ≡ 7 * j + 7
    seven j = omega arith

group_bound : (n q p : ℕ) → n < p → q < 128 → n + q * p < 128 * p
group_bound n q p hn hq = grind arith

inner_fits :
    (j n b : ℕ) → j < 9 → n < 2 ^ (7 * j) → b < 128 → bit_or n (shl64 b (7 * j)) < 2 ^ (7 * suc j)
inner_fits j n b h hn hb =
    let (kept_eq, fits) = shl64_field j b (omega arith) in
    rw (kept_eq, bit_or_shifted (7 * j) n (kept b j) hn, pow_seven j)
      (group_bound n (kept b j) (2 ^ (7 * j)) hn (grind arith))

seven_more : (j : ℕ) → 7 * j + 7 ≡ 7 * suc j
seven_more j = omega arith

read_loop_bounds :
    (k : ℕ) (bytes : List ℕ) (n j v : ℕ) (rest : List ℕ)
    → k + j ≡ 10
    → n < 2 ^ (7 * j)
    → All IsByte bytes
    → read_loop k bytes n (7 * j) ≡ ok (some (v, rest))
    → IsU64 v × (length rest < length bytes) × (length bytes ≤ length rest + k)
unfolding read_loop
read_loop_bounds zero bytes n j v rest hj hn hb e = cc
read_loop_bounds (suc k) [] n j v rest hj hn hb e = ground arith
read_loop_bounds (suc zero) (b ∷ bytes) n j v rest hj hn (hb, hbs) e =
    ground (arith, last_fits j n b)
read_loop_bounds (suc (suc k)) (b ∷ bytes) n j v rest hj hn (hb, hbs) e =
    elim (Bool-cases (bit_and b 0x80 == 0)) [
      | inl last ↦ ground (arith, last, last_fits j n b)
      | inr more ↦
          let small : bit_and b 0x7f < 128 = omega (arith, bit_and-127 b) in
          let ih =
            read_loop_bounds (suc k) bytes (bit_or n (shl64 (bit_and b 0x7f) (7 * j))) (suc j) v
              rest (omega arith) (inner_fits j n (bit_and b 0x7f) (omega arith) hn small) hbs
              (rw (← seven_more j) (ground arith)) in
          omega (arith, ih)
    ]

-- What `readPartial` accepts is a 64-bit number, in 1 to 10 of the given bytes.
pub read_partial_bounds :
    (bytes : List ℕ) (v : ℕ) (rest : List ℕ)
    → All IsByte bytes
    → read_partial bytes ≡ ok (some (v, rest))
    → IsU64 v × (length rest < length bytes) × (length bytes ≤ length rest + max_size)
read_partial_bounds bytes v rest h e =
    read_loop_bounds 10 bytes 0 0 v rest refl (omega arith) h (rw read_partial-read_loop at e)

read_loop_invalid_iff :
    (k : ℕ) (bytes : List ℕ) (n s : ℕ)
    → (read_loop k bytes n s ≡ err parse_error)
      ↔ ((k ≤ length bytes) × All IsContinued (take k bytes))
unfolding read_loop
read_loop_invalid_iff zero bytes n s = ground arith
read_loop_invalid_iff (suc k) [] n s = ground arith
read_loop_invalid_iff (suc k) (b ∷ bytes) n s =
    ground (arith, read_loop_invalid_iff k bytes (bit_or n (shl64 (bit_and b 0x7f) s)) (s + 7))

read_loop_partial_iff :
    (k : ℕ) (bytes : List ℕ) (n s : ℕ)
    → (read_loop k bytes n s ≡ ok none) ↔ ((length bytes < k) × All IsContinued bytes)
unfolding read_loop
read_loop_partial_iff zero bytes n s = ground arith
read_loop_partial_iff (suc k) [] n s = ground arith
read_loop_partial_iff (suc k) (b ∷ bytes) n s =
    ground (arith, read_loop_partial_iff k bytes (bit_or n (shl64 (bit_and b 0x7f) s)) (s + 7))

-- `readPartial` raises exactly when the input begins with 10 bytes that all have their top bit
-- set, and returns `false` exactly when there are fewer than 10 bytes and all have it set.
pub read_partial_iff :
    (bytes : List ℕ)
    → ((read_partial bytes ≡ err parse_error)
        ↔ ((max_size ≤ length bytes) × All IsContinued (take max_size bytes)))
      × ((read_partial bytes ≡ ok none) ↔ ((length bytes < max_size) × All IsContinued bytes))
read_partial_iff bytes =
    rw read_partial-read_loop
      (read_loop_invalid_iff 10 bytes 0 0, read_loop_partial_iff 10 bytes 0 0)
