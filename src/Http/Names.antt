-- ===== src/Http/Names.antt =====
-- Headers whose names differ only in case are the same header.
use crouton.Common.{
  ℕ, ◌==◌, if◌then◌else◌, Bool, true, false, ◌&&◌, List, [], ◌∷◌, length, ◌≡◌, refl, sym, ap, ◌∙◌,
  arith, ==_iff, suc, Bool-cases, inl, inr,
}
use crouton.Strings.{
  to_lower, to_upper, is_alphanumeric, same_string, equal_loop, equal_ignoring_case,
}
use crouton.Http.{canonical_loop, canonical_name}

to_lower-to_upper : (c : ℕ) → to_lower (to_upper c) ≡ to_lower c
unfolding to_lower to_upper
to_lower-to_upper c = ground arith

to_upper-to_lower : (c : ℕ) → to_upper (to_lower c) ≡ to_upper c
unfolding to_lower to_upper
to_upper-to_lower c = ground arith

is_alphanumeric-to_lower : (c : ℕ) → is_alphanumeric (to_lower c) ≡ is_alphanumeric c
unfolding to_lower is_alphanumeric
is_alphanumeric-to_lower c = ground arith

is_alphanumeric-to_upper : (c : ℕ) → is_alphanumeric (to_upper c) ≡ is_alphanumeric c
unfolding to_upper is_alphanumeric
is_alphanumeric-to_upper c = ground arith

same-to_lower :
    (w : Bool) (c d : ℕ)
    → ((if w then to_lower c else to_upper c) == (if w then to_lower d else to_upper d))
      ≡ (to_lower c == to_lower d)
unfolding to_lower to_upper
same-to_lower true c d = refl
same-to_lower false c d = ground arith

alphanumeric-titled :
    (w : Bool) (c : ℕ) → is_alphanumeric (if w then to_lower c else to_upper c) ≡ is_alphanumeric c
alphanumeric-titled true c = is_alphanumeric-to_lower c
alphanumeric-titled false c = is_alphanumeric-to_upper c

alphanumeric-same : (c d : ℕ) → to_lower c ≡ to_lower d → is_alphanumeric c ≡ is_alphanumeric d
alphanumeric-same c d same =
    sym (is_alphanumeric-to_lower c) ∙ ap is_alphanumeric same ∙ is_alphanumeric-to_lower d

succ_eq : (m n : ℕ) → (suc m == suc n) ≡ (m == n)
succ_eq m n = ground arith

succ_zero : (n : ℕ) → (suc n == 0) ≡ false
succ_zero n = ground arith

zero_succ : (n : ℕ) → (0 == suc n) ≡ false
zero_succ n = ground arith

and_swap : (x y z : Bool) → (x && (y && z)) ≡ (y && (x && z))
and_swap true true z = refl
and_swap true false z = refl
and_swap false true z = refl
and_swap false false z = refl

same-loop :
    (w : Bool) (a b : List ℕ)
    → same_string (canonical_loop w a) (canonical_loop w b)
      ≡ (length a == length b && equal_loop a b)
unfolding canonical_loop same_string equal_loop
same-loop w [] [] = refl
same-loop w [] (d ∷ b) = rw (zero_succ (length b)) refl
same-loop w (c ∷ a) [] = rw (succ_zero (length a)) refl
same-loop w (c ∷ a) (d ∷ b) =
    rw
      (
        same-to_lower w c d,
        alphanumeric-titled w c,
        alphanumeric-titled w d,
        succ_eq (length a) (length b),
      )
      (elim (Bool-cases (to_lower c == to_lower d)) [
        | inl same ↦
            rw (same, alphanumeric-same c d ((==_iff (to_lower c) (to_lower d)).0 same))
              (same-loop (is_alphanumeric d) a b)
        | inr other ↦ rw other (and_swap false (length a == length b) (equal_loop a b))
      ])

pub same_string-canonical_name :
    (a b : List ℕ) → same_string (canonical_name a) (canonical_name b) ≡ equal_ignoring_case a b
unfolding canonical_name equal_ignoring_case
same_string-canonical_name a b = same-loop false a b
