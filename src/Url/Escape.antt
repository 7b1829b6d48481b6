-- ===== src/Url/Escape.antt =====
-- URLRef::escape and URLRef::unescape of io/URL.cc.
use Prim.Native.Nat.{bit_and}
use crouton.Common.{
  ℕ, ◌+◌, ◌*◌, ◌/◌, ◌%◌, ◌<◌, ◌^◌, ◌==◌, ==_iff, if◌then◌else◌, Bool, true, false, ◌&&◌, ◌||◌,
  Bool-cases, Option, List, [], ◌∷◌, ◌≡◌, refl, ap, ◌∙◌, inl, inr, arith, All,
}
use crouton.Common.Bits.{IsByte, all_below, all_below_agree}
use crouton.Strings.{is_alphanumeric, is_hex_digit, hex_digit_to_int, as_hex_digit, is_url_safe}
use crouton.Url.{is_excepted, escape, unescape}

bit : Bool → ℕ
bit b = if b then 1 else 0

-- The two digits of an escaped character are digits, and give it back.
digits_are_hex :
    (c : ℕ)
    → c < 256
    → bit (is_hex_digit (as_hex_digit (c / 2 ^ 4)) && is_hex_digit (as_hex_digit (bit_and c 0x0f)))
      ≡ 1
unfolding all_below is_hex_digit as_hex_digit bit
digits_are_hex = all_below_agree _ (λ c. 1) 256 refl

digits_give :
    (c : ℕ)
    → c < 256
    → (16 * hex_digit_to_int (as_hex_digit (c / 2 ^ 4))
          + hex_digit_to_int (as_hex_digit (bit_and c 0x0f)))
        % 256
      ≡ c
unfolding all_below hex_digit_to_int as_hex_digit
digits_give = all_below_agree _ (λ c. c) 256 refl

bit-true : (b : Bool) → bit b ≡ 1 → b ≡ true
unfolding bit
bit-true b h = ground arith

unescape_plain :
    (c : ℕ) (rest : List ℕ) → (c == 37) ≡ false → unescape (c ∷ rest) ≡ c ∷ unescape rest
unfolding unescape
unescape_plain c [] plain = refl
unescape_plain c (a ∷ []) plain = refl
unescape_plain c (a ∷ (b ∷ rest)) plain = rw plain refl

unescape_digits :
    (a b : ℕ) (rest : List ℕ)
    → (is_hex_digit a && is_hex_digit b) ≡ true
    → unescape (37 ∷ (a ∷ (b ∷ rest)))
      ≡ (16 * hex_digit_to_int a + hex_digit_to_int b) % 256 ∷ unescape rest
unfolding unescape
unescape_digits a b rest both = rw both refl

percent_unsafe : (c : ℕ) → c ≡ 37 → is_url_safe c ≡ false
unfolding is_url_safe is_alphanumeric
percent_unsafe c e = rw e refl

kept_plain :
    (c : ℕ) (except : Option (List ℕ))
    → is_excepted except 37 ≡ false
    → (is_url_safe c || is_excepted except c) ≡ true
    → (c == 37) ≡ false
kept_plain c except escaped kept = elim (Bool-cases (c == 37)) [
  | inl percent ↦
      let e : c ≡ 37 = (==_iff c 37).0 percent in
      let unexcepted : is_excepted except c ≡ false = ap (is_excepted except) e ∙ escaped in
      ground (arith, percent_unsafe c e)
  | inr other ↦ other
]

-- Where '%' is not among the exceptions, unescape gives back what escape is given, for any bytes.
pub unescape-escape :
    (str : List ℕ) (except : Option (List ℕ))
    → All IsByte str
    → is_excepted except 37 ≡ false
    → unescape (escape str except) ≡ str
unfolding escape
unescape-escape [] except all_bytes escaped = unfold unescape in refl
unescape-escape (c ∷ rest) except (byte, others) escaped =
    elim (Bool-cases (is_url_safe c || is_excepted except c)) [
      | inl kept ↦ rw kept (
          unescape_plain c _ (kept_plain c except escaped kept)
          ∙ ap (λ (l : List ℕ). c ∷ l) (unescape-escape rest except others escaped))
      | inr not_kept ↦ rw not_kept (
          unescape_digits _ _ _ (bit-true _ (digits_are_hex c byte))
          ∙ rw (digits_give c byte, unescape-escape rest except others escaped) refl)
    ]
