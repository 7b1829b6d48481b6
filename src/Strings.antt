-- ===== src/Strings.antt =====
-- support/StringUtils.hh and StringUtils.cc: ASCII characters and strings. A string is the list of
-- its bytes; `char` is signed, so that a byte from 128 on is below every ASCII character.
pub mod Hex
pub mod Replace
mod Examples
use Prim.Native.Nat.{bit_or, bit_and}
use crouton.Common.{
  ℕ, zero, suc, ◌+◌, ◌-◌, ◌*◌, ◌/◌, ◌%◌, ◌^◌, leb, ltb, ◌==◌, if◌then◌else◌, Bool, true, false,
  ◌&&◌, ◌||◌, Option, none, some, List, [], ◌∷◌, ◌++◌, map, length, take, drop, elem, is_empty,
}
use crouton.Common.Result.{Result, ok, err, guard, ◌>>◌, assertion, unfinished}

abbrev between : ℕ → ℕ → ℕ → Bool
between low high c = leb low c && leb c high

-- 'A' is 65, 'Z' 90, 'a' 97, 'z' 122, '0' 48 and '9' 57.
unfoldable pub to_lower : ℕ → ℕ
to_lower c = if between 65 90 c then c + 32 else c

unfoldable pub to_upper : ℕ → ℕ
to_upper c = if between 97 122 c then c - 32 else c

unfoldable pub is_alphanumeric : ℕ → Bool
is_alphanumeric c = between 48 57 c || between 65 90 c || between 97 122 c

unfoldable pub is_hex_digit : ℕ → Bool
is_hex_digit c = between 48 57 c || between 65 70 c || between 97 102 c

-- An `int`, in two's complement of 32 bits; the character may be none of the digits.
unfoldable pub hex_digit_to_int : ℕ → ℕ
hex_digit_to_int c =
    let wide : ℕ = if leb 128 c then c + (2 ^ 32 - 256) else c in
    if ltb c 65 || leb 128 c
    then (wide + (2 ^ 32 - 48)) % 2 ^ 32
    else if ltb c 97
    then c - 65 + 10
    else (c + (2 ^ 32 - 97) + 10) % 2 ^ 32

unfoldable pub as_hex_digit : ℕ → ℕ
as_hex_digit n = if ltb n 10 then 48 + n else 65 + (n - 10)

-- `strchr` also finds the zero byte at the end of "-_.~".
unfoldable pub is_url_safe : ℕ → Bool
unfolding is_alphanumeric
is_url_safe c = is_alphanumeric c || elem c (45 ∷ 95 ∷ 46 ∷ 126 ∷ 0 ∷ [])

-- `toLower(string)`
unfoldable pub to_lower_string : List ℕ → List ℕ
unfolding to_lower
to_lower_string str = map to_lower str

abbrev pub digit : ℕ → ℕ
digit n = if ltb n 10 then 48 + n else 97 + (n - 10)

unfoldable pub hex_string : List ℕ → List ℕ
hex_string [] = []
hex_string (b ∷ bytes) = digit (b / 2 ^ 4) ∷ digit (bit_and b 0xf) ∷ hex_string bytes

unfoldable pub decode_hex_string : List ℕ → List ℕ
unfolding hex_digit_to_int
decode_hex_string [] = []
decode_hex_string (a ∷ []) = []
decode_hex_string (a ∷ (b ∷ rest)) =
    bit_or (hex_digit_to_int a * 2 ^ 4 % 2 ^ 32) (hex_digit_to_int b) % 256 ∷ decode_hex_string rest

-- The loop of `equalIgnoringCase`, on strings of one length.
unfoldable pub equal_loop : List ℕ → List ℕ → Bool
unfolding to_lower
equal_loop [] ys = true
equal_loop (x ∷ xs) [] = false
equal_loop (x ∷ xs) (y ∷ ys) = to_lower x == to_lower y && equal_loop xs ys

unfoldable pub equal_ignoring_case : List ℕ → List ℕ → Bool
unfolding equal_loop
equal_ignoring_case a b = length a == length b && equal_loop a b

unfoldable pub split : List ℕ → ℕ → List ℕ × List ℕ
split [] c = ([], [])
split (x ∷ xs) c =
    let (before, after) = split xs c in if x == c then ([], xs) else (x ∷ before, after)

unfoldable pub split_at : List ℕ → ℕ → ℕ → Result (List ℕ × List ℕ)
split_at str pos delim_size =
    guard (leb (pos + delim_size) (length str)) assertion
    >> ok (take pos str, drop (pos + delim_size) str)

-- `==` of two strings.
unfoldable pub same_string : List ℕ → List ℕ → Bool
same_string [] [] = true
same_string [] (y ∷ ys) = false
same_string (x ∷ xs) [] = false
same_string (x ∷ xs) (y ∷ ys) = x == y && same_string xs ys

unfoldable pub starts_with : List ℕ → List ℕ → Bool
starts_with [] str = true
starts_with (x ∷ xs) [] = false
starts_with (x ∷ xs) (y ∷ ys) = x == y && starts_with xs ys

-- The first place where the substring stands.
unfoldable pub find : List ℕ → List ℕ → Option ℕ
unfolding starts_with
find sub [] = if is_empty sub then some 0 else none
find sub (x ∷ xs) =
    let later : Option ℕ = elim (find sub xs) [ some p ↦ some (suc p) | none ↦ none ] in
    if starts_with sub (x ∷ xs) then some 0 else later

-- `std::string::find` with the place to start at.
unfoldable pub find_from : List ℕ → List ℕ → ℕ → Option ℕ
unfolding find
find_from sub str pos =
    if leb pos (length str)
    then elim (find sub (drop pos str)) [ some p ↦ some (pos + p) | none ↦ none ]
    else none

-- The loop of `replaceStringInPlace`, at the place `pos`.
unfoldable pub replace_loop : ℕ → List ℕ → List ℕ → List ℕ → ℕ → Result (List ℕ)
unfolding find_from
replace_loop zero sub replacement str pos = err unfinished
replace_loop (suc k) sub replacement str pos = elim (find_from sub str pos) [
  | none ↦ ok str
  | some p ↦
      replace_loop k sub replacement (take p str ++ (replacement ++ drop (p + length sub) str))
        (p + length replacement)
]

unfoldable pub replace_string_in_place : ℕ → List ℕ → List ℕ → List ℕ → Result (List ℕ)
unfolding replace_loop
replace_string_in_place fuel str sub replacement = replace_loop fuel sub replacement str 0
