-- ===== src/Strings/Examples.antt =====
-- Strings on concrete bytes.
use crouton.Common.{◌≡◌, refl, arith, true, [], ◌∷◌}
use crouton.Common.Result.{ok, err, unfinished}
use crouton.Strings.{
  to_lower, equal_loop, equal_ignoring_case, starts_with, find, find_from, replace_loop,
  replace_string_in_place, hex_string, decode_hex_string,
}
use crouton.Strings.Hex.{decode_hex_string-hex_string}
use crouton.Strings.Replace.{replaced, replace_string_in_place_lem}

-- "aXaaX" with "X" replaced by "ab".
replace_string_in_place_lem_example :
    replace_string_in_place 6 (97 ∷ 88 ∷ 97 ∷ 97 ∷ 88 ∷ []) (88 ∷ []) (97 ∷ 98 ∷ [])
    ≡ ok (97 ∷ 97 ∷ 98 ∷ 97 ∷ 97 ∷ 97 ∷ 98 ∷ [])
unfolding replaced starts_with
replace_string_in_place_lem_example =
    replace_string_in_place_lem 6 (97 ∷ 88 ∷ 97 ∷ 97 ∷ 88 ∷ []) (88 ∷ []) (97 ∷ 98 ∷ [])
      (omega arith) (omega arith)

-- An empty substring is found again and again, and the string grows.
grows : replace_string_in_place 20 (97 ∷ []) [] (98 ∷ []) ≡ err unfinished
unfolding replace_string_in_place replace_loop find_from find starts_with
grows = refl

hex_round_trip : decode_hex_string (hex_string (0 ∷ 127 ∷ 255 ∷ [])) ≡ 0 ∷ 127 ∷ 255 ∷ []
hex_round_trip =
    decode_hex_string-hex_string (0 ∷ 127 ∷ 255 ∷ [])
      (omega arith, (omega arith, (omega arith, tt)))

-- "True" and "tRUE".
same : equal_ignoring_case (84 ∷ 114 ∷ 117 ∷ 101 ∷ []) (116 ∷ 82 ∷ 85 ∷ 69 ∷ []) ≡ true
unfolding equal_ignoring_case equal_loop to_lower
same = refl
