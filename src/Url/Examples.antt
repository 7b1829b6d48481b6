-- ===== src/Url/Examples.antt =====
-- URLs on concrete bytes.
use crouton.Common.{ℕ, ◌≡◌, refl, arith, none, some, List, [], ◌∷◌}
use crouton.Common.Result.{ok}
use crouton.Strings.{is_alphanumeric, is_url_safe, as_hex_digit, same_string}
use crouton.Url.{UrlRef, escape, unescape, query_value_for_key, reencoded}
use crouton.Url.Escape.{unescape-escape}
use crouton.Url.Query.{Pair, query_of, value_of, query_value_for_key-query_of}

-- "a b/%" and a byte above ASCII, where '/' is not escaped.
abbrev text : List ℕ
text = 97 ∷ 32 ∷ 98 ∷ 47 ∷ 37 ∷ 200 ∷ []

escaped :
    escape text (some (47 ∷ [])) ≡ 97 ∷ 37 ∷ 50 ∷ 48 ∷ 98 ∷ 47 ∷ 37 ∷ 50 ∷ 53 ∷ 37 ∷ 67 ∷ 56 ∷ []
unfolding escape is_url_safe is_alphanumeric as_hex_digit
escaped = refl

unescape-escape_example : unescape (escape text (some (47 ∷ []))) ≡ text
unescape-escape_example =
    unescape-escape text (some (47 ∷ []))
      (omega arith, (omega arith, (omega arith, (omega arith, (omega arith, (omega arith, tt))))))
      refl

-- "x=1&y=&x=2"
abbrev pairs : List Pair
pairs = (120 ∷ [], 49 ∷ []) ∷ (121 ∷ [], []) ∷ (120 ∷ [], 50 ∷ []) ∷ []

abbrev url : UrlRef
url = record {
  scheme = 104 ∷ [];
  hostname = 104 ∷ 111 ∷ [];
  port = 80;
  path = 47 ∷ [];
  query = 120 ∷ 61 ∷ 49 ∷ 38 ∷ 121 ∷ 61 ∷ 38 ∷ 120 ∷ 61 ∷ 50 ∷ [];
}

query_value_for_key-query_of_example : query_value_for_key (121 ∷ []) url ≡ ok (121 ∷ [])
unfolding query_of value_of same_string
query_value_for_key-query_of_example =
    query_value_for_key-query_of (121 ∷ []) pairs url
      ((refl, refl, refl), ((refl, refl, refl), ((refl, refl, refl), tt))) refl

-- "h://ho:80/?..."
put_together :
    reencoded (λ s. none) (λ n. 56 ∷ 48 ∷ []) (record url { query = [] })
    ≡ 104 ∷ 58 ∷ 47 ∷ 47 ∷ 104 ∷ 111 ∷ 58 ∷ 56 ∷ 48 ∷ 47 ∷ []
unfolding reencoded
put_together = refl
