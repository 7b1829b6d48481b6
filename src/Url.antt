-- ===== src/Url.antt =====
-- io/URL.hh and the class URLRef of io/URL.cc. The parser of URLs there is a copy of tlsuv's, so it
-- is a parameter, and so is `std::to_string`. 37 is '%', 38 '&', 61 '=', 63 '?', 58 ':' and 47 '/'.
pub mod Escape
pub mod Query
mod Examples
use Prim.Native.Nat.{bit_and}
use crouton.Common.{
  ℕ, zero, suc, ◌+◌, ◌*◌, ◌/◌, ◌%◌, ◌^◌, ◌==◌, if◌then◌else◌, Bool, true, false, not, ◌&&◌, ◌||◌,
  Option, none, some, List, [], ◌∷◌, ◌++◌, length, elem, is_empty,
}
use crouton.Common.Result.{Result, ok, err, ◌>>=◌, invalid_url, unfinished}
use crouton.Strings.{
  is_hex_digit, hex_digit_to_int, as_hex_digit, is_url_safe, to_lower_string, split, same_string,
}

pub record UrlRef : Type 0 where
  pub scheme : List ℕ
  pub hostname : List ℕ
  pub port : ℕ
  pub path : List ℕ
  pub query : List ℕ

-- `URL`: its copy of the string, and the parts of it.
pub record Url : Type 0 where
  pub str : List ℕ
  pub parts : UrlRef

unfoldable pub normalized_scheme : UrlRef → List ℕ
normalized_scheme u = to_lower_string u.scheme

unfoldable pub unescape : List ℕ → List ℕ
unescape [] = []
unescape (c ∷ []) = c ∷ []
unescape (c ∷ (a ∷ [])) = c ∷ (a ∷ [])
unescape (c ∷ (a ∷ (b ∷ rest))) =
    let decoded = (16 * hex_digit_to_int a + hex_digit_to_int b) % 256 ∷ unescape rest in
    let plain = c ∷ unescape (a ∷ (b ∷ rest)) in
    if c == 37 && (is_hex_digit a && is_hex_digit b) then decoded else plain

-- `except` is null or a string, whose zero byte at its end `strchr` finds as well.
abbrev pub is_excepted : Option (List ℕ) → ℕ → Bool
is_excepted none c = false
is_excepted (some chars) c = elem c (chars ++ 0 ∷ [])

unfoldable pub escape : List ℕ → Option (List ℕ) → List ℕ
unfolding is_url_safe as_hex_digit
escape [] except = []
escape (c ∷ rest) except =
    let others = escape rest except in
    if is_url_safe c || is_excepted except c
    then c ∷ others
    else 37 ∷ (as_hex_digit (c / 2 ^ 4) ∷ (as_hex_digit (bit_and c 0x0f) ∷ others))

unfoldable pub unescaped_path : UrlRef → List ℕ
unfolding unescape
unescaped_path u = unescape u.path

-- The loop of `queryValueForKey`; each round takes a byte at least.
unfoldable pub query_loop : ℕ → List ℕ → List ℕ → Result (List ℕ)
unfolding split
query_loop zero key remaining = err unfinished
query_loop (suc k) key [] = ok []
query_loop (suc k) key (x ∷ xs) =
    let (q, remaining) = split (x ∷ xs) 38 in
    let (name, value) = split q 61 in
    let later = query_loop k key remaining in
    if same_string name key then ok (if is_empty value then name else value) else later

unfoldable pub query_value_for_key : List ℕ → UrlRef → Result (List ℕ)
unfolding query_loop
query_value_for_key key u = query_loop (suc (length u.query)) key u.query

module _ (parse_url : List ℕ → Option UrlRef) (to_string : ℕ → List ℕ) where
  unfoldable pub reencoded : UrlRef → List ℕ
  reencoded u =
      u.scheme
      ++ ((if is_empty u.scheme then [] else 58 ∷ 47 ∷ 47 ∷ [])
          ++ (u.hostname
              ++ ((if u.port == 0 then [] else 58 ∷ to_string u.port)
                  ++ (u.path ++ (if is_empty u.query then [] else 63 ∷ u.query)))))

  -- `tryParse` and what it leaves of the parts.
  unfoldable pub try_parse : List ℕ → UrlRef → Bool × UrlRef
  try_parse str u = elim (parse_url str) [ some u' ↦ (true, u') | none ↦ (false, u) ]

  unfoldable pub parse : List ℕ → UrlRef → Result UrlRef
  unfolding try_parse
  parse str u = let (parsed, u') = try_parse str u in if parsed then ok u' else err invalid_url

  unfoldable pub reencode : Url → Result Url
  unfolding reencoded parse
  reencode u =
      let str = reencoded u.parts in
      parse str u.parts >>= λ parts. ok (record { str = str; parts = parts })

  -- `URL(scheme, hostname, port, path, query)`
  unfoldable pub new_url : UrlRef → Result Url
  unfolding reencode
  new_url parts = reencode (record { str = []; parts = parts })
