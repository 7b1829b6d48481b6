-- ===== src/Http.antt =====
-- The class Headers of io/HTTPParser.hh and its canonicalName in io/HTTPParser.cc. The entries of the
-- unordered map stand in a list, and a string is the list of its bytes.
pub mod Names
pub mod Fields
pub mod Parser
pub mod Stays
pub mod Body
pub mod Received
pub mod Handler
pub mod Reply
pub mod Routes
pub mod Client
mod Examples
use crouton.Common.{
  ℕ, if◌then◌else◌, Bool, true, false, Option, none, some, List, [], ◌∷◌, ◌++◌, is_some,
}
use crouton.Strings.{to_lower, to_upper, is_alphanumeric, same_string}

-- The loop of `canonicalName`, with `inWord`.
unfoldable pub canonical_loop : Bool → List ℕ → List ℕ
unfolding is_alphanumeric to_lower to_upper
canonical_loop in_word [] = []
canonical_loop in_word (c ∷ name) =
    let c' = if in_word then to_lower c else to_upper c in
    c' ∷ canonical_loop (is_alphanumeric c') name

unfoldable pub canonical_name : List ℕ → List ℕ
unfolding canonical_loop
canonical_name name = canonical_loop false name

abbrev pub Headers : Type 0
Headers = List (List ℕ × List ℕ)

-- `unordered_map::find`
unfoldable pub find_header : List ℕ → Headers → Option (List ℕ)
unfolding same_string
find_header name [] = none
find_header name ((n, value) ∷ rest) =
    if same_string name n then some value else find_header name rest

-- The value of the entry with that name, changed.
unfoldable pub change_header : List ℕ → (List ℕ → List ℕ) → Headers → Headers
unfolding same_string
change_header name change [] = []
change_header name change ((n, value) ∷ rest) =
    if same_string name n
    then (n, change value) ∷ rest
    else (n, value) ∷ change_header name change rest

unfoldable pub contains : List ℕ → Headers → Bool
unfolding find_header canonical_name
contains name headers = is_some (find_header (canonical_name name) headers)

abbrev pub value_or_empty : Option (List ℕ) → List ℕ
value_or_empty none = []
value_or_empty (some value) = value

unfoldable pub get : List ℕ → Headers → List ℕ
unfolding find_header canonical_name
get name headers = value_or_empty (find_header (canonical_name name) headers)

unfoldable pub set : List ℕ → List ℕ → Headers → Headers
unfolding find_header canonical_name change_header
set name value headers =
    let key = canonical_name name in
    if is_some (find_header key headers)
    then change_header key (λ old. value) headers
    else headers ++ (key, value) ∷ []

-- 44 is ',' and 32 a space.
unfoldable pub add : List ℕ → List ℕ → Headers → Headers
unfolding find_header canonical_name change_header
add name value headers =
    let key = canonical_name name in
    if is_some (find_header key headers)
    then change_header key (λ old. old ++ (44 ∷ 32 ∷ value)) headers
    else headers ++ (key, value) ∷ []
