-- ===== src/Url/Query.antt =====
-- URLRef::queryValueForKey of io/URL.cc on the query of a list of keys and values.
use crouton.Common.{
  ℕ, zero, suc, ◌≤◌, ◌<◌, if◌then◌else◌, false, List, [], ◌∷◌, ◌++◌, length, length-append, elem,
  is_empty, ◌≡◌, refl, ◌∙◌, arith, All,
}
use crouton.Common.Result.{ok}
use crouton.Strings.{split, same_string}
use crouton.Url.{UrlRef, query_loop, query_value_for_key}

abbrev pub Pair : Type 0
Pair = List ℕ × List ℕ

-- `key=value`, with '&' between two of them.
unfoldable pub query_of : List Pair → List ℕ
query_of [] = []
query_of ((key, value) ∷ []) = key ++ 61 ∷ value
query_of ((key, value) ∷ (p ∷ rest)) = (key ++ 61 ∷ value) ++ 38 ∷ query_of (p ∷ rest)

-- The value of the first such key, or the key where the value is empty.
unfoldable pub value_of : List ℕ → List Pair → List ℕ
value_of key [] = []
value_of key ((k, v) ∷ rest) =
    let later = value_of key rest in
    if same_string k key then (if is_empty v then k else v) else later

-- The key has no '=' and neither has an '&'.
abbrev pub IsSplittable : Pair → Type 0
IsSplittable (key, value) = (elem 61 key ≡ false) × (elem 38 key ≡ false) × (elem 38 value ≡ false)

split-append :
    (c : ℕ) (front back : List ℕ)
    → elem c front ≡ false
    → split (front ++ c ∷ back) c ≡ (front, back)
unfolding split
split-append c [] back h = ground arith
split-append c (x ∷ front) back h = ground (arith, split-append c front back)

split-all : (c : ℕ) (str : List ℕ) → elem c str ≡ false → split str c ≡ (str, [])
unfolding split
split-all c [] h = refl
split-all c (x ∷ str) h = ground (arith, split-all c str)

elem_append :
    (c : ℕ) (front back : List ℕ)
    → elem c front ≡ false
    → elem c back ≡ false
    → elem c (front ++ back) ≡ false
elem_append c [] back hf hb = hb
elem_append c (x ∷ front) back hf hb = ground (arith, elem_append c front back)

query_loop_step :
    (k : ℕ) (key query name value q remaining : List ℕ)
    → 1 ≤ length query
    → split query 38 ≡ (q, remaining)
    → split q 61 ≡ (name, value)
    → query_loop (suc k) key query ≡ (
        if same_string name key
        then ok (if is_empty value then name else value)
        else query_loop k key remaining)
unfolding query_loop
query_loop_step k key [] name value q remaining some_left first second = absurd (omega arith)
query_loop_step k key (x ∷ xs) name value q remaining some_left first second =
    rw (first, second) refl

query_loop_end : (k : ℕ) (key : List ℕ) → 1 ≤ k → query_loop k key [] ≡ ok []
unfolding query_loop
query_loop_end zero key h = absurd (omega arith)
query_loop_end (suc k) key h = refl

part_clean : (key value : List ℕ) → IsSplittable (key, value) → elem 38 (key ++ 61 ∷ value) ≡ false
part_clean key value (no_equals, key_clean, value_clean) =
    elem_append 38 key (61 ∷ value) key_clean value_clean

query_loop-query_of :
    (k : ℕ) (key : List ℕ) (ps : List Pair)
    → All IsSplittable ps
    → length (query_of ps) < k
    → query_loop k key (query_of ps) ≡ ok (value_of key ps)
unfolding query_of value_of
query_loop-query_of zero key ps clean enough = absurd (omega arith)
query_loop-query_of (suc k) key [] clean enough = query_loop_end (suc k) key (omega arith)
query_loop-query_of (suc k) key ((name, value) ∷ []) (now, others) enough =
    let long = length-append name (61 ∷ value) in
    query_loop_step k key _ name value _ [] (omega (arith, long))
      (split-all 38 _ (part_clean name value now)) (split-append 61 name value now.0)
    ∙ rw (query_loop_end k key (omega (arith, long))) (ground arith)
query_loop-query_of (suc k) key ((name, value) ∷ (p ∷ rest)) (now, others) enough =
    let long = length-append (name ++ 61 ∷ value) (38 ∷ query_of (p ∷ rest)) in
    query_loop_step k key _ name value _ (query_of (p ∷ rest)) (omega (arith, long))
      (split-append 38 (name ++ 61 ∷ value) (query_of (p ∷ rest)) (part_clean name value now))
      (split-append 61 name value now.0)
    ∙ rw (query_loop-query_of k key (p ∷ rest) others (omega (arith, long))) (ground arith)

-- Where a query is made of keys without '=' or '&' and values without '&', queryValueForKey ends
-- and gives the value of the first such key, the key itself if this value is empty, and the empty
-- string if there is none.
pub query_value_for_key-query_of :
    (key : List ℕ) (ps : List Pair) (u : UrlRef)
    → All IsSplittable ps
    → u.query ≡ query_of ps
    → query_value_for_key key u ≡ ok (value_of key ps)
unfolding query_value_for_key
query_value_for_key-query_of key ps u clean same =
    rw same (query_loop-query_of (suc (length (query_of ps))) key ps clean (omega arith))
