-- ===== src/Blip/Lookup.antt =====
-- MessageBuilder of io/blip/MessageBuilder.cc and MessageIn::property of io/blip/Message.cc
-- together: the properties that are added are those that are found.
use crouton.Common.{
  ℕ, zero, suc, ◌+◌, ◌≤◌, ◌<◌, ◌||◌, if◌then◌else◌, true, false, List, [], ◌∷◌, ◌++◌, ◌≡◌, refl, ap,
  ◌∙◌, arith, All, length, length-append, append_assoc, append-nil, elem, is_empty,
}
use crouton.Common.Result.{ok, >>=-eq-ok}
use crouton.Blip.Builder.{MessageBuilder, add_property, add_properties}
use crouton.Blip.Incoming.{ends_with_zero}
use crouton.Strings.{same_string}
use crouton.Blip.Properties.{c_string, property_loop}

abbrev pub Pair : Type 0
Pair = List ℕ × List ℕ

-- The properties as they are written.
unfoldable pub encode : List Pair → List ℕ
encode [] = []
encode ((name, value) ∷ rest) = name ++ 0 ∷ (value ++ 0 ∷ encode rest)

-- The value of the first property with this name, or the empty string.
unfoldable pub first_value : List ℕ → List Pair → List ℕ
first_value name [] = []
first_value name ((key, value) ∷ rest) =
    if same_string name key then value else first_value name rest

abbrev pub HasNoZero : Pair → Type 0
HasNoZero (name, value) = (elem 0 name ≡ false) × (elem 0 value ≡ false)

c_string-append :
    (str rest : List ℕ) → elem 0 str ≡ false → c_string (str ++ 0 ∷ rest) ≡ (str, rest)
unfolding c_string
c_string-append [] rest h = refl
c_string-append (x ∷ str) rest h = ground (arith, c_string-append str rest)

-- One round of the loop, where a name and a value can be read.
property_loop_step :
    (k : ℕ) (name key value bytes after_key after_value : List ℕ)
    → c_string bytes ≡ (key, after_key)
    → c_string after_key ≡ (value, after_value)
    → 1 ≤ length after_key
    → property_loop (suc k) name bytes
      ≡ (if same_string name key then ok value else property_loop k name after_value)
unfolding property_loop c_string
property_loop_step k name key value [] after_key after_value first second some_left =
    absurd (omega (arith, ap (λ (p : Pair). length p.1) first))
property_loop_step k name key value (x ∷ xs) [] after_value first second some_left =
    absurd (omega arith)
property_loop_step k name key value (x ∷ xs) (y ∷ ys) after_value first second some_left =
    rw (first, second)

length_pair :
    (name value rest : List ℕ)
    → length (name ++ 0 ∷ (value ++ 0 ∷ rest)) ≡ length name + length value + length rest + 2
length_pair name value rest =
    omega (arith, length-append name (0 ∷ (value ++ 0 ∷ rest)), length-append value (0 ∷ rest))

pub property_loop-encode :
    (k : ℕ) (name : List ℕ) (ps : List Pair)
    → All HasNoZero ps
    → length (encode ps) < k
    → property_loop k name (encode ps) ≡ ok (first_value name ps)
unfolding encode first_value
property_loop-encode zero name ps no_zero enough = absurd (omega arith)
property_loop-encode (suc k) name [] no_zero enough = unfold property_loop in refl
property_loop-encode (suc k) name ((key, value) ∷ rest) ((key_ok, value_ok), others_ok) enough =
    property_loop_step k name key value _ _ (encode rest)
      (c_string-append key (value ++ 0 ∷ encode rest) key_ok)
      (c_string-append value (encode rest) value_ok)
      (omega (arith, length-append value (0 ∷ encode rest)))
    ∙ rw
        (property_loop-encode k name rest others_ok
          (omega (arith, length_pair key value (encode rest))))
        (ground arith)

add_property_lem :
    (name value : List ℕ) (b b' : MessageBuilder)
    → add_property name value b ≡ ok b'
    → (b' ≡ record b { properties = (b.properties ++ (name ++ 0 ∷ [])) ++ (value ++ 0 ∷ []) })
      × HasNoZero (name, value)
unfolding add_property
add_property_lem name value b b' e = (ground arith, (ground arith, ground arith))

pair_append :
    (start name value rest : List ℕ)
    → ((start ++ (name ++ 0 ∷ [])) ++ (value ++ 0 ∷ [])) ++ rest
      ≡ start ++ (name ++ 0 ∷ (value ++ 0 ∷ rest))
pair_append start name value rest = simp append_assoc

pub add_properties_lem :
    (ps : List Pair) (b b' : MessageBuilder)
    → add_properties ps b ≡ ok b'
    → (b' ≡ record b { properties = b.properties ++ encode ps }) × All HasNoZero ps
unfolding add_properties encode
add_properties_lem [] b b' e = (ground (arith, append-nil b.properties), tt)
add_properties_lem ((name, value) ∷ rest) b b' e =
    let (b1, added, others) = >>=-eq-ok (add_property name value b) (add_properties rest) e in
    let (now, clean) = add_property_lem name value b b1 added in
    let (then', all_clean) = add_properties_lem rest b1 b' others in
    (ground (arith, pair_append b.properties name value (encode rest)), (clean, all_clean))

-- A list that is empty or ends with a zero byte.
abbrev pub IsEnded : List ℕ → Type 0
IsEnded bytes = (is_empty bytes || ends_with_zero bytes) ≡ true

IsEnded-zero : (front back : List ℕ) → IsEnded back → IsEnded (front ++ 0 ∷ back)
IsEnded-zero [] [] ended = refl
IsEnded-zero [] (y ∷ back) ended = ended
IsEnded-zero (x ∷ []) back ended = IsEnded-zero [] back ended
IsEnded-zero (x ∷ (z ∷ front)) back ended = IsEnded-zero (z ∷ front) back ended

pub encode-IsEnded : (ps : List Pair) → IsEnded (encode ps)
unfolding encode
encode-IsEnded [] = refl
encode-IsEnded ((name, value) ∷ rest) =
    IsEnded-zero name (value ++ 0 ∷ encode rest)
      (IsEnded-zero value (encode rest) (encode-IsEnded rest))
