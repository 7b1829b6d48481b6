-- ===== src/Blip/Properties.antt =====
-- MessageIn::property of io/blip/Message.cc: the properties of a message, name after name, each with
-- its value, and a zero byte after each.
use crouton.Common.{ℕ, zero, suc, ◌==◌, if◌then◌else◌, List, [], ◌∷◌, length, is_empty}
use crouton.Strings.{same_string}
use crouton.Common.Result.{Result, ok, err, unfinished}

-- The string at the start, up to its zero byte, and what is after that. A `std::string` has a zero
-- byte behind its end, where `strlen` stops at the latest.
unfoldable pub c_string : List ℕ → List ℕ × List ℕ
c_string [] = ([], [])
c_string (x ∷ xs) = let (str, rest) = c_string xs in if x == 0 then ([], xs) else (x ∷ str, rest)

-- The loop of `property`; each round takes a byte at least.
unfoldable pub property_loop : ℕ → List ℕ → List ℕ → Result (List ℕ)
unfolding c_string same_string
property_loop zero name bytes = err unfinished
property_loop (suc k) name [] = ok []
property_loop (suc k) name (x ∷ xs) =
    let (key, after_key) = c_string (x ∷ xs) in
    let (value, after_value) = c_string after_key in
    let others = property_loop k name after_value in
    if is_empty after_key then ok [] else if same_string name key then ok value else others

-- The value, or the empty string where there is no such property.
unfoldable pub property : List ℕ → List ℕ → Result (List ℕ)
unfolding property_loop
property name properties = property_loop (suc (length properties)) name properties
