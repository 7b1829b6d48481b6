-- ===== src/Strings/Replace.antt =====
-- replaceStringInPlace of support/StringUtils.cc, with a substring that is not empty.
use crouton.Common.{
  ℕ, zero, suc, ◌+◌, ◌-◌, ◌≤◌, ◌<◌, if◌then◌else◌, true, Bool-cases, none, some, Option-cases, List,
  [], ◌∷◌, ◌++◌, length, take, drop, length-append, length-take, length-drop, drop-append,
  append_assoc, ◌≡◌, refl, sym, ap, ◌∙◌, inl, inr, arith,
}
use crouton.Common.Result.{ok}
use crouton.Strings.{starts_with, find, find_from, replace_loop, replace_string_in_place}

-- The string with each occurrence replaced, from left to right; the number is that of the
-- characters to skip.
unfoldable pub replaced : List ℕ → List ℕ → ℕ → List ℕ → List ℕ
replaced sub replacement skip [] = []
replaced sub replacement (suc k) (x ∷ xs) = replaced sub replacement k xs
replaced sub replacement zero (x ∷ xs) =
    let here = replacement ++ replaced sub replacement (length sub - 1) xs in
    let after = x ∷ replaced sub replacement 0 xs in
    if starts_with sub (x ∷ xs) then here else after

starts_with-length : (sub str : List ℕ) → starts_with sub str ≡ true → length sub ≤ length str
unfolding starts_with
starts_with-length [] str h = omega arith
starts_with-length (x ∷ xs) [] h = ground arith
starts_with-length (x ∷ xs) (y ∷ ys) h = ground (arith, starts_with-length xs ys)

replaced_skip :
    (sub replacement : List ℕ) (k : ℕ) (str : List ℕ)
    → replaced sub replacement k str ≡ replaced sub replacement 0 (drop k str)
unfolding replaced
replaced_skip sub replacement zero str = refl
replaced_skip sub replacement (suc k) [] = refl
replaced_skip sub replacement (suc k) (x ∷ xs) = replaced_skip sub replacement k xs

find-none :
    (sub replacement str : List ℕ)
    → 1 ≤ length sub
    → find sub str ≡ none
    → replaced sub replacement 0 str ≡ str
unfolding find replaced
find-none sub replacement [] some_left e = refl
find-none sub replacement (x ∷ xs) some_left e =
    ground (arith, find-none sub replacement xs some_left)

plus_assoc : (a b c : ℕ) → a + b + c ≡ a + (b + c)
plus_assoc a b c = omega arith

suc_plus : (m n : ℕ) → suc m + n ≡ suc (m + n)
suc_plus m n = omega arith

find-some :
    (sub replacement str : List ℕ) (p : ℕ)
    → 1 ≤ length sub
    → find sub str ≡ some p
    → (p + length sub ≤ length str)
      × (replaced sub replacement 0 str
          ≡ take p str ++ (replacement ++ replaced sub replacement 0 (drop (p + length sub) str)))
unfolding find replaced
find-some [] replacement str p some_left e = absurd (omega arith)
find-some (y ∷ ys) replacement [] p some_left e = ground arith
find-some (y ∷ ys) replacement (x ∷ xs) p some_left e =
    elim (Bool-cases (starts_with (y ∷ ys) (x ∷ xs))) [
      | inl here ↦ ground (
        arith,
        starts_with-length (y ∷ ys) (x ∷ xs),
        replaced_skip (y ∷ ys) replacement (length ys) xs,
      )
      | inr not_here ↦ elim (Option-cases (find (y ∷ ys) xs)) [
        | inl missing ↦ ground arith
        | inr (q, found) ↦
            let (fits, same) = find-some (y ∷ ys) replacement xs q some_left found in
            let at : p ≡ suc q = ground arith in
            (
              omega (arith, at, fits),
              rw (at, not_here, suc_plus q (suc (length ys))) (ap (λ (l : List ℕ). x ∷ l) same),
            )
      ]
    ]

take_front :
    (front back : List ℕ) (p : ℕ) → take (length front + p) (front ++ back) ≡ front ++ take p back
take_front [] back p = ap (λ (n : ℕ). take n back) (omega arith)
take_front (x ∷ front) back p =
    rw (suc_plus (length front) p) (ap (λ (l : List ℕ). x ∷ l) (take_front front back p))

drop_front : (front back : List ℕ) (p : ℕ) → drop (length front + p) (front ++ back) ≡ drop p back
drop_front [] back p = ap (λ (n : ℕ). drop n back) (omega arith)
drop_front (x ∷ front) back p = rw (suc_plus (length front) p) (drop_front front back p)

joined :
    (front back replacement : List ℕ) (p n : ℕ)
    → take (length front + p) (front ++ back)
        ++ (replacement ++ drop (length front + p + n) (front ++ back))
      ≡ (front ++ (take p back ++ replacement)) ++ drop (p + n) back
joined front back replacement p n =
    rw
      (
        take_front front back p,
        ap (λ (k : ℕ). drop k (front ++ back)) (plus_assoc (length front) p n),
        drop_front front back (p + n),
      )
      (simp append_assoc)

joined_length :
    (front back replacement : List ℕ) (p : ℕ)
    → p ≤ length back
    → length front + p + length replacement ≡ length (front ++ (take p back ++ replacement))
joined_length front back replacement p fits = omega (
  arith,
  length-append front (take p back ++ replacement),
  length-append (take p back) replacement,
  length-take p back,
)

find_from-none :
    (sub front back : List ℕ)
    → find sub back ≡ none
    → find_from sub (front ++ back) (length front) ≡ none
unfolding find_from
find_from-none sub front back e = ground (arith, drop-append front back, length-append front back)

find_from-some :
    (sub front back : List ℕ) (p : ℕ)
    → find sub back ≡ some p
    → find_from sub (front ++ back) (length front) ≡ some (length front + p)
unfolding find_from
find_from-some sub front back p e = ground (arith, drop-append front back, length-append front back)

replace_loop-none :
    (k : ℕ) (sub replacement str : List ℕ) (pos : ℕ)
    → find_from sub str pos ≡ none
    → replace_loop (suc k) sub replacement str pos ≡ ok str
unfolding replace_loop
replace_loop-none k sub replacement str pos e = ground arith

replace_loop-some :
    (k : ℕ) (sub replacement str : List ℕ) (pos p : ℕ)
    → find_from sub str pos ≡ some p
    → replace_loop (suc k) sub replacement str pos
      ≡ replace_loop k sub replacement
          (take p str ++ (replacement ++ drop (p + length sub) str))
          (p + length replacement)
unfolding replace_loop
replace_loop-some k sub replacement str pos p e = ground arith

replace_loop_lem :
    (fuel : ℕ) (sub replacement front back : List ℕ) (pos : ℕ)
    → 1 ≤ length sub
    → pos ≡ length front
    → length back < fuel
    → replace_loop fuel sub replacement (front ++ back) pos
      ≡ ok (front ++ replaced sub replacement 0 back)
unfolding replace_loop
replace_loop_lem zero sub replacement front back pos some_left place enough = absurd (omega arith)
replace_loop_lem (suc k) sub replacement front back pos some_left place enough =
    elim (Option-cases (find sub back)) [
      | inl missing ↦
          ap (replace_loop (suc k) sub replacement (front ++ back)) place
          ∙ (replace_loop-none k sub replacement (front ++ back) (length front)
              (find_from-none sub front back missing))
          ∙ (ap (λ (l : List ℕ). ok (front ++ l))
              (sym (find-none sub replacement back some_left missing)))
      | inr (p, found) ↦
          let (fits, same) = find-some sub replacement back p some_left found in
          let front' = front ++ (take p back ++ replacement) in
          let back' = drop (p + length sub) back in
          ap (replace_loop (suc k) sub replacement (front ++ back)) place
          ∙ replace_loop-some k sub replacement (front ++ back) (length front) (length front + p)
              (find_from-some sub front back p found)
          ∙ ap
              (λ (l : List ℕ).
                replace_loop k sub replacement l (length front + p + length replacement))
              (joined front back replacement p (length sub))
          ∙ replace_loop_lem k sub replacement front' back' (length front + p + length replacement)
              some_left (joined_length front back replacement p (omega arith))
              (omega (arith, length-drop (p + length sub) back))
          ∙ rw same (ap ok (simp append_assoc))
    ]

-- Where the substring is not empty, replaceStringInPlace ends after at most one round for each
-- character and one more, and its result is the string in which each occurrence that does not
-- overlap the one before, from left to right, is the replacement.
pub replace_string_in_place_lem :
    (fuel : ℕ) (str sub replacement : List ℕ)
    → 1 ≤ length sub
    → length str < fuel
    → replace_string_in_place fuel str sub replacement ≡ ok (replaced sub replacement 0 str)
unfolding replace_string_in_place
replace_string_in_place_lem fuel str sub replacement some_left enough =
    replace_loop_lem fuel sub replacement [] str 0 some_left refl enough
