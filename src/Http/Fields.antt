-- ===== src/Http/Fields.antt =====
-- Headers are looked up by the names' canonical forms, so that the case of a name does not matter.
use crouton.Common.{
  ℕ, ==_iff, eq_refl, if◌then◌else◌, Bool, true, false, not, Option, none, some, List, [], ◌∷◌,
  ◌++◌, append-nil, append_assoc, is_empty, is_some, Bool-cases, Option-cases, inl, inr, ◌≡◌, refl,
  sym, ap, ◌∙◌, arith,
}
use crouton.Strings.{same_string, equal_ignoring_case}
use crouton.Http.{
  Headers, canonical_name, find_header, change_header, contains, get, set, add, value_or_empty,
}
use crouton.Http.Names.{same_string-canonical_name}

same_string_eq : (a b : List ℕ) → same_string a b ≡ true → a ≡ b
unfolding same_string
same_string_eq [] [] same = refl
same_string_eq [] (y ∷ ys) same = cc
same_string_eq (x ∷ xs) [] same = cc
same_string_eq (x ∷ xs) (y ∷ ys) same = ground (arith, ==_iff x y, same_string_eq xs ys)

pub same_string_refl : (a : List ℕ) → same_string a a ≡ true
unfolding same_string
same_string_refl [] = refl
same_string_refl (x ∷ xs) = rw (eq_refl x) (same_string_refl xs)

changed : (List ℕ → List ℕ) → Option (List ℕ) → Option (List ℕ)
changed change none = none
changed change (some value) = some (change value)

find_header-change_header-same :
    (k : List ℕ) (change : List ℕ → List ℕ) (h : Headers)
    → find_header k (change_header k change h) ≡ changed change (find_header k h)
unfolding find_header change_header changed
find_header-change_header-same k change [] = refl
find_header-change_header-same k change ((n, v) ∷ rest) = elim (Bool-cases (same_string k n)) [
  | inl same ↦ rw (same, same) refl
  | inr other ↦ rw (other, other) (find_header-change_header-same k change rest)
]

find_header-change_header-other :
    (k l : List ℕ) (change : List ℕ → List ℕ) (h : Headers)
    → same_string k l ≡ false
    → find_header k (change_header l change h) ≡ find_header k h
unfolding find_header change_header
find_header-change_header-other k l change [] differ = refl
find_header-change_header-other k l change ((n, v) ∷ rest) differ =
    ground (arith, find_header-change_header-other k l change rest differ, same_string_eq l n)

find_header-append :
    (k l : List ℕ) (v : List ℕ) (h : Headers)
    → find_header l h ≡ none
    → find_header k (h ++ (l, v) ∷ []) ≡ (if same_string k l then some v else find_header k h)
unfolding find_header
find_header-append k l v [] absent = refl
find_header-append k l v ((n, w) ∷ rest) absent = ground (
  arith,
  find_header-append k l v rest,
  same_string_eq k n,
  same_string_eq k l,
  same_string_refl k,
)

-- The value of an entry after the change, and that of a new entry.
value_after : (List ℕ → List ℕ) → List ℕ → Option (List ℕ) → List ℕ
value_after change value none = value
value_after change value (some old) = change old

-- What `set` and `add` have in common.
find_header-update :
    (k key value : List ℕ) (change : List ℕ → List ℕ) (h : Headers)
    → find_header k
        (if is_some (find_header key h) then change_header key change h else h ++ (key, value) ∷ [])
      ≡ (if same_string k key
          then some (value_after change value (find_header k h))
          else find_header k h)
unfolding value_after
find_header-update k key value change h = elim (Option-cases (find_header key h)) [
  | inl absent ↦
      rw (absent, find_header-append k key value h absent)
        (elim (Bool-cases (same_string k key)) [
          | inl same ↦ rw (same, same_string_eq k key same, absent) refl
          | inr other ↦ rw other refl
        ])
  | inr (old, there) ↦ rw there (elim (Bool-cases (same_string k key)) [
    | inl same ↦
        rw (same, same_string_eq k key same)
          (rw (find_header-change_header-same key change h, there) (unfold changed in refl))
    | inr other ↦ rw other (find_header-change_header-other k key change h other)
  ])
]

-- The value of a field after another of the same name.
joined : Option (List ℕ) → List ℕ → List ℕ
joined none value = value
joined (some old) value = old ++ (44 ∷ 32 ∷ value)

value_after-joined :
    (o : Option (List ℕ)) (value : List ℕ)
    → value_after (λ old. old ++ (44 ∷ 32 ∷ value)) value o ≡ joined o value
unfolding value_after joined
value_after-joined none value = refl
value_after-joined (some old) value = refl

value_after-constant :
    (o : Option (List ℕ)) (value : List ℕ) → value_after (λ old. value) value o ≡ value
unfolding value_after
value_after-constant none value = refl
value_after-constant (some old) value = refl

find_header-add :
    (k name value : List ℕ) (h : Headers)
    → find_header k (add name value h) ≡ (
        if same_string k (canonical_name name)
        then some (joined (find_header k h) value)
        else find_header k h)
unfolding add
find_header-add k name value h =
    rw (sym (value_after-joined (find_header k h) value))
      (find_header-update k (canonical_name name) value (λ old. old ++ (44 ∷ 32 ∷ value)) h)

find_header-set :
    (k name value : List ℕ) (h : Headers)
    → find_header k (set name value h)
      ≡ (if same_string k (canonical_name name) then some value else find_header k h)
unfolding set
find_header-set k name value h =
    find_header-update k (canonical_name name) value (λ old. value) h
    ∙ ap (λ v. if same_string k (canonical_name name) then some v else find_header k h)
        (value_after-constant (find_header k h) value)

found_choice :
    (test : Bool) (value : List ℕ) (o : Option (List ℕ))
    → value_or_empty (if test then some value else o) ≡ (if test then value else value_or_empty o)
found_choice true value o = refl
found_choice false value o = refl

-- A header that is set is the value found under every name that differs from its name only in case,
-- and under the other names what was there before is found.
pub get-set :
    (name m value : List ℕ) (h : Headers)
    → get m (set name value h) ≡ (if equal_ignoring_case m name then value else get m h)
unfolding get
get-set name m value h =
    ap value_or_empty (
      find_header-set (canonical_name m) name value h
      ∙ ap (λ test. if test then some value else find_header (canonical_name m) h)
          (same_string-canonical_name m name))
    ∙ found_choice (equal_ignoring_case m name) value (find_header (canonical_name m) h)

-- Header fields as they come, each with its name and its value.
unfoldable pub add_fields : List (List ℕ × List ℕ) → Headers → Headers
add_fields [] h = h
add_fields ((name, value) ∷ fields) h = add_fields fields (add name value h)

-- The values of the fields with that name, whatever its case.
unfoldable pub values_of : List ℕ → List (List ℕ × List ℕ) → List (List ℕ)
values_of name [] = []
values_of name ((n, value) ∷ fields) =
    let rest = values_of name fields in if equal_ignoring_case name n then value ∷ rest else rest

unfoldable pub after_commas : List (List ℕ) → List ℕ
after_commas [] = []
after_commas (value ∷ values) = 44 ∷ 32 ∷ value ++ after_commas values

-- The values with a comma and a space between them.
unfoldable pub comma_list : List (List ℕ) → List ℕ
unfolding after_commas
comma_list [] = []
comma_list (value ∷ values) = value ++ after_commas values

joined_all : Option (List ℕ) → List (List ℕ) → Option (List ℕ)
joined_all o [] = o
joined_all o (value ∷ values) = joined_all (some (joined o value)) values

from_some :
    (old : List ℕ) (values : List (List ℕ))
    → joined_all (some old) values ≡ some (old ++ after_commas values)
unfolding joined_all joined after_commas
from_some old [] = rw (append-nil old) refl
from_some old (value ∷ values) =
    rw
      (
        from_some (old ++ (44 ∷ 32 ∷ value)) values,
        append_assoc old (44 ∷ 32 ∷ value) (after_commas values),
      )
      refl

from_none :
    (values : List (List ℕ))
    → joined_all none values ≡ (if is_empty values then none else some (comma_list values))
unfolding joined_all joined comma_list
from_none [] = refl
from_none (value ∷ values) = from_some value values

find_header-add_fields :
    (name : List ℕ) (fields : List (List ℕ × List ℕ)) (h : Headers)
    → find_header (canonical_name name) (add_fields fields h)
      ≡ joined_all (find_header (canonical_name name) h) (values_of name fields)
unfolding add_fields values_of joined_all
find_header-add_fields name [] h = refl
find_header-add_fields name ((n, value) ∷ fields) h =
    rw
      (
        find_header-add_fields name fields (add n value h),
        find_header-add (canonical_name name) n value h,
        same_string-canonical_name name n,
      )
      (elim (Bool-cases (equal_ignoring_case name n)) [
        | inl same ↦ rw same refl
        | inr other ↦ rw other refl
      ])

is_some_all :
    (values : List (List ℕ))
    → is_some (if is_empty values then none else some (comma_list values)) ≡ not (is_empty values)
is_some_all [] = refl
is_some_all (value ∷ values) = refl

value_all :
    (values : List (List ℕ))
    → value_or_empty (if is_empty values then none else some (comma_list values))
      ≡ comma_list values
unfolding comma_list
value_all [] = refl
value_all (value ∷ values) = refl

-- Where there were no headers, a name finds the values of all fields whose names differ from it only
-- in case, in their order with commas between them, and is contained if there is such a field.
pub get-add_fields :
    (name : List ℕ) (fields : List (List ℕ × List ℕ))
    → (contains name (add_fields fields []) ≡ not (is_empty (values_of name fields)))
      × (get name (add_fields fields []) ≡ comma_list (values_of name fields))
unfolding contains get find_header
get-add_fields name fields =
    let found = find_header-add_fields name fields [] ∙ from_none (values_of name fields) in
    (
      ap is_some found ∙ is_some_all (values_of name fields),
      ap value_or_empty found ∙ value_all (values_of name fields),
    )
