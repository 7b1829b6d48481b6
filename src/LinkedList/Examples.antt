-- ===== src/LinkedList/Examples.antt =====
-- A list whose head is at 100, with links at small addresses.
use crouton.Common.{◌==◌, if◌then◌else◌, none, some, List, [], ◌∷◌, ◌≡◌, refl, arith}
use crouton.Common.Result.{ok}
use crouton.LinkedList.{Memory, push_back}
use crouton.LinkedList.Refines.{Represents}
use crouton.LinkedList.Ops.{
  Op, to_front, to_back, pop, out, run, spec, spec_op, run-Represents, push_back-last,
}

-- No link is in a list, and the list is new.
abbrev fresh : Memory
fresh = record { next = λ x. if x == 100 then 100 else 0; prev = λ x. if x == 100 then 100 else 0 }

fresh-Represents : Represents fresh 100 []
fresh-Represents = record {
  chain = (refl, refl);
  apart = (refl, tt);
  no_null = refl;
  detached = λ x h. ground arith;
}

abbrev ops : List Op
ops = to_back 1 ∷ to_back 2 ∷ to_front 3 ∷ to_front 2 ∷ out 1 ∷ pop ∷ to_back 4 ∷ []

run-Represents_example :
    (m' : Memory) × (run 100 ops fresh
      ≡ ok (none ∷ none ∷ none ∷ none ∷ none ∷ some 2 ∷ none ∷ [], m'))
    × Represents m' 100 (3 ∷ 4 ∷ [])
unfolding spec spec_op
run-Represents_example =
    run-Represents fresh 100 ops [] (3 ∷ 4 ∷ [])
      (none ∷ none ∷ none ∷ none ∷ none ∷ some 2 ∷ none ∷ []) fresh-Represents
      (
        (refl, refl),
        ((refl, refl), ((refl, refl), ((refl, refl), (refl, (tt, ((refl, refl), tt)))))),
      )
      refl

-- One link, at 7.
abbrev single : Memory
single = record {
  next = λ x. if x == 100 then 7 else if x == 7 then 100 else 0;
  prev = λ x. if x == 100 then 7 else if x == 7 then 100 else 0;
}

single-Represents : Represents single 100 (7 ∷ [])
single-Represents = record {
  chain = (refl, refl, (refl, refl));
  apart = (refl, (refl, tt));
  no_null = refl;
  detached = λ x h. ground arith;
}

push_back-last_example :
    (m' : Memory) × (push_back 100 7 single ≡ ok m')
    × ((m'.next 100 ≡ 100) × (m'.prev 100 ≡ 100))
    × (m'.next 7 ≡ 7)
    × (m'.prev 7 ≡ 7)
push_back-last_example = push_back-last single 100 7 [] single-Represents
