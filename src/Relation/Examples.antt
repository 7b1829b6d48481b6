-- ===== src/Relation/Examples.antt =====
-- Two objects that are a pair, and a third one.
use crouton.Common.{◌==◌, if◌then◌else◌, ◌≡◌, refl, ◌⊎◌, arith}
use crouton.Common.Result.{ok}
use crouton.Relation.{Others}
use crouton.Relation.OneToOne.{connect, move, hookup}
use crouton.Relation.Pairs.{IsPaired, connect-IsPaired}

abbrev pair : Others
pair = λ x. if x == 1 then 2 else if x == 2 then 1 else 0

pair-IsPaired : IsPaired pair
pair-IsPaired = record { null_free = refl; back = λ x h. ground arith; other = λ x h. ground arith }

connect-IsPaired_example :
    (o' : Others) × (connect 1 3 pair ≡ ok o')
    × IsPaired o'
    × (o' 1 ≡ 3)
    × ((pair 1 ≡ 0) ⊎ (o' (pair 1) ≡ 0))
connect-IsPaired_example = connect-IsPaired 1 3 pair pair-IsPaired refl refl refl refl

moved : move 3 1 pair 2 ≡ 3
unfolding move hookup
moved = refl
