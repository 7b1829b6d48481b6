-- ===== src/Varint/Examples.antt =====
-- Concrete runs, and the theorems at concrete inputs.
use crouton.Common.{ℕ, ◌≤◌, ◌<◌, ◌≡◌, ◌↔◌, refl, arith, none, some, List, [], ◌∷◌, ◌++◌, take, All}
use crouton.Common.Result.{ok, err, parse_error}
use crouton.Varint.{max_size, read_partial, read, put}
use crouton.Varint.RoundTrip.{read-put}
use crouton.Varint.Read.{IsContinued, read_partial_iff}

abbrev nine_ff : List ℕ → List ℕ
nine_ff t = 0xff ∷ 0xff ∷ 0xff ∷ 0xff ∷ 0xff ∷ 0xff ∷ 0xff ∷ 0xff ∷ 0xff ∷ t

put_300 : put 300 ≡ 0xac ∷ 0x02 ∷ []
unfolding put
put_300 = refl

put_max : put 0xffff_ffff_ffff_ffff ≡ nine_ff (1 ∷ [])
unfolding put
put_max = refl

read_endless : read (nine_ff (0x80 ∷ 0 ∷ [])) ≡ err parse_error
unfolding read
read_endless = refl

-- A tenth byte above 1 loses its upper bits to the shift.
read_wide : read (nine_ff (3 ∷ [])) ≡ ok (0xffff_ffff_ffff_ffff, [])
unfolding read
read_wide = refl

read_partial_cut : read_partial (0xac ∷ []) ≡ ok none
unfolding read_partial
read_partial_cut = refl

read_partial_padded : read_partial (0x80 ∷ 0x00 ∷ 7 ∷ []) ≡ ok (some (0, 7 ∷ []))
unfolding read_partial
read_partial_padded = refl

read-put_example : read (put 300 ++ (9 ∷ [])) ≡ ok (300, 9 ∷ [])
read-put_example = read-put 300 (9 ∷ []) (omega arith)

read_partial_iff_example :
    ((read_partial (0xac ∷ []) ≡ err parse_error)
      ↔ ((max_size ≤ 1) × All IsContinued (take max_size (0xac ∷ []))))
    × ((read_partial (0xac ∷ []) ≡ ok none) ↔ ((1 < max_size) × All IsContinued (0xac ∷ [])))
read_partial_iff_example = read_partial_iff (0xac ∷ [])
