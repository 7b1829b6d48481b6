-- ===== src/Select.antt =====
-- Select.hh and Select.cc: one coroutine that waits for the first of several sources. A source is an
-- abstract ISelectable; that it is ready when its callback is set, and calls it at once, is an
-- argument. The handles that are woken are a history.
pub mod Resume
pub mod Wait
mod Examples
use crouton.Common.{
  ℕ, zero, suc, ◌+◌, ltb, leb, ◌==◌, if◌then◌else◌, Bool, true, false, not, ◌&&◌, ◌||◌, Option,
  none, some, List, [], ◌∷◌, ◌++◌, length,
}
use crouton.Common.Result.{Result, ok, err, ◌>>=◌, ◌>>◌, guard, assertion}

abbrev pub max_sources : ℕ
max_sources = 8

-- `std::bitset`
abbrev pub none_set : List Bool
none_set = false ∷ false ∷ false ∷ false ∷ false ∷ false ∷ false ∷ false ∷ []

unfoldable pub is_set : List Bool → ℕ → Bool
is_set [] i = false
is_set (b ∷ bits) zero = b
is_set (b ∷ bits) (suc i) = is_set bits i

unfoldable pub set_bit : ℕ → Bool → List Bool → List Bool
set_bit i value [] = []
set_bit zero value (b ∷ bits) = value ∷ bits
set_bit (suc i) value (b ∷ bits) = b ∷ set_bit i value bits

unfoldable pub any_set : List Bool → Bool
any_set [] = false
any_set (b ∷ bits) = b || any_set bits

pub record Select : Type 0 where
  pub sources : List ℕ
  pub enabled : List Bool
  pub ready : List Bool
  pub suspension : Option ℕ
  pub woken : List ℕ

unfoldable pub new_select : List ℕ → Result Select
new_select sources =
    guard (leb (length sources) max_sources) assertion
    >> ok (record {
      sources = sources;
      enabled = none_set;
      ready = none_set;
      suspension = none;
      woken = [];
    })

unfoldable pub wake_up : Select → Select
wake_up s = elim s.suspension [
  | none ↦ s
  | some h ↦ record s { suspension = none; woken = s.woken ++ h ∷ [] }
]

unfoldable pub notify : ℕ → Select → Select
unfolding wake_up set_bit
notify i s =
    wake_up (record s { ready = set_bit i true s.ready; enabled = set_bit i false s.enabled })

-- `enable(index)`; the argument says whether the source calls back at once.
unfoldable pub enable : Bool → ℕ → Select → Result Select
unfolding notify is_set set_bit
enable at_once i s =
    let watched = record s { enabled = set_bit i true s.enabled } in
    guard (ltb i (length s.sources)) assertion
    >> ok (if is_set s.enabled i then s else if at_once then notify i watched else watched)

-- `enable()`, with the sources that call back at once.
unfoldable pub enable_from : (ℕ → Bool) → ℕ → ℕ → Select → Result Select
unfolding enable
enable_from at_once zero i s = ok s
enable_from at_once (suc k) i s = enable (at_once i) i s >>= enable_from at_once k (suc i)

unfoldable pub enable_all : (ℕ → Bool) → Select → Result Select
unfolding enable_from
enable_all at_once s = enable_from at_once (length s.sources) 0 s

unfoldable pub await_ready : Select → Bool
unfolding any_set
await_ready s = any_set s.ready || not (any_set s.enabled)

unfoldable pub await_suspend : ℕ → Select → Select
await_suspend h s = record s { suspension = some h }

-- The loop of `await_resume`: the first index that is ready, and the others.
unfoldable pub first_ready : List Bool → Option (ℕ × List Bool)
first_ready [] = none
first_ready (true ∷ bits) = some (0, false ∷ bits)
first_ready (false ∷ bits) = elim (first_ready bits) [
  | none ↦ none
  | some (i, rest) ↦ some (suc i, false ∷ rest)
]

-- The index, or none for -1.
unfoldable pub await_resume : Select → Option ℕ × Select
unfolding first_ready
await_resume s = elim (first_ready s.ready) [
  | none ↦ (none, s)
  | some (i, rest) ↦ (some i, record s { ready = rest })
]

-- The destructor takes the callbacks back from these sources.
unfoldable pub cancelled_from : ℕ → List Bool → List ℕ
cancelled_from i [] = []
cancelled_from i (b ∷ bits) =
    let others = cancelled_from (suc i) bits in if b then i ∷ others else others

unfoldable pub destroy : Select → List ℕ
unfolding cancelled_from
destroy s = cancelled_from 0 s.enabled
