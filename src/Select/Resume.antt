-- ===== src/Select/Resume.antt =====
-- Select::await_resume: the lowest source that is ready.
use crouton.Common.{
  ℕ, zero, suc, Bool, true, false, none, some, List, [], ◌∷◌, ◌≡◌, refl, ◌⊎◌, inl, inr, arith,
}
use crouton.Select.{Select, is_set, set_bit, any_set, first_ready, await_resume}

-- No bit below this index is set.
unfoldable pub IsLowest : ℕ → List Bool → Type 0
IsLowest zero bits = Unit {0}
IsLowest (suc i) [] = Unit {0}
IsLowest (suc i) (b ∷ bits) = (b ≡ false) × IsLowest i bits

first_ready_cases :
    (bits : List Bool)
    → ((first_ready bits ≡ none) × (any_set bits ≡ false))
      ⊎ ((i : ℕ) × (first_ready bits ≡ some (i, set_bit i false bits))
          × (is_set bits i ≡ true)
          × IsLowest i bits)
unfolding first_ready any_set set_bit is_set IsLowest
first_ready_cases [] = inl (refl, refl)
first_ready_cases (true ∷ bits) = inr (0, refl, refl, tt)
first_ready_cases (false ∷ bits) = elim (first_ready_cases bits) [
  | inl (e, nothing) ↦ inl (ground arith, nothing)
  | inr (i, e, ready, lowest) ↦ inr (suc i, ground arith, ready, (refl, lowest))
]

-- Either no source is ready, and await_resume returns -1 and changes nothing, or it returns the
-- lowest index that is ready, and this source is no longer ready, and nothing else is changed.
pub await_resume_lem :
    (s : Select)
    → ((await_resume s ≡ (none, s)) × (any_set s.ready ≡ false))
      ⊎ ((i : ℕ) × (await_resume s ≡ (some i, record s { ready = set_bit i false s.ready }))
          × (is_set s.ready i ≡ true)
          × IsLowest i s.ready)
unfolding await_resume
await_resume_lem s = elim (first_ready_cases s.ready) [
  | inl (e, nothing) ↦ inl (ground arith, nothing)
  | inr (i, e, ready, lowest) ↦ inr (i, ground arith, ready, lowest)
]
