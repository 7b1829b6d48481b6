-- ===== src/Select/Examples.antt =====
-- A Select with three sources, of which two are enabled.
use crouton.Common.{Bool, true, false, none, some, List, [], ◌∷◌, ◌≡◌, refl, arith, ◌⊎◌}
use crouton.Select.{
  Select, new_select, is_set, set_bit, any_set, notify, enable, await_ready, await_suspend,
  await_resume, none_set,
}
use crouton.Select.Wait.{
  Reach, enabled, suspended, start, next, Reach-IsValid_select, await_resume-notify,
}

abbrev fresh : Select
fresh = record {
  sources = 1 ∷ 2 ∷ 3 ∷ [];
  enabled = none_set;
  ready = none_set;
  suspension = none;
  woken = [];
}

abbrev two : List Bool
two = false ∷ true ∷ true ∷ false ∷ false ∷ false ∷ false ∷ false ∷ []

abbrev watching : Select
watching = record fresh { enabled = two }

abbrev waiting : Select
waiting = record watching { suspension = some 7 }

watching-Reach : Reach watching
unfolding new_select enable is_set set_bit
watching-Reach =
    next (next (start (1 ∷ 2 ∷ 3 ∷ []) refl) (enabled false 1 refl)) (enabled false 2 refl)

waiting-Reach : Reach waiting
unfolding await_ready await_suspend any_set
waiting-Reach = next watching-Reach (suspended 7 refl)

Reach-IsValid_select_example :
    (waiting.suspension ≡ none) ⊎ ((any_set none_set ≡ false) × (any_set two ≡ true))
Reach-IsValid_select_example = Reach-IsValid_select waiting-Reach

await_resume-notify_example :
    ((notify 2 waiting).woken ≡ 7 ∷ [])
    × ((notify 2 waiting).suspension ≡ none)
    × ((await_resume (notify 2 waiting)).0 ≡ some 2)
    × (any_set (await_resume (notify 2 waiting)).1.ready ≡ false)
await_resume-notify_example = await_resume-notify 2 7 waiting waiting-Reach (omega arith) refl
