-- ===== src/Select/Wait.antt =====
-- Select: a coroutine that waits has a source that will wake it.
use mathlib.Core.Path.{subst}
use crouton.Common.{
  length, ℕ, zero, suc, ◌<◌, Bool, true, false, Bool-cases, Option, none, some, List, [], ◌∷◌, ◌++◌,
  ◌≡◌, refl, ap, ◌∙◌, sym, ◌⊎◌, inl, inr, arith,
}
use crouton.Common.Result.{ok}
use crouton.Select.{
  Select, new_select, is_set, set_bit, any_set, wake_up, notify, enable, await_ready, await_suspend,
  await_resume, first_ready,
}
use crouton.Select.Resume.{await_resume_lem}

-- What the coroutine and the sources can do: a source that is enabled calls back once, and
-- `co_await` suspends only if it is not ready.
pub data Step : Select → Select → Type 0 where
  enabled : (at_once : Bool) (i : ℕ) {s s' : Select} → enable at_once i s ≡ ok s' → Step s s'
  notified : (i : ℕ) {s : Select} → is_set s.enabled i ≡ true → Step s (notify i s)
  suspended : (h : ℕ) {s : Select} → await_ready s ≡ false → Step s (await_suspend h s)
  resumed : {s : Select} → Step s (await_resume s).1

pub data Reach : Select → Type 0 where
  start : (sources : List ℕ) {s : Select} → new_select sources ≡ ok s → Reach s
  next : {s s' : Select} → Reach s → Step s s' → Reach s'

-- While a coroutine waits, nothing is ready and a source is enabled.
abbrev pub IsValid : Select → Type 0
IsValid s = (s.suspension ≡ none) ⊎ ((any_set s.ready ≡ false) × (any_set s.enabled ≡ true))

wake_up-suspension : (s : Select) → (wake_up s).suspension ≡ none
unfolding wake_up
wake_up-suspension s = ground arith

notify-suspension : (i : ℕ) (s : Select) → (notify i s).suspension ≡ none
unfolding notify
notify-suspension i s =
    wake_up-suspension
      (record s { ready = set_bit i true s.ready; enabled = set_bit i false s.enabled })

any_set-set_bit :
    (i : ℕ) (bits : List Bool) → any_set bits ≡ true → any_set (set_bit i true bits) ≡ true
unfolding any_set set_bit
any_set-set_bit i [] h = h
any_set-set_bit zero (b ∷ bits) h = refl
any_set-set_bit (suc i) (b ∷ bits) h = ground (arith, any_set-set_bit i bits)

enable_cases :
    (at_once : Bool) (i : ℕ) (s s' : Select)
    → enable at_once i s ≡ ok s'
    → (s' ≡ s) ⊎ (s'.suspension ≡ none) ⊎ (s' ≡ record s { enabled = set_bit i true s.enabled })
unfolding enable
enable_cases false i s s' e = elim (Bool-cases (is_set s.enabled i)) [
  | inl already ↦ inl (ground arith)
  | inr not_yet ↦ inr (inr (ground arith))
]
enable_cases true i s s' e = elim (Bool-cases (is_set s.enabled i)) [
  | inl already ↦ inl (ground arith)
  | inr not_yet ↦
      let watched = record s { enabled = set_bit i true s.enabled } in
      let same : s' ≡ notify i watched = ground arith in
      inr (inl (ap (λ (t : Select). t.suspension) same ∙ notify-suspension i watched))
]

is_set-any_set : (i : ℕ) (bits : List Bool) → is_set bits i ≡ true → any_set bits ≡ true
unfolding is_set any_set
is_set-any_set i [] h = h
is_set-any_set zero (b ∷ bits) h = ground arith
is_set-any_set (suc i) (b ∷ bits) h = ground (arith, is_set-any_set i bits)

await_resume-suspension : (s : Select) → (await_resume s).1.suspension ≡ s.suspension
unfolding await_resume
await_resume-suspension s = ground arith

resume_waiting : (s : Select) → any_set s.ready ≡ false → (await_resume s).1 ≡ s
resume_waiting s nothing = elim (await_resume_lem s) [
  | inl (e, same) ↦ ap (λ (r : Option ℕ × Select). r.1) e
  | inr (i, e, ready, lowest) ↦ absurd (ground (arith, is_set-any_set i s.ready))
]

await_ready-false :
    (s : Select) → await_ready s ≡ false → (any_set s.ready ≡ false) × (any_set s.enabled ≡ true)
unfolding await_ready
await_ready-false s e = ground arith

enabled-IsValid :
    (i : ℕ) (s : Select) → IsValid s → IsValid (record s { enabled = set_bit i true s.enabled })
enabled-IsValid i s (inl idle) = inl idle
enabled-IsValid i s (inr (nothing, watched)) = inr (nothing, any_set-set_bit i s.enabled watched)

Step-IsValid : (s s' : Select) → IsValid s → Step s s' → IsValid s'
Step-IsValid s s' valid (enabled at_once i e) = elim (enable_cases at_once i s s' e) [
  | inl same ↦ subst IsValid (sym same) valid
  | inr (inl idle) ↦ inl idle
  | inr (inr same) ↦ subst IsValid (sym same) (enabled-IsValid i s valid)
]
Step-IsValid s s' valid (notified i e) = inl (notify-suspension i s)
Step-IsValid s s' valid (suspended h e) = unfold await_suspend in inr (await_ready-false s e)
Step-IsValid s s' (inl idle) resumed = inl (await_resume-suspension s ∙ idle)
Step-IsValid s s' (inr (nothing, watched)) resumed =
    subst IsValid (sym (resume_waiting s nothing)) (inr (nothing, watched))

new_select-IsValid : (sources : List ℕ) (s : Select) → new_select sources ≡ ok s → IsValid s
unfolding new_select
new_select-IsValid sources s e = inl (ground arith)

-- After any steps of the coroutine and of the sources, from a new Select: while a coroutine waits,
-- no source is ready that it was not told of, and a source is enabled, whose callback will wake it.
pub Reach-IsValid_select : {s : Select} → Reach s → IsValid s
Reach-IsValid_select (start sources {s} e) = new_select-IsValid sources s e
Reach-IsValid_select (next {s} {s'} reach st) = Step-IsValid s s' (Reach-IsValid_select reach) st

-- The only bit that is set is the one that is found.
first_ready-set_bit :
    (i : ℕ) (bits : List Bool)
    → any_set bits ≡ false
    → i < length bits
    → (rest : List Bool) × (first_ready (set_bit i true bits) ≡ some (i, rest))
      × (any_set rest ≡ false)
unfolding first_ready set_bit any_set
first_ready-set_bit i [] nothing inside = absurd (omega arith)
first_ready-set_bit i (true ∷ bits) nothing inside = absurd (ground arith)
first_ready-set_bit zero (false ∷ bits) nothing inside = (false ∷ bits, refl, nothing)
first_ready-set_bit (suc i) (false ∷ bits) nothing inside =
    let (rest, e, clear) = first_ready-set_bit i bits nothing (omega arith) in
    (false ∷ rest, ground arith, clear)

notify_waiting :
    (i h : ℕ) (s : Select)
    → s.suspension ≡ some h
    → notify i s ≡ record s {
      ready = set_bit i true s.ready;
      enabled = set_bit i false s.enabled;
      suspension = none;
      woken = s.woken ++ h ∷ [];
    }
unfolding notify wake_up
notify_waiting i h s waits = ground arith

await_resume-ready :
    (i : ℕ) (rest : List Bool) (s : Select)
    → first_ready s.ready ≡ some (i, rest)
    → await_resume s ≡ (some i, record s { ready = rest })
unfolding await_resume
await_resume-ready i rest s e = ground arith

waits_quiet : (h : ℕ) (s : Select) → IsValid s → s.suspension ≡ some h → any_set s.ready ≡ false
waits_quiet h s (inl idle) waits = absurd (ground arith)
waits_quiet h s (inr (nothing, watched)) waits = nothing

-- Where the source of an enabled index calls back, the coroutine that waits is woken, once, and
-- await_resume then gives this index and leaves nothing else ready.
pub await_resume-notify :
    (i h : ℕ) (s : Select)
    → Reach s
    → i < length s.ready
    → s.suspension ≡ some h
    → ((notify i s).woken ≡ s.woken ++ h ∷ [])
      × ((notify i s).suspension ≡ none)
      × ((await_resume (notify i s)).0 ≡ some i)
      × (any_set (await_resume (notify i s)).1.ready ≡ false)
await_resume-notify i h s reach inside waits =
    let (rest, first, clear) =
      first_ready-set_bit i s.ready (waits_quiet h s (Reach-IsValid_select reach) waits) inside in
    let woken = record s {
      ready = set_bit i true s.ready;
      enabled = set_bit i false s.enabled;
      suspension = none;
      woken = s.woken ++ h ∷ [];
    } in
    let resumed = await_resume-ready i rest woken first in
    rw (notify_waiting i h s waits) (
      refl,
      refl,
      ap (λ (r : Option ℕ × Select). r.0) resumed,
      ap (λ (r : Option ℕ × Select). any_set r.1.ready) resumed ∙ clear,
    )
