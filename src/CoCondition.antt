-- ===== src/CoCondition.antt =====
-- src/CoCondition.cc and include/crouton/CoCondition.hh: `CoCondition`, a list of coroutines that
-- wait, and `Blocker`, where one coroutine waits for a value that any thread may give.
-- A coroutine is its handle, a number. `woken` is the history of the coroutines that have been
-- made runnable; what the scheduler does with them is the module `Scheduler`.
pub mod Race
pub mod Notify
mod Examples
use crouton.Common.{ℕ, if◌then◌else◌, Bool, true, false, Option, none, some, List, [], ◌∷◌, ◌++◌}
use crouton.Common.Result.{Result, ok, err, assertion, ◌>>=◌, ◌>>◌, guard}

pub record CoCondition : Type 0 where
  pub awaiters : List ℕ
  pub woken : List ℕ

-- `CoCondition::awaiter::await_suspend`
unfoldable pub await : ℕ → CoCondition → CoCondition
await h c = record c { awaiters = c.awaiters ++ h ∷ [] }

abbrev pub wake_first : List ℕ → CoCondition → CoCondition
wake_first [] c = c
wake_first (h ∷ rest) c = record { awaiters = rest; woken = c.woken ++ h ∷ [] }

unfoldable pub notify_one : CoCondition → CoCondition
notify_one c = wake_first c.awaiters c

-- The loop of `notifyAll`, over the list that has been moved out.
unfoldable pub wake_each : List ℕ → CoCondition → CoCondition
wake_each [] c = c
wake_each (a ∷ awaiters) c = wake_each awaiters (record c { woken = c.woken ++ a ∷ [] })

unfoldable pub notify_all : CoCondition → CoCondition
unfolding wake_each
notify_all c = wake_each c.awaiters (record c { awaiters = [] })

-- `BlockerBase::State`
pub data State : Type 0 where
  initial waiting is_ready : State

-- `suspension` is none while `_suspension` is empty.
pub record Blocker (T : Type 0) : Type 0 where
  pub state : State
  pub suspension : Option ℕ
  pub value : Option T
  pub woken : List ℕ

module _ {T : Type 0} where
  pub new_blocker : Blocker T
  new_blocker = record { state = initial; suspension = none; value = none; woken = [] }

  -- `Suspension::wakeUp`: nothing where the suspension is empty.
  abbrev pub wake_suspension : Option ℕ → Blocker T → Blocker T
  wake_suspension none b = b
  wake_suspension (some h) b = record b { suspension = none; woken = b.woken ++ h ∷ [] }

  pub await_ready : Blocker T → Bool
  await_ready b = elim b.state [ is_ready ↦ true | _ ↦ false ]

  -- `await_suspend` in its two steps, between which another thread may run: `_suspension` is set,
  -- then the state is compared and exchanged.
  pub await_suspend_set : ℕ → Blocker T → Blocker T
  await_suspend_set h b = record b { suspension = some h }

  pub await_suspend_exchange : Blocker T → Result (Blocker T)
  await_suspend_exchange b = elim b.state [
    | initial ↦ ok (record b { state = waiting })
    | waiting ↦ err assertion
    | is_ready ↦ ok (wake_suspension b.suspension b)
  ]

  -- `notify` in its steps: the value is stored, the state is exchanged, and what the exchange
  -- returned decides whether the suspension is woken.
  pub notify_store : T → Blocker T → Result (Blocker T)
  notify_store v b = elim b.value [
    | none ↦ ok (record b { value = some v })
    | some w ↦ err assertion
  ]

  pub notify_exchange : Blocker T → State × Blocker T
  notify_exchange b = (b.state, record b { state = is_ready })

  pub notify_wake : State → Blocker T → Blocker T
  notify_wake waiting b = wake_suspension b.suspension b
  notify_wake _ b = b

  -- `await_resume` of `Blocker<T>` takes the value out.
  pub await_resume : Blocker T → Result (T × Blocker T)
  await_resume b = do
    guard (await_ready b) assertion
    elim b.value [ none ↦ err assertion | some v ↦ ok (v, record b { value = none }) ]

  pub reset : Blocker T → Blocker T
  reset b = record b { state = initial }
