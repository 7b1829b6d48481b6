-- ===== src/CoCondition/Examples.antt =====
-- Concrete runs, and the theorems at concrete inputs.
use crouton.Common.{ℕ, none, some, [], ◌∷◌, ◌≡◌, refl, ◌≢◌}
use crouton.Common.Result.{ok}
use crouton.CoCondition.{
  new_blocker, initial, is_ready, await_ready, await_suspend_set, await_suspend_exchange,
  notify_store, notify_exchange, notify_wake, await_resume, CoCondition, notify_all,
}
use crouton.CoCondition.Race.{
  World, Reach, here, next, set, exchange, store, publish, wake, done, suspended, suspending,
  stored, exchanged, notify_delivers,
}
use crouton.CoCondition.Notify.{notify_all_lem, notify_times}

abbrev two_waiting : CoCondition
two_waiting = record { awaiters = 4 ∷ 5 ∷ []; woken = [] }

notify_all_lem_example : notify_all two_waiting ≡ notify_times 2 two_waiting
notify_all_lem_example = notify_all_lem two_waiting

abbrev after_store : World {T = ℕ} 3 42
after_store = record {
  blocker = record { state = initial; suspension = some 3; value = some 42; woken = [] };
  awaiter = suspending;
  notifier = stored;
}

-- The notifier publishes its value while coroutine 3 is being suspended.
abbrev after_publish : World {T = ℕ} 3 42
after_publish = record after_store {
  blocker = record (after_store.blocker) { state = is_ready };
  notifier = exchanged initial;
}

abbrev raced : World {T = ℕ} 3 42
raced = record {
  blocker = record { state = is_ready; suspension = none; value = some 42; woken = 3 ∷ [] };
  awaiter = suspended;
  notifier = done;
}

Reach-store : Reach 3 42 after_store
unfolding new_blocker await_ready await_suspend_set notify_store
Reach-store = next (next here (set refl refl refl)) (store _ refl refl refl)

Reach-raced : Reach 3 42 raced
unfolding notify_exchange notify_wake await_suspend_exchange
Reach-raced =
    next {w = record after_publish { awaiter = suspended; blocker = raced.blocker }}
      (next {w = after_publish} (next {w = after_store} Reach-store (publish refl refl))
        (exchange raced.blocker refl refl refl))
      (wake initial refl refl)

notify_delivers_example :
    (raced.awaiter ≡ suspended → raced.blocker.woken ≡ 3 ∷ [])
    × (raced.awaiter ≢ suspended → raced.blocker.woken ≡ [])
    × (await_resume raced.blocker ≡ ok (42, record (raced.blocker) { value = none }))
notify_delivers_example = notify_delivers 3 42 raced Reach-raced refl
