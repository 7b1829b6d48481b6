-- ===== src/Future/Examples.antt =====
-- Concrete runs, and the theorems at concrete inputs.
use crouton.Common.{ℕ, true, some, [], ◌∷◌, ◌≡◌, ◌≢◌, refl}
use crouton.Future.{
  is_empty_state, waiting, ready, value, woken, FutureState, new_future, has_result, check_empty,
  suspend, set_result, suspend_set, suspend_exchange, store_result, notify_exchange, notify_waiters,
}
use crouton.Future.Invariant.{
  IsValid, start, next, step_suspend, step_set_result, Reach-IsValid_future,
}
use crouton.Future.Race
use crouton.Future.Race.{set_result_delivers, World, holding, suspended, exchanged, stored, done}

abbrev fresh : FutureState ℕ ℕ
fresh = new_future

fresh-IsValid : IsValid fresh
fresh-IsValid = Reach-IsValid_future start

abbrev asleep : FutureState ℕ ℕ
asleep = record fresh { state = waiting; suspension = some 4 }

abbrev finished : FutureState ℕ ℕ
finished = record fresh { state = ready; result = some (value 7); events = woken 4 ∷ [] }

Reach-IsValid_future_example : IsValid finished
unfolding suspend set_result
Reach-IsValid_future_example =
    Reach-IsValid_future
      (next (next {t = asleep} start (step_suspend 4 refl)) (step_set_result (value 7) refl))

-- The provider publishes its result after the coroutine has looked and before it commits.
abbrev late : World {T = ℕ} {E = ℕ} 4 (value 7)
late = record {
  future = record fresh { state = ready; suspension = some 4; result = some (value 7) };
  consumer = holding;
  provider = exchanged is_empty_state;
}

abbrev raced : World {T = ℕ} {E = ℕ} 4 (value 7)
raced = record { future = finished; consumer = suspended; provider = done }

Reach-raced_future : Race.Reach 4 (value 7) raced
unfolding check_empty suspend_set suspend_exchange store_result notify_exchange notify_waiters
Reach-raced_future =
    Race.next {w = record raced { provider = exchanged is_empty_state }}
      (Race.next {w = late}
        (Race.next
          {w = record late {
            provider = stored;
            future = record fresh { suspension = some 4; result = some (value 7) };
          }}
          (Race.next
            {w = record (Race.begin 4 (value 7)) {
              consumer = holding;
              future = record fresh { suspension = some 4 };
            }}
            (Race.next {w = record (Race.begin 4 (value 7)) { consumer = Race.looked }}
              (Race.next Race.here (Race.look refl refl refl)) (Race.hold refl refl))
            (Race.store refl refl))
          (Race.publish refl refl))
        (Race.commit refl refl))
      (Race.act is_empty_state refl refl)

set_result_delivers_example :
    (raced.consumer ≡ suspended → raced.future.events ≡ woken 4 ∷ [])
    × (raced.consumer ≢ suspended → raced.future.events ≡ [])
    × (has_result raced.future ≡ true)
    × (raced.future.result ≡ some (value 7))
set_result_delivers_example = set_result_delivers 4 (value 7) raced Reach-raced_future refl
