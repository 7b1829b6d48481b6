-- ===== src/Future/Race.antt =====
-- A coroutine awaits a Future while a provider on another thread sets its result: every
-- interleaving of the steps of `suspend` and of `setResult`.
use crouton.Common.{ℕ, true, false, Option, none, some, List, [], ◌∷◌, ◌≡◌, ◌≢◌, refl, arith, ◌⊎◌}
use crouton.Common.Result.{ok}
use crouton.Future.{
  State, is_empty_state, waiting, ready, Outcome, Event, woken, FutureState, new_future, has_result,
  check_empty, suspend_set, suspend_exchange, store_result, notify_exchange, notify_waiters,
}

-- Where the coroutine stands: `looked` has found the state Empty; `going_on` has found a result
-- and does not suspend.
pub data Consumer : Type 0 where
  before looked holding suspended going_on : Consumer

pub data Provider : Type 0 where
  idle stored done : Provider
  exchanged : State → Provider

module _ {T E : Type 0} (h : ℕ) (r : Outcome T E) where
  pub record World : Type 0 where
    pub future : FutureState T E
    pub consumer : Consumer
    pub provider : Provider

  pub data Step (w u : World) : Type 0 where
    look :
        w.consumer ≡ before
        → check_empty w.future.state ≡ ok true
        → u ≡ record w { consumer = looked }
        → Step w u
    pass :
        w.consumer ≡ before
        → check_empty w.future.state ≡ ok false
        → u ≡ record w { consumer = going_on }
        → Step w u
    hold :
        w.consumer ≡ looked
        → u ≡ record w { consumer = holding; future = suspend_set h w.future }
        → Step w u
    commit :
        w.consumer ≡ holding
        → u ≡ record w { consumer = suspended; future = (suspend_exchange w.future).1 }
        → Step w u
    store :
        w.provider ≡ idle
        → u ≡ record w { provider = stored; future = store_result r w.future }
        → Step w u
    publish :
        w.provider ≡ stored
        → u ≡ record w {
          provider = exchanged (notify_exchange w.future).0;
          future = (notify_exchange w.future).1;
        }
        → Step w u
    act :
        (s : State)
        → w.provider ≡ exchanged s
        → u ≡ record w { provider = done; future = (notify_waiters s w.future).1 }
        → Step w u

  abbrev pub begin : World
  begin = record { future = new_future; consumer = before; provider = idle }

  pub data Reach : World → Type 0 where
    here : Reach begin
    next : {w u : World} → Reach w → Step w u → Reach u

  -- The state, the suspension and the events.
  abbrev Shows : State → Option ℕ → List (Event T E) → FutureState T E → Type 0
  Shows st sus ev f = (f.state ≡ st) × (f.suspension ≡ sus) × (f.events ≡ ev)

  abbrev unsuspended : Consumer → Option ℕ
  unsuspended holding = some h
  unsuspended _ = none

  abbrev At : Consumer → Provider → FutureState T E → Type 0
  At suspended idle f = Shows waiting (some h) [] f
  At suspended stored f = Shows waiting (some h) [] f × (f.result ≡ some r)
  At suspended (exchanged s) f =
      (f.result ≡ some r)
      × (((s ≡ waiting) × Shows ready (some h) [] f)
          ⊎ ((s ≡ is_empty_state) × Shows ready none (woken h ∷ []) f))
  At suspended done f = Shows ready none (woken h ∷ []) f × (f.result ≡ some r)
  At going_on idle f = ⊥
  At going_on stored f = ⊥
  At c idle f = Shows is_empty_state (unsuspended c) [] f
  At c stored f = Shows is_empty_state (unsuspended c) [] f × (f.result ≡ some r)
  At c (exchanged s) f =
      (s ≡ is_empty_state) × Shows ready (unsuspended c) [] f × (f.result ≡ some r)
  At c done f = Shows ready (unsuspended c) [] f × (f.result ≡ some r)

  look_At :
      (p : Provider) (f : FutureState T E)
      → At before p f
      → check_empty f.state ≡ ok true
      → At looked p f
  unfolding check_empty
  look_At idle f a e = a
  look_At stored f a e = a
  look_At (exchanged s) f a e = a
  look_At done f a e = a

  pass_At :
      (p : Provider) (f : FutureState T E)
      → At before p f
      → check_empty f.state ≡ ok false
      → At going_on p f
  unfolding check_empty
  pass_At idle f a e = ground arith
  pass_At stored f a e = ground arith
  pass_At (exchanged s) f a e = a
  pass_At done f a e = a

  hold_At : (p : Provider) (f : FutureState T E) → At looked p f → At holding p (suspend_set h f)
  unfolding suspend_set
  hold_At idle f a = ground arith
  hold_At stored f a = ground arith
  hold_At (exchanged s) f a = ground arith
  hold_At done f a = ground arith

  commit_At :
      (p : Provider) (f : FutureState T E) → At holding p f → At suspended p (suspend_exchange f).1
  unfolding suspend_exchange
  commit_At idle f a = ground arith
  commit_At stored f a = ground arith
  commit_At (exchanged s) f a = ground arith
  commit_At done f a = ground arith

  store_At : (c : Consumer) (f : FutureState T E) → At c idle f → At c stored (store_result r f)
  unfolding store_result
  store_At before f a = ground arith
  store_At looked f a = ground arith
  store_At holding f a = ground arith
  store_At suspended f a = ground arith
  store_At going_on f a = absurd a

  publish_At :
      (c : Consumer) (f : FutureState T E)
      → At c stored f
      → At c (exchanged (notify_exchange f).0) (notify_exchange f).1
  unfolding notify_exchange
  publish_At before f a = ground arith
  publish_At looked f a = ground arith
  publish_At holding f a = ground arith
  publish_At suspended f a = ground arith
  publish_At going_on f a = absurd a

  act_At :
      (c : Consumer) (s : State) (f : FutureState T E)
      → At c (exchanged s) f
      → At c done (notify_waiters s f).1
  unfolding notify_waiters
  act_At before s f a = ground arith
  act_At looked s f a = ground arith
  act_At holding s f a = ground arith
  act_At suspended s f a = ground arith
  act_At going_on s f a = ground arith

  abbrev AtWorld : World → Type 0
  AtWorld w = At w.consumer w.provider w.future

  Step-AtWorld : (w u : World) → Step w u → AtWorld w → AtWorld u
  Step-AtWorld w u (look p c e) a = rw e (look_At w.provider w.future (rw p at a) c)
  Step-AtWorld w u (pass p c e) a = rw e (pass_At w.provider w.future (rw p at a) c)
  Step-AtWorld w u (hold p e) a = rw e (hold_At w.provider w.future (rw p at a))
  Step-AtWorld w u (commit p e) a = rw e (commit_At w.provider w.future (rw p at a))
  Step-AtWorld w u (store p e) a = rw e (store_At w.consumer w.future (rw p at a))
  Step-AtWorld w u (publish p e) a = rw e (publish_At w.consumer w.future (rw p at a))
  Step-AtWorld w u (act s p e) a = rw e (act_At w.consumer s w.future (rw p at a))

  Reach-AtWorld : {w : World} → Reach w → AtWorld w
  Reach-AtWorld here = (refl, refl, refl)
  Reach-AtWorld (next {w} {u} r st) = Step-AtWorld w u st (Reach-AtWorld r)

  resolved_At :
      (c : Consumer) (f : FutureState T E)
      → At c done f
      → (c ≡ suspended → f.events ≡ woken h ∷ [])
        × (c ≢ suspended → f.events ≡ [])
        × (has_result f ≡ true)
        × (f.result ≡ some r)
  unfolding has_result
  resolved_At before f a = ground arith
  resolved_At looked f a = ground arith
  resolved_At holding f a = ground arith
  resolved_At suspended f a = ground arith
  resolved_At going_on f a = ground arith

  -- However the steps of the awaiting coroutine and of the provider interleave: once the provider
  -- is done, the state is Ready with its result, a coroutine that has suspended itself has been
  -- woken exactly once, and one that has not (yet) has not been woken.
  pub set_result_delivers :
      (w : World)
      → Reach w
      → w.provider ≡ done
      → (w.consumer ≡ suspended → w.future.events ≡ woken h ∷ [])
        × (w.consumer ≢ suspended → w.future.events ≡ [])
        × (has_result w.future ≡ true)
        × (w.future.result ≡ some r)
  set_result_delivers w reach p = resolved_At w.consumer w.future (rw p at (Reach-AtWorld reach))
