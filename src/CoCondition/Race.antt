-- ===== src/CoCondition/Race.antt =====
-- One coroutine awaits a `Blocker` while another thread notifies it: every interleaving of their
-- steps.
use crouton.Common.{ℕ, true, false, none, some, [], ◌∷◌, ◌≡◌, refl, arith, ◌⊎◌, ◌≢◌}
use crouton.Common.Result.{ok}
use crouton.CoCondition.{
  State, initial, waiting, is_ready, Blocker, new_blocker, wake_suspension, await_ready,
  await_suspend_set, await_suspend_exchange, notify_store, notify_exchange, notify_wake,
  await_resume,
}

-- Where the awaiting coroutine stands: `skipped` if `await_ready` answered true.
pub data Awaiter : Type 0 where
  not_yet suspending suspended skipped : Awaiter

-- Where the notifying thread stands; `exchanged` holds the state that its exchange returned.
pub data Notifier : Type 0 where
  quiet stored done : Notifier
  exchanged : State → Notifier

module _ {T : Type 0} (h : ℕ) (v : T) where
  pub record World : Type 0 where
    pub blocker : Blocker T
    pub awaiter : Awaiter
    pub notifier : Notifier

  pub data Step (w u : World) : Type 0 where
    skip :
        w.awaiter ≡ not_yet
        → await_ready w.blocker ≡ true
        → u ≡ record w { awaiter = skipped }
        → Step w u
    set :
        w.awaiter ≡ not_yet
        → await_ready w.blocker ≡ false
        → u ≡ record w { awaiter = suspending; blocker = await_suspend_set h w.blocker }
        → Step w u
    exchange :
        (b : Blocker T)
        → w.awaiter ≡ suspending
        → await_suspend_exchange w.blocker ≡ ok b
        → u ≡ record w { awaiter = suspended; blocker = b }
        → Step w u
    store :
        (b : Blocker T)
        → w.notifier ≡ quiet
        → notify_store v w.blocker ≡ ok b
        → u ≡ record w { notifier = stored; blocker = b }
        → Step w u
    publish :
        w.notifier ≡ stored
        → u ≡ record w {
          notifier = exchanged (notify_exchange w.blocker).0;
          blocker = (notify_exchange w.blocker).1;
        }
        → Step w u
    wake :
        (s : State)
        → w.notifier ≡ exchanged s
        → u ≡ record w { notifier = done; blocker = notify_wake s w.blocker }
        → Step w u

  abbrev pub begin : World
  begin = record { blocker = new_blocker; awaiter = not_yet; notifier = quiet }

  pub data Reach : World → Type 0 where
    here : Reach begin
    next : {w u : World} → Reach w → Step w u → Reach u

  -- What holds at each pair of places.
  abbrev At : Awaiter → Notifier → Blocker T → Type 0
  At not_yet quiet b =
      (b.state ≡ initial) × (b.suspension ≡ none) × (b.value ≡ none) × (b.woken ≡ [])
  At not_yet stored b =
      (b.state ≡ initial) × (b.suspension ≡ none) × (b.value ≡ some v) × (b.woken ≡ [])
  At not_yet (exchanged s) b =
      (s ≡ initial)
      × (b.state ≡ is_ready)
      × (b.suspension ≡ none)
      × (b.value ≡ some v)
      × (b.woken ≡ [])
  At not_yet done b =
      (b.state ≡ is_ready) × (b.suspension ≡ none) × (b.value ≡ some v) × (b.woken ≡ [])
  At suspending quiet b =
      (b.state ≡ initial) × (b.suspension ≡ some h) × (b.value ≡ none) × (b.woken ≡ [])
  At suspending stored b =
      (b.state ≡ initial) × (b.suspension ≡ some h) × (b.value ≡ some v) × (b.woken ≡ [])
  At suspending (exchanged s) b =
      (s ≡ initial)
      × (b.state ≡ is_ready)
      × (b.suspension ≡ some h)
      × (b.value ≡ some v)
      × (b.woken ≡ [])
  At suspending done b =
      (b.state ≡ is_ready) × (b.suspension ≡ some h) × (b.value ≡ some v) × (b.woken ≡ [])
  At suspended quiet b =
      (b.state ≡ waiting) × (b.suspension ≡ some h) × (b.value ≡ none) × (b.woken ≡ [])
  At suspended stored b =
      (b.state ≡ waiting) × (b.suspension ≡ some h) × (b.value ≡ some v) × (b.woken ≡ [])
  At suspended (exchanged s) b =
      ((s ≡ waiting)
        × (b.state ≡ is_ready)
        × (b.suspension ≡ some h)
        × (b.value ≡ some v)
        × (b.woken ≡ []))
      ⊎ ((s ≡ initial)
          × (b.state ≡ is_ready)
          × (b.suspension ≡ none)
          × (b.value ≡ some v)
          × (b.woken ≡ h ∷ []))
  At suspended done b =
      (b.state ≡ is_ready) × (b.suspension ≡ none) × (b.value ≡ some v) × (b.woken ≡ h ∷ [])
  At skipped quiet b = ⊥
  At skipped stored b = ⊥
  At skipped (exchanged s) b =
      (s ≡ initial)
      × (b.state ≡ is_ready)
      × (b.suspension ≡ none)
      × (b.value ≡ some v)
      × (b.woken ≡ [])
  At skipped done b =
      (b.state ≡ is_ready) × (b.suspension ≡ none) × (b.value ≡ some v) × (b.woken ≡ [])

  set_At :
      (n : Notifier) (b : Blocker T)
      → At not_yet n b
      → await_ready b ≡ false
      → At suspending n (await_suspend_set h b)
  unfolding await_ready await_suspend_set
  set_At quiet b a r = ground arith
  set_At stored b a r = ground arith
  set_At done b a r = ground arith
  set_At (exchanged s) b a r = ground arith

  skip_At : (n : Notifier) (b : Blocker T) → At not_yet n b → await_ready b ≡ true → At skipped n b
  unfolding await_ready
  skip_At quiet b a r = ground arith
  skip_At stored b a r = ground arith
  skip_At done b a r = ground arith
  skip_At (exchanged s) b a r = ground arith

  exchange_At :
      (n : Notifier) (b c : Blocker T)
      → At suspending n b
      → await_suspend_exchange b ≡ ok c
      → At suspended n c
  unfolding await_suspend_exchange
  exchange_At quiet b c a r = ground arith
  exchange_At stored b c a r = ground arith
  exchange_At done b c a r = ground arith
  exchange_At (exchanged s) b c a r = ground arith

  store_At :
      (p : Awaiter) (b c : Blocker T) → At p quiet b → notify_store v b ≡ ok c → At p stored c
  unfolding notify_store
  store_At not_yet b c a r = ground arith
  store_At suspending b c a r = ground arith
  store_At suspended b c a r = ground arith
  store_At skipped b c a r = absurd a

  publish_At :
      (p : Awaiter) (b : Blocker T)
      → At p stored b
      → At p (exchanged (notify_exchange b).0) (notify_exchange b).1
  unfolding notify_exchange
  publish_At not_yet b a = ground arith
  publish_At suspending b a = ground arith
  publish_At suspended b a = ground arith
  publish_At skipped b a = absurd a

  wake_At :
      (p : Awaiter) (s : State) (b : Blocker T) → At p (exchanged s) b → At p done (notify_wake s b)
  unfolding notify_wake
  wake_At not_yet s b a = ground arith
  wake_At suspending s b a = ground arith
  wake_At suspended s b a = ground arith
  wake_At skipped s b a = ground arith

  abbrev AtWorld : World → Type 0
  AtWorld w = At w.awaiter w.notifier w.blocker

  Step-AtWorld : (w u : World) → Step w u → AtWorld w → AtWorld u
  Step-AtWorld w u (skip p r e) a = rw e (skip_At w.notifier w.blocker (rw p at a) r)
  Step-AtWorld w u (set p r e) a = rw e (set_At w.notifier w.blocker (rw p at a) r)
  Step-AtWorld w u (exchange b p r e) a = rw e (exchange_At w.notifier w.blocker b (rw p at a) r)
  Step-AtWorld w u (store b p r e) a = rw e (store_At w.awaiter w.blocker b (rw p at a) r)
  Step-AtWorld w u (publish p e) a = rw e (publish_At w.awaiter w.blocker (rw p at a))
  Step-AtWorld w u (wake s p e) a = rw e (wake_At w.awaiter s w.blocker (rw p at a))

  Reach-AtWorld : {w : World} → Reach w → AtWorld w
  Reach-AtWorld here = unfold new_blocker in (refl, refl, refl, refl)
  Reach-AtWorld (next {w} {u} r st) = Step-AtWorld w u st (Reach-AtWorld r)

  delivered_At :
      (p : Awaiter) (b : Blocker T)
      → At p done b
      → (p ≡ suspended → b.woken ≡ h ∷ [])
        × (p ≢ suspended → b.woken ≡ [])
        × (await_resume b ≡ ok (v, record b { value = none }))
  unfolding await_resume await_ready
  delivered_At not_yet b a = ground arith
  delivered_At suspending b a = ground arith
  delivered_At suspended b a = ground arith
  delivered_At skipped b a = ground arith

  -- However the steps of the awaiting coroutine and of the notifying thread interleave: once the
  -- notifier is done, a coroutine that was suspended has been woken exactly once, one that was not
  -- has not been woken, and the value that the await returns is the one that was given.
  pub notify_delivers :
      (w : World)
      → Reach w
      → w.notifier ≡ done
      → (w.awaiter ≡ suspended → w.blocker.woken ≡ h ∷ [])
        × (w.awaiter ≢ suspended → w.blocker.woken ≡ [])
        × (await_resume w.blocker ≡ ok (v, record w.blocker { value = none }))
  notify_delivers w r p = delivered_At w.awaiter w.blocker (rw p at (Reach-AtWorld r))

  exchange_total :
      (n : Notifier) (b : Blocker T)
      → At suspending n b
      → (c : Blocker T) × (await_suspend_exchange b ≡ ok c)
  unfolding await_suspend_exchange
  exchange_total quiet b a = (record b { state = waiting }, ground arith)
  exchange_total stored b a = (record b { state = waiting }, ground arith)
  exchange_total (exchanged s) b a = (wake_suspension b.suspension b, ground arith)
  exchange_total done b a = (wake_suspension b.suspension b, ground arith)

  store_total :
      (p : Awaiter) (b : Blocker T) → At p quiet b → (c : Blocker T) × (notify_store v b ≡ ok c)
  unfolding notify_store
  store_total not_yet b a = (record b { value = some v }, ground arith)
  store_total suspending b a = (record b { value = some v }, ground arith)
  store_total suspended b a = (record b { value = some v }, ground arith)
  store_total skipped b a = absurd a

  -- In no interleaving does a check of `await_suspend` or of `notify` fail, where one coroutine
  -- awaits and one thread notifies.
  pub race_checks :
      (w : World)
      → Reach w
      → (w.awaiter ≡ suspending → (c : Blocker T) × (await_suspend_exchange w.blocker ≡ ok c))
        × (w.notifier ≡ quiet → (c : Blocker T) × (notify_store v w.blocker ≡ ok c))
  race_checks w r = (
    λ p. exchange_total w.notifier w.blocker (rw p at (Reach-AtWorld r)),
    λ p. store_total w.awaiter w.blocker (rw p at (Reach-AtWorld r)),
  )
