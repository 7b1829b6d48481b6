-- ===== src/CoCondition/Notify.antt =====
-- `notifyAll` against `notifyOne`.
use crouton.Common.{
  ℕ, zero, suc, List, [], ◌∷◌, ◌++◌, ◌≡◌, refl, sym, ◌∙◌, ap, append_assoc, append-nil, length,
  arith,
}
use crouton.CoCondition.{CoCondition, wake_each, notify_all, notify_one}

abbrev pub notify_times : ℕ → CoCondition → CoCondition
notify_times zero c = c
notify_times (suc n) c = notify_times n (notify_one c)

notify_times-awaiters :
    (xs ws more : List ℕ)
    → notify_times (length xs) (record { awaiters = xs ++ more; woken = ws })
      ≡ record { awaiters = more; woken = ws ++ xs }
unfolding notify_one
notify_times-awaiters [] ws more = ground (arith, append-nil ws)
notify_times-awaiters (x ∷ xs) ws more =
    notify_times-awaiters xs (ws ++ x ∷ []) more
    ∙ ap (λ l. record { awaiters = more; woken = l }) (append_assoc ws (x ∷ []) xs)

wake_each-woken :
    (xs : List ℕ) (c : CoCondition) → wake_each xs c ≡ record c { woken = c.woken ++ xs }
unfolding wake_each
wake_each-woken [] c = rw (append-nil c.woken) refl
wake_each-woken (x ∷ xs) c =
    wake_each-woken xs (record c { woken = c.woken ++ x ∷ [] })
    ∙ ap (λ l. record c { woken = l }) (append_assoc c.woken (x ∷ []) xs)

-- `notifyAll` has the effect of one `notifyOne` for each coroutine that waits when it is called:
-- all of them are woken in the order in which they came, and none is left.
pub notify_all_lem : (c : CoCondition) → notify_all c ≡ notify_times (length c.awaiters) c
unfolding notify_all
notify_all_lem c =
    wake_each-woken c.awaiters (record c { awaiters = [] })
    ∙ sym (notify_times-awaiters c.awaiters c.woken [])
    ∙ ap (λ l. notify_times (length c.awaiters) (record c { awaiters = l })) (append-nil c.awaiters)
