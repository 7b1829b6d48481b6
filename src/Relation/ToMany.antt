-- ===== src/Relation/ToMany.antt =====
-- The class ToMany of util/Relation.hh.
use crouton.Common.{ℕ, ◌==◌, if◌then◌else◌}
use crouton.Common.Result.{Result, ok, ◌>>=◌}
use crouton.LinkedList
use crouton.Relation.{Relations, set_parent, adopt_loop}

unfoldable pub adopt : ℕ → ℕ → Relations → Result Relations
unfolding adopt_loop
adopt fuel t r = adopt_loop fuel t t (r.memory.next t) r

unfoldable pub de_adopt : ℕ → ℕ → Relations → Result Relations
unfolding adopt_loop
de_adopt fuel t r = adopt_loop fuel t 0 (r.memory.next t) r

-- `ToMany(ToMany&&)`
unfoldable pub new_from : ℕ → ℕ → ℕ → Relations → Result Relations
unfolding adopt LinkedList.new_from
new_from fuel t other r =
    LinkedList.new_from t other r.memory >>= λ m. adopt fuel t (record r { memory = m })

-- `ToMany& operator=(ToMany&&)`
unfoldable pub assign : ℕ → ℕ → ℕ → Relations → Result Relations
unfolding adopt LinkedList.assign
assign fuel t other r =
    let moved =
      (LinkedList.assign fuel t other r.memory >>= λ m. adopt fuel t (record r { memory = m })) in
    if other == t then ok r else moved

unfoldable pub push_front : ℕ → ℕ → Relations → Result Relations
unfolding LinkedList.push_front
push_front t c r =
    LinkedList.push_front t c r.memory >>= λ m. ok (set_parent c t (record r { memory = m }))

unfoldable pub push_back : ℕ → ℕ → Relations → Result Relations
unfolding LinkedList.push_back
push_back t c r =
    LinkedList.push_back t c r.memory >>= λ m. ok (set_parent c t (record r { memory = m }))

unfoldable pub erase : ℕ → Relations → Relations
unfolding LinkedList.erase
erase c r = set_parent c 0 (record r { memory = LinkedList.erase c r.memory })

-- `clear`, and the destructor.
unfoldable pub clear : ℕ → ℕ → Relations → Result Relations
unfolding de_adopt LinkedList.clear
clear fuel t r = de_adopt fuel t r >>= λ r'.
    LinkedList.clear fuel t r'.memory >>= λ m. ok (record r' { memory = m })
