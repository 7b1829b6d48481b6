-- ===== src/Relation/ToOne.antt =====
-- The class ToOne of util/Relation.hh.
use crouton.Common.{ℕ, ◌==◌, if◌then◌else◌}
use crouton.Common.Result.{Result, ok, ◌>>=◌}
use crouton.LinkedList.{remove, replace, assign_link}
use crouton.Relation.{Relations, set_parent}
use crouton.Relation.ToMany

-- `ToOne(Self*, ToMany<Other,Self>*)`
unfoldable pub create_with : ℕ → ℕ → Relations → Result Relations
unfolding ToMany.push_back
create_with c t r = let r' = set_parent c t r in if t == 0 then ok r' else ToMany.push_back t c r'

-- `ToOne(ToOne&&)`
unfoldable pub new_from : ℕ → ℕ → Relations → Result Relations
unfolding replace
new_from c old r = replace c old r.memory >>= λ m.
    ok (set_parent old 0 (set_parent c (r.parent old) (record r { memory = m })))

-- `ToOne& operator=(ToOne&&)`
unfoldable pub assign : ℕ → ℕ → Relations → Result Relations
unfolding assign_link
assign c old r = assign_link c old r.memory >>= λ m.
    let r' = set_parent c (r.parent old) (record r { memory = m }) in ok (set_parent old 0 r')

-- `ToOne& operator=(ToMany<Other,Self>*)`
unfoldable pub connect : ℕ → ℕ → Relations → Result Relations
unfolding remove ToMany.push_back
connect c t r =
    let r' = set_parent c t (record r { memory = remove c r.memory }) in
    if t == r.parent c then ok r else if t == 0 then ok r' else ToMany.push_back t c r'
