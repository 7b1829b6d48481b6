-- ===== src/Relation/OneToOne.antt =====
-- The class OneToOne of util/Relation.hh.
use crouton.Common.{ℕ, ◌==◌, if◌then◌else◌}
use crouton.Common.Result.{Result, ok, ◌>>=◌, ◌>>◌, guard, assertion}
use crouton.LinkedList.{update}
use crouton.Relation.{Others}

unfoldable pub hookup : ℕ → Others → Others
hookup a o = if o a == 0 then o else update o (o a) a

unfoldable pub unhook : ℕ → Others → Result Others
unhook a o = if o a == 0 then ok o else (guard (o (o a) == a) assertion >> ok (update o (o a) 0))

-- `OneToOne(Self*)`
unfoldable pub create : ℕ → Others → Others
create a o = update o a 0

-- `OneToOne(Self*, OneToOne<Other,Self>*)`
unfoldable pub create_with : ℕ → ℕ → Others → Others
unfolding hookup
create_with a b o = hookup a (update o a b)

-- `OneToOne(OneToOne&&)` and `operator=(OneToOne&&)`
unfoldable pub move : ℕ → ℕ → Others → Others
unfolding hookup
move a old o = let o' = update o a (o old) in hookup a (update o' old 0)

-- `operator=(OneToOne<Other,Self>*)`
unfoldable pub connect : ℕ → ℕ → Others → Result Others
unfolding unhook hookup
connect a b o = if b == o a then ok o else (unhook a o >>= λ o'. ok (hookup a (update o' a b)))

-- The destructor; the object is gone.
unfoldable pub destroy : ℕ → Others → Result Others
unfolding unhook
destroy a o = unhook a o
