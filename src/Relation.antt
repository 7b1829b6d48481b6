-- ===== src/Relation.antt =====
-- util/Relation.hh: relations between objects. OneToOne is a pair of pointers, ToMany a LinkedList of
-- ToOnes, each of which has a pointer back. An object is known by the address of its relation, and
-- `Child` only computes the one from the other.
pub mod OneToOne
pub mod ToMany
pub mod ToOne
pub mod Pairs
mod Examples
use crouton.Common.{ℕ, zero, suc, ◌==◌, if◌then◌else◌, not}
use crouton.Common.Result.{Result, ok, err, ◌>>◌, guard, dangling, unfinished}
use crouton.LinkedList.{Memory, update}

-- What each OneToOne has in `_other`.
abbrev pub Others : Type 0
Others = ℕ → ℕ

-- The links of the ToOnes and of the heads of the ToManys, and what each ToOne has in `_parent`.
pub record Relations : Type 0 where
  pub memory : Memory
  pub parent : ℕ → ℕ

abbrev pub set_parent : ℕ → ℕ → Relations → Relations
set_parent c t r = record r { parent = update r.parent c t }

-- `adopt` and `deAdopt`: the loop over the children, from this link on, that sets their parent.
unfoldable pub adopt_loop : ℕ → ℕ → ℕ → ℕ → Relations → Result Relations
adopt_loop zero t value l r = err unfinished
adopt_loop (suc k) t value l r =
    let others = adopt_loop k t value (r.memory.next l) (set_parent l value r) in
    if l == t then ok r else (guard (not (l == 0)) dangling >> others)
