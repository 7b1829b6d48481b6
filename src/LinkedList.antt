-- ===== src/LinkedList.antt =====
-- util/LinkedList.hh: circular lists of links. The links are in memory: the state is what each
-- address has in `_prev` and `_next`, and 0 is the null pointer. To follow it is an error.
pub mod Chain
pub mod Links
pub mod Refines
pub mod Ops
mod Examples
use crouton.Common.{ℕ, zero, suc, ◌==◌, if◌then◌else◌, Bool, true, false, not, ◌&&◌}
use crouton.Common.Result.{Result, ok, err, ◌>>=◌, ◌>>◌, guard, assertion, dangling, unfinished}

pub record Memory : Type 0 where
  pub next : ℕ → ℕ
  pub prev : ℕ → ℕ

abbrev pub update : (ℕ → ℕ) → ℕ → ℕ → ℕ → ℕ
update f a v x = if x == a then v else f x

abbrev pub set_next : ℕ → ℕ → Memory → Memory
set_next a v m = record m { next = update m.next a v }

abbrev pub set_prev : ℕ → ℕ → Memory → Memory
set_prev a v m = record m { prev = update m.prev a v }

-- Writes through a pointer.
abbrev pub write_next : ℕ → ℕ → Memory → Result Memory
write_next p v m = guard (not (p == 0)) dangling >> ok (set_next p v m)

abbrev pub write_prev : ℕ → ℕ → Memory → Result Memory
write_prev p v m = guard (not (p == 0)) dangling >> ok (set_prev p v m)

unfoldable pub in_list : ℕ → Memory → Bool
in_list l m = not (m.next l == 0)

unfoldable pub clear_link : ℕ → Memory → Memory
clear_link l m = set_next l 0 (set_prev l 0 m)

unfoldable pub clear_head : ℕ → Memory → Memory
clear_head l m = set_next l l (set_prev l l m)

-- `Link::remove`
unfoldable pub remove : ℕ → Memory → Memory
unfolding clear_link
remove l m =
    let m1 = if m.prev l == 0 then m else set_next (m.prev l) (m.next l) m in
    let m2 = if m1.next l == 0 then m1 else set_prev (m1.next l) (m1.prev l) m1 in clear_link l m2

-- `Link::insertAfter`
unfoldable pub insert_after : ℕ → ℕ → Memory → Result Memory
unfolding remove
insert_after l other m =
    let m1 = set_prev l other (remove l m) in
    let m2 = set_next l (m1.next other) m1 in
    guard (not (other == 0)) dangling >> write_next (m2.prev l) l m2 >>= λ m3.
    write_prev (m3.next l) l m3

-- `Link::replace`
unfoldable pub replace : ℕ → ℕ → Memory → Result Memory
unfolding clear_link
replace l old m =
    let m1 = set_next l (m.next old) (set_prev l (m.prev old) m) in
    let moved =
      (write_next (m1.prev l) l m1 >>= λ m2.
      write_prev (m2.next l) l m2 >>= λ m3. ok (clear_link old m3)) in
    guard (m.prev l == 0 && m.next l == 0) assertion >> (if m.prev old == 0 then ok m else moved)

-- `Link& operator=(Link&&)`
unfoldable pub assign_link : ℕ → ℕ → Memory → Result Memory
unfolding remove replace
assign_link l old m = if l == old then ok m else replace l old (remove l m)

-- A LinkList is the address of its head.
unfoldable pub empty : ℕ → Memory → Bool
empty head m = m.next head == head

unfoldable pub front : ℕ → Memory → Result ℕ
unfolding empty
front head m = guard (not (empty head m)) assertion >> ok (m.next head)

unfoldable pub back : ℕ → Memory → Result ℕ
unfolding empty
back head m = guard (not (empty head m)) assertion >> ok (m.prev head)

unfoldable pub push_front : ℕ → ℕ → Memory → Result Memory
unfolding insert_after
push_front head l m = insert_after l head m

unfoldable pub push_back : ℕ → ℕ → Memory → Result Memory
unfolding insert_after
push_back head l m = insert_after l (m.prev head) m

unfoldable pub pop_front : ℕ → Memory → Result (ℕ × Memory)
unfolding empty remove
pop_front head m = guard (not (empty head m)) assertion >> ok (m.next head, remove (m.next head) m)

unfoldable pub erase : ℕ → Memory → Memory
unfolding remove
erase l m = remove l m

-- The loop of `clear`, from this link on.
unfoldable pub clear_loop : ℕ → ℕ → ℕ → Memory → Result Memory
unfolding clear_link
clear_loop zero head l m = err unfinished
clear_loop (suc k) head l m =
    let others = clear_loop k head (m.next l) (clear_link l m) in
    if l == head then ok m else (guard (not (l == 0)) dangling >> others)

unfoldable pub clear : ℕ → ℕ → Memory → Result Memory
unfolding clear_loop clear_head
clear fuel head m = clear_loop fuel head (m.next head) m >>= λ m'. ok (clear_head head m')

unfoldable pub move_head : ℕ → ℕ → Memory → Result Memory
unfolding assign_link clear_head
move_head head other m = guard (not (empty other m)) assertion >> assign_link head other m >>= λ m'.
    ok (clear_head other m')

-- `LinkList(LinkList&&)`, at an address whose links are null.
unfoldable pub new_from : ℕ → ℕ → Memory → Result Memory
unfolding empty move_head clear_head
new_from head other m = if empty other m then ok (clear_head head m) else move_head head other m

-- `LinkList& operator=(LinkList&&)`
unfoldable pub assign : ℕ → ℕ → ℕ → Memory → Result Memory
unfolding clear move_head empty
assign fuel head other m =
    let cleared =
      clear fuel head m >>= λ m'. if empty other m' then ok m' else move_head head other m' in
    if head == other then ok m else cleared
