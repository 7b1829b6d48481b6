-- ===== src/Relation/Pairs.antt =====
-- OneToOne of util/Relation.hh: when both ends of a relation agree.
use crouton.Common.{
  ℕ, ◌==◌, ==_iff, if◌then◌else◌, false, Bool-cases, ◌≡◌, refl, ◌⊎◌, inl, inr, arith,
}
use crouton.Common.Result.{ok}
use crouton.LinkedList.{update}
use crouton.Relation.{Others}
use crouton.Relation.OneToOne.{hookup, unhook, move, connect}

-- Who points to an object is pointed to by it, and nobody points to itself.
pub record IsPaired (o : Others) : Type 0 where
  pub null_free : o 0 ≡ 0
  pub back : (x : ℕ) → (o x == 0) ≡ false → o (o x) ≡ x
  pub other : (x : ℕ) → (o x == 0) ≡ false → (o x == x) ≡ false

-- What `unhook` leaves, and what `operator=` does with it.
abbrev unhooked : ℕ → Others → Others
unhooked a o = if o a == 0 then o else update o (o a) 0

abbrev joined : ℕ → ℕ → Others → Others
joined a b o = hookup a (update (unhooked a o) a b)

unhook_lem : (a : ℕ) (o : Others) → IsPaired o → unhook a o ≡ ok (unhooked a o)
unfolding unhook
unhook_lem a o paired = ground (arith, paired.back a)

joined-IsPaired :
    (a b : ℕ) (o : Others)
    → IsPaired o
    → (a == 0) ≡ false
    → (b == a) ≡ false
    → (b == o a) ≡ false
    → o b ≡ 0
    → IsPaired (joined a b o)
unfolding hookup
joined-IsPaired a b o paired set other new b_free = record {
  null_free = ground (arith, paired.null_free, paired.back a);
  back = λ x h. ground (arith, paired.back x, paired.back b, paired.back a, paired.null_free);
  other = λ x h. ground (arith, paired.other x, paired.back b, paired.back a);
}

connect-joined :
    (a b : ℕ) (o : Others) → IsPaired o → (b == o a) ≡ false → connect a b o ≡ ok (joined a b o)
unfolding connect
connect-joined a b o paired new = rw new (rw (unhook_lem a o paired) refl)

joined-a : (a b : ℕ) (o : Others) → (b == a) ≡ false → joined a b o a ≡ b
unfolding hookup
joined-a a b o other = ground arith

joined-b : (a b : ℕ) (o : Others) → (b == a) ≡ false → (b == 0) ≡ false → joined a b o b ≡ a
unfolding hookup
joined-b a b o other set = ground arith

old_free :
    (a b : ℕ) (o : Others)
    → IsPaired o
    → (a == 0) ≡ false
    → (b == o a) ≡ false
    → (o a == 0) ≡ false
    → joined a b o (o a) ≡ 0
unfolding hookup
old_free a b o paired set new taken = ground (arith, paired.back a, paired.other a)

-- Where both ends agree everywhere, an object is given another partner, or none, that has no partner
-- and is not the object itself: then no assertion fails, both ends agree again, the object has the
-- new partner, and the one it had before has none.
pub connect-IsPaired :
    (a b : ℕ) (o : Others)
    → IsPaired o
    → (a == 0) ≡ false
    → (b == a) ≡ false
    → (b == o a) ≡ false
    → o b ≡ 0
    → (o' : Others) × (connect a b o ≡ ok o')
      × IsPaired o'
      × (o' a ≡ b)
      × ((o a ≡ 0) ⊎ (o' (o a) ≡ 0))
connect-IsPaired a b o paired set other new b_free = (
  joined a b o,
  connect-joined a b o paired new,
  joined-IsPaired a b o paired set other new b_free,
  joined-a a b o other,
  elim (Bool-cases (o a == 0)) [
    | inl alone ↦ inl ((==_iff (o a) 0).0 alone)
    | inr taken ↦ inr (old_free a b o paired set new taken)
  ],
)

joined-c :
    (a b c : ℕ) (o : Others)
    → IsPaired o
    → (b == 0) ≡ false
    → (b == a) ≡ false
    → (c == a) ≡ false
    → (c == 0) ≡ false
    → o b ≡ c
    → joined a b o c ≡ b
unfolding hookup
joined-c a b c o paired set other c_other c_set taken =
    ground (arith, paired.back b, paired.back a, paired.back c, paired.other b)

not_partner :
    (a b c : ℕ) (o : Others)
    → IsPaired o
    → (b == 0) ≡ false
    → (c == a) ≡ false
    → o b ≡ c
    → (b == o a) ≡ false
not_partner a b c o paired set c_other taken = ground (arith, paired.back a)

-- An object is given a partner that has another one: the third object, which had that partner, still
-- points to it, and the partner points to the first object.
pub connect-taken :
    (a b c : ℕ) (o : Others)
    → IsPaired o
    → (b == 0) ≡ false
    → (b == a) ≡ false
    → (c == a) ≡ false
    → (c == 0) ≡ false
    → o b ≡ c
    → (o' : Others) × (connect a b o ≡ ok o') × (o' a ≡ b) × (o' b ≡ a) × (o' c ≡ b)
connect-taken a b c o paired set other c_other c_set taken = (
  joined a b o,
  connect-joined a b o paired (not_partner a b c o paired set c_other taken),
  joined-a a b o other,
  joined-b a b o other set,
  joined-c a b c o paired set other c_other c_set taken,
)

moved-IsPaired :
    (a old : ℕ) (o : Others)
    → IsPaired o
    → (a == 0) ≡ false
    → (old == a) ≡ false
    → o a ≡ 0
    → IsPaired (move a old o)
unfolding move hookup
moved-IsPaired a old o paired set other a_free = record {
  null_free = ground (arith, paired.null_free, paired.back old);
  back = λ x h. ground (arith, paired.back x, paired.back old, paired.null_free);
  other = λ x h. ground (arith, paired.other x, paired.back x, paired.back old, paired.other old);
}
