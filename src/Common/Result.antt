-- ===== src/Common/Result.antt =====
-- Values or errors: what the C++ code raises by `Error::raise`, and the checks that end the
-- program (`precondition`, `assert`).
use mathlib.Core.Path.{◌≡◌, refl}
use mathlib.Core.Bool.{Bool, true, false}
use crouton.Common.Tests.{if◌then◌else◌}

pub data Error : Type 0 where
  -- CroutonError
  parse_error logic_error invalid_argument invalid_url unexpected_eof : Error
  -- ws::CloseCode, http::Status and blip::ProtocolError
  protocol_error http_status invalid_frame compression_error bad_checksum properties_too_large :
      Error
  -- a `precondition` or an `assert` that does not hold
  assertion : Error
  -- a pointer to a destroyed object, followed
  dangling : Error
  -- the value of an empty `std::optional`, a C++ exception
  bad_optional_access : Error
  -- a read past the end of a buffer
  out_of_bounds : Error
  -- a loop whose fuel is used up: no error of the source
  unfinished : Error

pub data Result {ℓ} (A : Type ℓ) : Type ℓ where
  err : Error → Result A
  ok : A → Result A

abbrev pub guard : Bool → Error → Result (Unit {0})
guard false failure = err failure
guard true _ = ok tt

infixl 5 ◌>>=◌ ◌>>◌
abbrev pub ◌>>=◌ {ℓ κ} : {A : Type ℓ} {B : Type κ} → Result A → (A → Result B) → Result B
err failure >>= next = err failure
ok value >>= next = next value

abbrev pub ◌>>◌ {ℓ} : {B : Type ℓ} → Result (Unit {0}) → Result B → Result B
err failure >> next = err failure
ok _ >> next = next

-- What a chain that succeeded went through.
pub >>=-eq-ok {ℓ κ} :
    {A : Type ℓ} {B : Type κ} (first : Result A) (next : A → Result B) {r : B}
    → (first >>= next) ≡ ok r
    → (x : A) × (first ≡ ok x) × (next x ≡ ok r)
>>=-eq-ok (err failure) next same = cc
>>=-eq-ok (ok x) next same = (x, refl, same)

pub guard-eq-ok :
    (test : Bool) (failure : Error) {u : Unit {0}} → guard test failure ≡ ok u → test ≡ true
guard-eq-ok false failure same = cc
guard-eq-ok true failure same = refl

-- What holds of the value, where there is one.
unfoldable pub Gives {ℓ κ} : {A : Type ℓ} → (A → Type κ) → Result A → Type κ
Gives P (err failure) = Unit
Gives P (ok x) = P x

pub Gives-bind {ℓ κ μ} :
    {A : Type ℓ} {B : Type κ} (P : A → Type μ) (Q : B → Type μ) (first : Result A)
    (next : A → Result B)
    → Gives P first
    → ((x : A) → P x → Gives Q (next x))
    → Gives Q (first >>= next)
unfolding Gives
Gives-bind P Q (err failure) next given later = tt
Gives-bind P Q (ok x) next given later = later x given

pub Gives-guard {κ μ} :
    {B : Type κ} (Q : B → Type μ) (test : Bool) (failure : Error) (next : Result B)
    → Gives Q next
    → Gives Q (guard test failure >> next)
unfolding Gives
Gives-guard Q false failure next given = tt
Gives-guard Q true failure next given = given

pub Gives-any {ℓ κ μ} :
    {A : Type ℓ} {B : Type κ} (Q : B → Type μ) (first : Result A) (next : A → Result B)
    → ((x : A) → Gives Q (next x))
    → Gives Q (first >>= next)
unfolding Gives
Gives-any Q (err failure) next later = tt
Gives-any Q (ok x) next later = later x

pub Gives-weaken {ℓ κ μ} :
    {A : Type ℓ} (P : A → Type κ) (Q : A → Type μ) (r : Result A)
    → ((x : A) → P x → Q x)
    → Gives P r
    → Gives Q r
unfolding Gives
Gives-weaken P Q (err failure) weaken given = tt
Gives-weaken P Q (ok x) weaken given = weaken x given

pub either-Gives {ℓ κ} :
    {A : Type ℓ} (Q : A → Type κ) (b : Bool) (x y : Result A)
    → (b ≡ true → Gives Q x)
    → (b ≡ false → Gives Q y)
    → Gives Q (if b then x else y)
either-Gives Q true x y first second = first refl
either-Gives Q false x y first second = second refl
