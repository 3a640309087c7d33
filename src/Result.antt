-- ===== src/Result.antt =====
-- How a call can end: with a value, with a C++ exception, or in undefined behaviour that no handler
-- catches (an access out of bounds, a division by zero, a lock that the thread holds already, a static
-- variable that is asked for while it is initialised). `no_fuel` is no outcome of the program: it
-- marks a bounded loop of the model that was given too few rounds.
use cs.Prelude.{◌≡◌, refl, ◌⊎◌, inl, inr, Option, none, some, Bool, true, false}

pub data Error : Type 0 where
  cannot_open cannot_read invalid_size empty_file invalid_argument out_of_range : Error
  out_of_bounds division_by_zero deadlock reentered no_fuel : Error

pub data Result {ℓ} (A : Type ℓ) : Type ℓ where
  err : Error → Result A
  ok : A → Result A

infixl 5 ◌>>=◌ ◌>>◌
abbrev pub ◌>>=◌ {ℓ κ} : {A : Type ℓ} {B : Type κ} → Result A → (A → Result B) → Result B
err fault >>= next = err fault
ok answer >>= next = next answer

abbrev pub ◌>>◌ {ℓ} : {B : Type ℓ} → Result (Unit {0}) → Result B → Result B
first >> second = first >>= λ _. second

abbrev pub or_fail {ℓ} : {A : Type ℓ} → Option A → Error → Result A
or_fail none e = err e
or_fail (some a) e = ok a

pub Result-cases {ℓ} :
    {A : Type ℓ} (r : Result A) → ((a : A) × (r ≡ ok a)) ⊎ ((e : Error) × (r ≡ err e))
Result-cases (ok a) = inl (a, refl)
Result-cases (err e) = inr (e, refl)

-- What is thrown, as against undefined behaviour.
abbrev pub is_exception : Error → Bool
is_exception out_of_bounds = false
is_exception division_by_zero = false
is_exception deadlock = false
is_exception reentered = false
is_exception no_fuel = false
is_exception _ = true
