-- ===== src/Errors.antt =====
-- app/core/errors.py: the errors that a client is shown, and calls that may raise one. The prose
-- of an error is left out. `internal` stands for any other exception.
use bulk_action_platform.Prelude.{ℕ, ◌≡◌, refl, ◌⊎◌, inl, inr, Bool, true, false}

pub data AppError : Type 0 where
  not_found validation_error conflict rate_limited internal : AppError

-- The HTTP status of the problem document.
unfoldable pub status_code : AppError → ℕ
status_code not_found = 404
status_code validation_error = 422
status_code conflict = 409
status_code rate_limited = 429
status_code internal = 500

pub data Result (A : Type 0) : Type 0 where
  ok : A → Result A
  err : AppError → Result A

infixl 5 ◌>>=◌ ◌>>◌
abbrev pub ◌>>=◌ : {A B : Type 0} → Result A → (A → Result B) → Result B
ok a >>= f = f a
err e >>= f = err e

abbrev pub ◌>>◌ : {B : Type 0} → Result (Unit {0}) → Result B → Result B
m >> k = m >>= λ _. k

-- `if test: raise e`
abbrev pub raise_if : Bool → AppError → Result (Unit {0})
raise_if true e = err e
raise_if false e = ok tt

-- A call, taken apart.
pub Result-cases :
    {A : Type 0} (r : Result A) → ((a : A) × (r ≡ ok a)) ⊎ ((e : AppError) × (r ≡ err e))
Result-cases (ok a) = inl (a, refl)
Result-cases (err e) = inr (e, refl)

-- A property of what a call returns, if it returns.
abbrev pub Ensures : {A : Type 0} → (A → Type 0) → Result A → Type 0
Ensures P (ok a) = P a
Ensures P (err e) = Unit

pub >>=-Ensures :
    {A B : Type 0} (Q : B → Type 0) (m : Result A) (f : A → Result B)
    → ((a : A) → Ensures Q (f a))
    → Ensures Q (m >>= f)
>>=-Ensures Q (ok a) f h = h a
>>=-Ensures Q (err e) f h = tt

-- A property of what the first call returns that the second call builds on.
pub Ensures-then :
    {A B : Type 0} (P : A → Type 0) (Q : B → Type 0) (m : Result A) (f : A → Result B)
    → Ensures P m
    → ((a : A) → P a → Ensures Q (f a))
    → Ensures Q (m >>= f)
Ensures-then P Q (ok a) f p h = h a p
Ensures-then P Q (err e) f p h = tt
