-- ===== src/Result.antt =====
-- Exceptions as values: the exception classes that modemproxy raises, and the two ways a call ends.
use modemproxy.Prelude.{ℕ, String, ◌≡◌, refl, ◌⊎◌, inl, inr, Bool, true, false}

pub data Error : Type 0 where
  -- sqlite3.IntegrityError: a foreign key that names no row
  integrity_error : Error
  -- IndexError of a list, and OSError of the system
  index_error : Error
  os_error : String → Error
  value_error : String → Error
  band_error : String → Error
  mm_error : String → Error
  netdev_error : String → Error
  vpn_error : String → Error
  -- fastapi.HTTPException with its status code
  http_error : ℕ → String → Error

pub data Result {ℓ} (A : Type ℓ) : Type ℓ where
  ok : A → Result A
  err : Error → Result A

infixl 5 ◌>>=◌
abbrev pub ◌>>=◌ {ℓ κ} : {A : Type ℓ} {B : Type κ} → Result A → (A → Result B) → Result B
ok a >>= f = f a
err e >>= f = err e

abbrev pub is_ok {ℓ} : {A : Type ℓ} → Result A → Bool
is_ok (ok a) = true
is_ok (err e) = false

-- The state after a call that either commits a new one or rolls back.
abbrev pub after {ℓ} : {A : Type ℓ} → A → Result A → A
after old (ok new) = new
after old (err e) = old

pub Result-cases {ℓ} :
    {A : Type ℓ} (r : Result A) → ((a : A) × (r ≡ ok a)) ⊎ ((e : Error) × (r ≡ err e))
Result-cases (ok a) = inl (a, refl)
Result-cases (err e) = inr (e, refl)
