-- ===== src/Errors.antt =====
-- error.go: the error values of the library, and Go's (value, error) results.
use Prim.Native.Nat.{ℕ}

-- The sentinel errors, in the order of the source. `external` is an error that code outside the
-- library returned (a provider, a store, the random source), and `join` is errors.Join.
pub data Error : Type 0 where
  invalid_secret invalid_code invalid_digits invalid_algorithm invalid_counter invalid_time : Error
  verification_failed rate_limited replay_attack dst_too_small secret_provider : Error
  hmac_provider invalid_uri invalid_migration : Error
  external : ℕ → Error
  join : Error → Error → Error

-- What a call leaves: a value, an error, or a run-time panic such as an index out of range.
pub data Result {ℓ} (A : Type ℓ) : Type ℓ where
  ok : A → Result A
  err : Error → Result A
  panic : Result A

infixl 5 ◌>>=◌
abbrev pub ◌>>=◌ {ℓ κ} : {A : Type ℓ} {B : Type κ} → Result A → (A → Result B) → Result B
ok a >>= f = f a
err e >>= f = err e
panic >>= f = panic
