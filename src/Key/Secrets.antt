-- ===== src/Key/Secrets.antt =====
-- The lengths of secrets, and the errors.
use genotp_go.Base.{
  ℕ, ◌/◌, ◌%◌, ◌≤◌, ◌<◌, false, ltb, ◌==◌, Bytes, length, ◌≡◌, refl, ◌⊎◌, inl, inr, arith,
  Bool-cases, ==_iff,
}
use genotp_go.Base.Int.{pos, negsuc}
use genotp_go.Errors.{Error, Result, ok, err, panic, join, invalid_secret}
use native.Mathlib.Decide.{dec_lt}
use genotp_go.Secret.{joined}
use genotp_go.Key.{Random, fill_secret, generate_secret, generate_default_secret, create_secret}

module _ {W : Type 0} (random : Random W) (w : W) where
  -- A secret of a length that came from the random source, or the error of the source behind
  -- ErrInvalidSecret, or its panic.
  pub data Comes (n : ℕ) : Result Bytes × W → Type 0 where
    filled :
        (secret : Bytes) (w' : W)
        → random.read n w ≡ (ok secret, w')
        → length secret ≡ n
        → Comes n (ok secret, w')
    failed :
        (e : Error) (w' : W)
        → random.read n w ≡ (err e, w')
        → Comes n (err (join invalid_secret e), w')
    panicked : (w' : W) → random.read n w ≡ (panic, w') → Comes n (panic, w')

  read-Comes : (n : ℕ) → Comes n (joined invalid_secret (random.read n) w)
  read-Comes n = go (random.read n w) refl
    where
      go :
          (out : Result Bytes × W)
          → random.read n w ≡ out
          → Comes n (elim out.0 [
            | ok a ↦ (ok a, out.1)
            | err e' ↦ (err (join invalid_secret e'), out.1)
            | panic ↦ (panic, out.1)
          ])
      go (ok secret, w') e = filled secret w' e (random.fills n w w' secret e)
      go (err x, w') e = failed x w' e
      go (panic, w') e = panicked w' e

  -- The bits of a secret: at least 128, and whole bytes.
  abbrev pub AreBits : ℕ → Type 0
  AreBits n = (128 ≤ n) × (n % 8 ≡ 0)

  generated :
      (n : ℕ)
      → (AreBits n × Comes (n / 8) (generate_secret random (pos n) w))
        ⊎ ((AreBits n → ⊥) × (generate_secret random (pos n) w ≡ (err invalid_secret, w)))
  unfolding generate_secret
  generated n = elim (dec_lt n 128) [
    | yes small ↦ inr ((λ bits. omega (arith, small, bits.0)), ground (arith, small))
    | no large ↦ elim (Bool-cases (n % 8 == 0)) [
      | inl whole ↦
          let divides : n % 8 ≡ 0 = (==_iff (n % 8) 0).0 whole in
          let at_least : ltb n 128 ≡ false = ground (arith, large) in
          inl ((omega (arith, large), divides), rw at_least (rw whole (read-Comes (n / 8))))
      | inr broken ↦
          let at_least : ltb n 128 ≡ false = ground (arith, large) in
          inr ((λ bits. cc (broken, (==_iff (n % 8) 0).1 bits.1)), rw at_least (rw broken refl))
    ]
  ]

  filling :
      (buf : Bytes)
      → ((16 ≤ length buf) × Comes (length buf) (fill_secret random buf w))
        ⊎ ((length buf < 16) × (fill_secret random buf w ≡ (err invalid_secret, w)))
  unfolding fill_secret
  filling buf = elim (dec_lt (length buf) 16) [
    | yes small ↦ inr (small, ground (arith, small))
    | no large ↦
        let at_least : ltb (length buf) 16 ≡ false = ground (arith, large) in
        inl (omega (arith, large), rw at_least (read-Comes (length buf)))
  ]

  -- `GenerateSecret` refuses a negative number of bits, and one below 128 or not divisible by 8,
  -- with ErrInvalidSecret and without a reading of the random source. For any other number it returns
  -- a secret of that many bits which the source filled, or the error of the source joined to
  -- ErrInvalidSecret, or panics where the source does. `CreateSecret` does so with 20 bytes, and
  -- `FillSecret` with the length of its buffer, which it refuses below 16 bytes.
  pub generate_secret_cases :
      (n m : ℕ) (buf : Bytes)
      → (generate_secret random (negsuc m) w ≡ (err invalid_secret, w))
        × ((AreBits n × Comes (n / 8) (generate_secret random (pos n) w))
            ⊎ ((AreBits n → ⊥) × (generate_secret random (pos n) w ≡ (err invalid_secret, w))))
        × Comes 20 (create_secret random w)
        × (((16 ≤ length buf) × Comes (length buf) (fill_secret random buf w))
            ⊎ ((length buf < 16) × (fill_secret random buf w ≡ (err invalid_secret, w))))
  unfolding generate_secret create_secret generate_default_secret
  generate_secret_cases n m buf = (refl, generated n, read-Comes 20, filling buf)
