-- ===== src/Key.antt =====
-- key.go: secrets from the random source. A buffer of any size can be allocated here; the panic of
-- `make` for a size that is too large is left out.
pub mod Secrets
use genotp_go.Base.{
  ℕ, ◌+◌, ◌*◌, ◌/◌, ◌%◌, ◌≤◌, ◌<◌, Bool, true, false, ltb, ◌==◌, not, if◌then◌else◌, Bytes, [],
  length, Option, some, none, ◌≡◌, arith,
}
use genotp_go.Base.Int.{ℤ, pos, negsuc}
use genotp_go.Errors.{Error, Result, ok, err, panic, join, invalid_secret}
use genotp_go.Secret.{Action, joined}

-- crypto/rand: `Read` of a buffer of a length, which it fills, or an error. It acts on the world, as
-- its bytes are different at each call.
pub record Random (W : Type 0) : Type 0 where
  pub read : ℕ → Action W Bytes
  pub fills : (n : ℕ) (w w' : W) (bytes : Bytes) → read n w ≡ (ok bytes, w') → length bytes ≡ n

abbrev pub min_secret_bytes : ℕ
min_secret_bytes = 16

abbrev pub default_secret_bits : ℤ
default_secret_bits = pos 160

module _ {W : Type 0} (random : Random W) where
  -- The buffer after the call; its old contents do not matter.
  unfoldable pub fill_secret : Bytes → Action W Bytes
  fill_secret buf w =
      if ltb (length buf) min_secret_bytes
      then (err invalid_secret, w)
      else joined invalid_secret (random.read (length buf)) w

  unfoldable pub generate_secret : ℤ → Action W Bytes
  generate_secret (negsuc n) w = (err invalid_secret, w)
  generate_secret (pos bit_length) w =
      if ltb bit_length 128
      then (err invalid_secret, w)
      else if not (bit_length % 8 == 0)
      then (err invalid_secret, w)
      else joined invalid_secret (random.read (bit_length / 8)) w

  unfoldable pub generate_default_secret : Action W Bytes
  generate_default_secret = generate_secret default_secret_bits

  unfoldable pub create_secret : Action W Bytes
  create_secret = generate_default_secret
