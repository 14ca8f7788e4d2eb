-- ===== src/Helpers.antt =====
-- helpers.go: codes with the default parameters, SHA-1, six digits and steps of 30 seconds.
pub mod Defaults
use genotp_go.Base.{ℕ, Bool, Bytes, none}
use genotp_go.Base.Int.{ℤ}
use genotp_go.Algorithm.{Hmac, sha1}
use genotp_go.Secret.{Action, ◌>>=◌, lift}
use genotp_go.Hotp.{Hotp, new_hotp}
use genotp_go.Totp.{Totp, new_totp}
use genotp_go.Hotp
use genotp_go.Totp

module _ (h : Hmac) {W : Type 0} where
  unfoldable pub gen_hotp_default : Bytes → ℕ → Action W Bytes
  gen_hotp_default secret counter =
      lift (new_hotp secret sha1 6) >>= (λ hotp. Hotp.generate h hotp counter)

  unfoldable pub gen_totp_default : Bytes → ℤ → Action W Bytes
  gen_totp_default secret now =
      lift (new_totp secret sha1 6 30) >>= (λ totp. Totp.generate h totp now none)

  unfoldable pub verify_hotp_default : Bytes → Bytes → ℕ → Action W Bool
  verify_hotp_default secret code counter =
      lift (new_hotp secret sha1 6) >>= (λ hotp. Hotp.verify h hotp code counter)

  unfoldable pub verify_totp_default : Bytes → ℤ → Bytes → Action W Bool
  verify_totp_default secret now code =
      lift (new_totp secret sha1 6 30) >>= (λ totp. Totp.verify h totp now code none 1)
