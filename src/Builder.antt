-- ===== src/Builder.antt =====
-- builder.go and config.go: two ways of giving the arguments of the constructors. A builder is a
-- pointer that each setter returns, so it is passed along.
pub mod Agree
use genotp_go.Base.{ℕ, ◌==◌, if◌then◌else◌, Bytes, [], length}
use genotp_go.Errors.{Result, err, invalid_secret}
use genotp_go.Algorithm.{Algorithm, sha1}
use genotp_go.Hotp.{Hotp, new_hotp}
use genotp_go.Totp.{Totp, new_totp}

pub record HotpBuilder : Type 0 where
  pub secret : Bytes
  pub algorithm : Algorithm
  pub digits : ℕ

unfoldable pub new_hotp_builder : HotpBuilder
new_hotp_builder = record { secret = []; algorithm = sha1; digits = 6 }

unfoldable pub hotp_secret : HotpBuilder → Bytes → HotpBuilder
hotp_secret b secret = record b { secret = secret }

unfoldable pub hotp_algorithm : HotpBuilder → Algorithm → HotpBuilder
hotp_algorithm b algorithm = record b { algorithm = algorithm }

unfoldable pub hotp_digits : HotpBuilder → ℕ → HotpBuilder
hotp_digits b digits = record b { digits = digits }

unfoldable pub build_hotp : {W : Type 0} → HotpBuilder → Result (Hotp W)
build_hotp b =
    if length b.secret == 0 then err invalid_secret else new_hotp b.secret b.algorithm b.digits

pub record TotpBuilder : Type 0 where
  pub secret : Bytes
  pub algorithm : Algorithm
  pub digits : ℕ
  pub period : ℕ

unfoldable pub new_totp_builder : TotpBuilder
new_totp_builder = record { secret = []; algorithm = sha1; digits = 6; period = 30 }

unfoldable pub totp_secret : TotpBuilder → Bytes → TotpBuilder
totp_secret b secret = record b { secret = secret }

unfoldable pub totp_algorithm : TotpBuilder → Algorithm → TotpBuilder
totp_algorithm b algorithm = record b { algorithm = algorithm }

unfoldable pub totp_digits : TotpBuilder → ℕ → TotpBuilder
totp_digits b digits = record b { digits = digits }

unfoldable pub totp_period : TotpBuilder → ℕ → TotpBuilder
totp_period b period = record b { period = period }

unfoldable pub build_totp : {W : Type 0} → TotpBuilder → Result (Totp W)
build_totp b =
    if length b.secret == 0
    then err invalid_secret
    else new_totp b.secret b.algorithm b.digits b.period

pub record HotpConfig : Type 0 where
  pub algorithm : Algorithm
  pub digits : ℕ

unfoldable pub new_hotp_config : HotpConfig
new_hotp_config = record { algorithm = sha1; digits = 6 }

unfoldable pub hotp_with_algorithm : HotpConfig → Algorithm → HotpConfig
hotp_with_algorithm c algorithm = record c { algorithm = algorithm }

unfoldable pub hotp_with_digits : HotpConfig → ℕ → HotpConfig
hotp_with_digits c digits = record c { digits = digits }

unfoldable pub new_hotp_from_config : {W : Type 0} → Bytes → HotpConfig → Result (Hotp W)
new_hotp_from_config secret c = new_hotp secret c.algorithm c.digits

pub record TotpConfig : Type 0 where
  pub algorithm : Algorithm
  pub digits : ℕ
  pub period : ℕ

unfoldable pub new_totp_config : TotpConfig
new_totp_config = record { algorithm = sha1; digits = 6; period = 30 }

unfoldable pub totp_with_algorithm : TotpConfig → Algorithm → TotpConfig
totp_with_algorithm c algorithm = record c { algorithm = algorithm }

unfoldable pub totp_with_digits : TotpConfig → ℕ → TotpConfig
totp_with_digits c digits = record c { digits = digits }

unfoldable pub totp_with_period : TotpConfig → ℕ → TotpConfig
totp_with_period c period = record c { period = period }

unfoldable pub new_totp_from_config : {W : Type 0} → Bytes → TotpConfig → Result (Totp W)
new_totp_from_config secret c = new_totp secret c.algorithm c.digits c.period
