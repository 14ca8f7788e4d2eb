-- ===== src/Builder/Agree.antt =====
-- Builders and configurations agree, in whatever order the setters are called and how often.
use genotp_go.Base.{ℕ, ◌==◌, if◌then◌else◌, Bytes, List, [], ◌∷◌, length, ◌≡◌, refl, ap}
use genotp_go.Errors.{err, invalid_secret}
use genotp_go.Algorithm.{Algorithm}
use genotp_go.Builder.{
  HotpBuilder, new_hotp_builder, hotp_secret, hotp_algorithm, hotp_digits, build_hotp, TotpBuilder,
  new_totp_builder, totp_secret, totp_algorithm, totp_digits, totp_period, build_totp, HotpConfig,
  new_hotp_config, hotp_with_algorithm, hotp_with_digits, new_hotp_from_config, TotpConfig,
  new_totp_config, totp_with_algorithm, totp_with_digits, totp_with_period, new_totp_from_config,
}

-- The calls of setters.
pub data Setter : Type 0 where
  set_secret : Bytes → Setter
  set_algorithm : Algorithm → Setter
  set_digits set_period : ℕ → Setter

unfoldable pub hotp_set : HotpBuilder → List Setter → HotpBuilder
hotp_set b [] = b
hotp_set b (set_secret secret ∷ ss) = hotp_set (hotp_secret b secret) ss
hotp_set b (set_algorithm a ∷ ss) = hotp_set (hotp_algorithm b a) ss
hotp_set b (set_digits n ∷ ss) = hotp_set (hotp_digits b n) ss
hotp_set b (set_period n ∷ ss) = hotp_set b ss

unfoldable pub totp_set : TotpBuilder → List Setter → TotpBuilder
totp_set b [] = b
totp_set b (set_secret secret ∷ ss) = totp_set (totp_secret b secret) ss
totp_set b (set_algorithm a ∷ ss) = totp_set (totp_algorithm b a) ss
totp_set b (set_digits n ∷ ss) = totp_set (totp_digits b n) ss
totp_set b (set_period n ∷ ss) = totp_set (totp_period b n) ss

-- The same setters on a configuration, which has no secret.
unfoldable pub hotp_configured : HotpConfig → List Setter → HotpConfig
hotp_configured c [] = c
hotp_configured c (set_algorithm a ∷ ss) = hotp_configured (hotp_with_algorithm c a) ss
hotp_configured c (set_digits n ∷ ss) = hotp_configured (hotp_with_digits c n) ss
hotp_configured c (_ ∷ ss) = hotp_configured c ss

unfoldable pub totp_configured : TotpConfig → List Setter → TotpConfig
totp_configured c [] = c
totp_configured c (set_algorithm a ∷ ss) = totp_configured (totp_with_algorithm c a) ss
totp_configured c (set_digits n ∷ ss) = totp_configured (totp_with_digits c n) ss
totp_configured c (set_period n ∷ ss) = totp_configured (totp_with_period c n) ss
totp_configured c (_ ∷ ss) = totp_configured c ss

-- The secret that was set last.
unfoldable pub last_secret : Bytes → List Setter → Bytes
last_secret secret [] = secret
last_secret secret (set_secret s ∷ ss) = last_secret s ss
last_secret secret (_ ∷ ss) = last_secret secret ss

hotp_set_lem :
    (secret : Bytes) (a : Algorithm) (n : ℕ) (ss : List Setter)
    → hotp_set (record { secret = secret; algorithm = a; digits = n }) ss ≡ (
        let c = hotp_configured (record { algorithm = a; digits = n }) ss in
        record { secret = last_secret secret ss; algorithm = c.algorithm; digits = c.digits })
unfolding hotp_set hotp_configured last_secret hotp_secret hotp_algorithm hotp_digits
    hotp_with_algorithm hotp_with_digits
hotp_set_lem secret a n [] = refl
hotp_set_lem secret a n (set_secret s ∷ ss) = hotp_set_lem s a n ss
hotp_set_lem secret a n (set_algorithm x ∷ ss) = hotp_set_lem secret x n ss
hotp_set_lem secret a n (set_digits x ∷ ss) = hotp_set_lem secret a x ss
hotp_set_lem secret a n (set_period x ∷ ss) = hotp_set_lem secret a n ss

totp_set_lem :
    (secret : Bytes) (a : Algorithm) (n p : ℕ) (ss : List Setter)
    → totp_set (record { secret = secret; algorithm = a; digits = n; period = p }) ss ≡ (
        let c = totp_configured (record { algorithm = a; digits = n; period = p }) ss in
        record {
          secret = last_secret secret ss;
          algorithm = c.algorithm;
          digits = c.digits;
          period = c.period;
        })
unfolding totp_set totp_configured last_secret totp_secret totp_algorithm totp_digits totp_period
    totp_with_algorithm totp_with_digits totp_with_period
totp_set_lem secret a n p [] = refl
totp_set_lem secret a n p (set_secret s ∷ ss) = totp_set_lem s a n p ss
totp_set_lem secret a n p (set_algorithm x ∷ ss) = totp_set_lem secret x n p ss
totp_set_lem secret a n p (set_digits x ∷ ss) = totp_set_lem secret a x p ss
totp_set_lem secret a n p (set_period x ∷ ss) = totp_set_lem secret a n x ss

-- However the setters are called on a new builder, `Build` returns what the constructor returns for
-- the secret that was set last and for a new configuration on which the same setters were called, and
-- ErrInvalidSecret where that secret is empty or none was set: for HOTP, which has no period, and for TOTP.
pub build_lem :
    {W : Type 0} (ss : List Setter)
    → (build_hotp {W = W} (hotp_set new_hotp_builder ss) ≡ (
        if length (last_secret [] ss) == 0
        then err invalid_secret
        else new_hotp_from_config (last_secret [] ss) (hotp_configured new_hotp_config ss)))
      × (build_totp {W = W} (totp_set new_totp_builder ss) ≡ (
          if length (last_secret [] ss) == 0
          then err invalid_secret
          else new_totp_from_config (last_secret [] ss) (totp_configured new_totp_config ss)))
unfolding build_hotp build_totp new_hotp_builder new_totp_builder new_hotp_config new_totp_config
    new_hotp_from_config new_totp_from_config
build_lem ss = (ap build_hotp (hotp_set_lem [] _ 6 ss), ap build_totp (totp_set_lem [] _ 6 30 ss))
