-- ===== src/Migration/Written.antt =====
-- The account that `encodeMigrationAccount` writes, as `decodeMigrationAccount` reads it.
use genotp_go.Base.{
  ℕ, ◌^◌, ◌<◌, ◌==◌, if◌then◌else◌, length, Bytes, ◌≡◌, refl, sym, ap, ◌∙◌, arith, inl, inr,
  Bool-cases,
}
use genotp_go.Errors.{Result, ok, err, panic, ◌>>=◌}
use genotp_go.Base32.{encode_base32}
use genotp_go.Algorithm.{Algorithm, sha1, sha256, sha512, other}
use genotp_go.Provisioning.{hotp_type, totp_type, normalize_base32_secret}
use genotp_go.Migration.{
  OtpAuthMigrationAccount, is_hotp, account_name, account_message, decoded_secret,
  encode_migration_account, migration_algorithm_from_algorithm, migration_digit_enum,
  algorithm_from_migration_enum, digits_from_migration_enum, decode_migration_account,
  finish_account,
}
use genotp_go.Migration.Message.{
  enum_algorithm, enum_digits, carried, decode_migration_account-account_message,
}

-- The account that a program gets when it imports an exported one: its numbers are those of the
-- enumerations, and its name is not yet split.
unfoldable pub imported : OtpAuthMigrationAccount → Bytes → OtpAuthMigrationAccount
imported account secret = record {
  typ = if is_hotp account.typ then hotp_type else totp_type;
  label = account_name account.issuer account.label;
  issuer = account.issuer;
  secret_b32 = encode_base32 secret;
  algorithm = account.algorithm;
  digits = if account.digits == 0 then 6 else account.digits;
  period = 30;
  counter = if is_hotp account.typ then account.counter else 0;
}

-- The lengths of an account fit an int, and its counter a uint64.
pub record Sized (account : OtpAuthMigrationAccount) (secret : Bytes) : Type 0 where
  pub secret_fits : length secret < 2 ^ 63
  pub name_fits : length (account_name account.issuer account.label) < 2 ^ 63
  pub issuer_fits : length account.issuer < 2 ^ 63
  pub counter_fits : account.counter < 2 ^ 64

algorithm_enum_lem :
    (algorithm : Algorithm) (enum : ℕ)
    → migration_algorithm_from_algorithm algorithm ≡ ok enum
    → (enum_algorithm enum ≡ algorithm)
      × (algorithm_from_migration_enum enum ≡ ok (enum_algorithm enum))
      × (enum < 2 ^ 64)
unfolding migration_algorithm_from_algorithm algorithm_from_migration_enum
algorithm_enum_lem sha1 enum e = ground (arith, e)
algorithm_enum_lem sha256 enum e = ground (arith, e)
algorithm_enum_lem sha512 enum e = ground (arith, e)
algorithm_enum_lem (other x) enum e = ground (arith, e)

digit_enum_lem :
    (digits enum : ℕ)
    → migration_digit_enum digits ≡ ok enum
    → (enum_digits enum ≡ digits)
      × (digits_from_migration_enum enum ≡ ok (enum_digits enum))
      × (enum < 2 ^ 64)
unfolding migration_digit_enum digits_from_migration_enum
digit_enum_lem digits enum e = ground (arith, e)

carried-imported :
    (account : OtpAuthMigrationAccount) (secret : Bytes) (algorithm_enum digit_enum : ℕ)
    → enum_algorithm algorithm_enum ≡ account.algorithm
    → enum_digits digit_enum ≡ (if account.digits == 0 then 6 else account.digits)
    → carried account secret algorithm_enum digit_enum ≡ imported account secret
unfolding carried imported
carried-imported account secret algorithm_enum digit_enum e e' =
    ap (λ a. record (carried account secret algorithm_enum digit_enum) { algorithm = a }) e
    ∙ ap (λ d. record (imported account secret) { digits = d }) e'

-- What a successful bind went through.
pub bind-ok :
    {A B : Type 0} (r : Result A) (f : A → Result B) (b : B) (P : Type 0)
    → (r >>= f) ≡ ok b
    → ((a : A) → r ≡ ok a → f a ≡ ok b → P)
    → P
bind-ok (ok a) f b P e k = k a refl e
bind-ok (err x) f b P e k = absurd (ground (arith, e))
bind-ok panic f b P e k = absurd (ground (arith, e))

-- A successful encoding wrote the message.
writing :
    (account : OtpAuthMigrationAccount) (secret msg : Bytes)
    → decoded_secret (normalize_base32_secret account.secret_b32) ≡ ok secret
    → encode_migration_account account ≡ ok msg
    → (migration_algorithm_from_algorithm account.algorithm >>= (λ algorithm_enum.
        migration_digit_enum (if account.digits == 0 then 6 else account.digits)
        >>= (λ digit_enum. ok (account_message account secret algorithm_enum digit_enum))))
      ≡ ok msg
unfolding encode_migration_account
writing account secret msg decoded encoded =
    elim (Bool-cases (length (normalize_base32_secret account.secret_b32) == 0)) [
      | inl empty ↦ absurd (ground (arith, empty, encoded))
      | inr full ↦ rw (sym encoded) (rw full (rw decoded refl))
    ]

pub ok_inj : {A : Type 0} {a b : A} → ok a ≡ ok b → a ≡ b
ok_inj {a = a} e = ap (λ r. elim r [ ok x ↦ x | err x ↦ a | panic ↦ a ]) e

-- The account that was written is read back as it is imported.
pub decode_migration_account-encode_migration_account :
    (account : OtpAuthMigrationAccount) (secret msg : Bytes)
    → decoded_secret (normalize_base32_secret account.secret_b32) ≡ ok secret
    → encode_migration_account account ≡ ok msg
    → Sized account secret
    → decode_migration_account msg ≡ finish_account (imported account secret)
decode_migration_account-encode_migration_account account secret msg decoded encoded sized =
    bind-ok (migration_algorithm_from_algorithm account.algorithm) _ msg _
      (writing account secret msg decoded encoded)
      (λ algorithm_enum algorithm_written e.
        bind-ok (migration_digit_enum (if account.digits == 0 then 6 else account.digits)) _ msg _ e
          (λ digit_enum digits_written e'.
            let (same_algorithm, known_algorithm, algorithm_fits) =
              algorithm_enum_lem account.algorithm algorithm_enum algorithm_written in
            let (same_digits, known_digits, digits_fit) =
              digit_enum_lem _ digit_enum digits_written in
            ap decode_migration_account (sym (ok_inj e'))
            ∙ decode_migration_account-account_message account secret algorithm_enum digit_enum
                sized.secret_fits sized.name_fits sized.issuer_fits known_algorithm known_digits
                (algorithm_fits, digits_fit) sized.counter_fits
            ∙ ap finish_account (
                carried-imported account secret algorithm_enum digit_enum same_algorithm
                  same_digits)))
