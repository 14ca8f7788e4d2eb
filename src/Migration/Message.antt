-- ===== src/Migration/Message.antt =====
-- The message of an account: what is read from it after each of its fields.
use genotp_go.Base.{
  ℕ, suc, ◌^◌, ◌<◌, Bool, true, false, ◌==◌, if◌then◌else◌, [], ◌∷◌, ◌++◌, length, Bytes, ◌≡◌, refl,
  sym, ap, ◌∙◌, arith,
}
use mathlib.Core.List.{append-nil}
use genotp_go.Errors.{Result, ok, ◌>>=◌}
use genotp_go.Base32.{encode_base32}
use genotp_go.Algorithm.{Algorithm, sha1, sha256, sha512}
use genotp_go.Provisioning.{hotp_type, totp_type}
use genotp_go.Wire.{
  or_invalid, read_fields, read_proto_scalar, varint, append_proto_bytes_field,
  append_proto_varint_field,
}
use genotp_go.Wire.Varint.{read_proto_varint-varint}
use genotp_go.Wire.Fields.{read_proto_bytes-varint}
use genotp_go.Wire.Loop.{read_fields-nil}
use genotp_go.Wire.Message.{
  ReadsAs, ReadsAs-nil, ReadsAs-append_proto_varint_field, ReadsAs-append_proto_bytes_field,
}
use genotp_go.Migration.{
  OtpAuthMigrationAccount, is_hotp, account_name, account_message, scalar_field, bytes_field,
  account_field, algorithm_from_migration_enum, digits_from_migration_enum,
  otp_type_from_migration_enum, decode_migration_account, finish_account, blank_account,
}
use genotp_go.Migration.Account.{account_field-IsReader}

pub bytes_field-varint :
    {A : Type 0} (value body : Bytes) (use_value : Bytes → Result A) (a : A)
    → length value < 2 ^ 63
    → use_value value ≡ ok a
    → bytes_field (varint 10 (length value) ++ (value ++ body)) use_value ≡ ok (a, body)
unfolding bytes_field
bytes_field-varint value body use_value a fits e =
    ap (λ r. or_invalid r >>= (λ t. use_value t.0 >>= (λ b. ok (b, t.1))))
      (read_proto_bytes-varint value body fits)
    ∙ ap (◌>>= (λ b. ok (b, body))) e

pub scalar_field-varint :
    {A : Type 0} (value : ℕ) (body : Bytes) (use_value : ℕ → Result A) (a : A)
    → value < 2 ^ 64
    → use_value value ≡ ok a
    → scalar_field (varint 10 value ++ body) 0 use_value ≡ ok (a, body)
unfolding scalar_field read_proto_scalar
scalar_field-varint value body use_value a fits e =
    ap (λ r. or_invalid r >>= (λ t. use_value t.0 >>= (λ b. ok (b, t.1))))
      (read_proto_varint-varint value body fits)
    ∙ ap (◌>>= (λ b. ok (b, body))) e

-- The algorithm of a number of the enumeration, and its digits.
abbrev pub enum_algorithm : ℕ → Algorithm
enum_algorithm enum = if enum == 1 then sha1 else if enum == 2 then sha256 else sha512

abbrev pub enum_digits : ℕ → ℕ
enum_digits enum = if enum == 1 then 6 else 8

-- What an account keeps on its way through a message, before its name is split.
unfoldable pub carried : OtpAuthMigrationAccount → Bytes → ℕ → ℕ → OtpAuthMigrationAccount
carried account secret algorithm_enum digit_enum = record {
  typ = if is_hotp account.typ then hotp_type else totp_type;
  label = account_name account.issuer account.label;
  issuer = account.issuer;
  secret_b32 = encode_base32 secret;
  algorithm = enum_algorithm algorithm_enum;
  digits = enum_digits digit_enum;
  period = 30;
  counter = if is_hotp account.typ then account.counter else 0;
}

module _ (account : OtpAuthMigrationAccount) (secret : Bytes) (algorithm_enum digit_enum : ℕ)
    (secret_fits : length secret < 2 ^ 63)
    (name_fits : length (account_name account.issuer account.label) < 2 ^ 63)
    (issuer_fits : length account.issuer < 2 ^ 63)
    (algorithm_known : algorithm_from_migration_enum algorithm_enum
      ≡ ok (enum_algorithm algorithm_enum))
    (digits_known : digits_from_migration_enum digit_enum ≡ ok (enum_digits digit_enum))
    (enums_fit : (algorithm_enum < 2 ^ 64) × (digit_enum < 2 ^ 64))
    (counter_fits : account.counter < 2 ^ 64) where
  abbrev name : Bytes
  name = account_name account.issuer account.label

  -- The message after each field, and the account that is read from it.
  abbrev msg1 : Bytes
  msg1 = append_proto_bytes_field [] 1 secret

  abbrev msg2 : Bytes
  msg2 = append_proto_bytes_field msg1 2 name

  abbrev msg3 : Bytes
  msg3 = if length account.issuer == 0 then msg2 else append_proto_bytes_field msg2 3 account.issuer

  abbrev msg4 : Bytes
  msg4 = append_proto_varint_field msg3 4 algorithm_enum

  abbrev msg5 : Bytes
  msg5 = append_proto_varint_field msg4 5 digit_enum

  abbrev msg6 : Bytes
  msg6 = append_proto_varint_field msg5 6 (if is_hotp account.typ then 1 else 2)

  abbrev read1 : OtpAuthMigrationAccount
  read1 = record blank_account { secret_b32 = encode_base32 secret }

  abbrev read2 : OtpAuthMigrationAccount
  read2 = record read1 { label = name }

  abbrev read3 : OtpAuthMigrationAccount
  read3 = record read2 { issuer = account.issuer }

  abbrev read4 : OtpAuthMigrationAccount
  read4 = record read3 { algorithm = enum_algorithm algorithm_enum }

  abbrev read5 : OtpAuthMigrationAccount
  read5 = record read4 { digits = enum_digits digit_enum }

  abbrev read6 : OtpAuthMigrationAccount
  read6 = record read5 { typ = if is_hotp account.typ then hotp_type else totp_type }

  step1 : ReadsAs account_field blank_account msg1 read1
  unfolding account_field
  step1 =
      ReadsAs-append_proto_bytes_field account_field blank_account blank_account read1 [] 1 secret
        account_field-IsReader (omega arith) (ReadsAs-nil account_field blank_account)
        (λ body.
          bytes_field-varint secret body
            (λ value. ok (record blank_account { secret_b32 = encode_base32 value })) read1
            secret_fits refl)

  step2 : ReadsAs account_field blank_account msg2 read2
  unfolding account_field
  step2 =
      ReadsAs-append_proto_bytes_field account_field blank_account read1 read2 msg1 2 name
        account_field-IsReader (omega arith) step1
        (λ body.
          bytes_field-varint name body (λ value. ok (record read1 { label = value })) read2
            name_fits refl)

  step3 : ReadsAs account_field blank_account msg3 read3
  step3 = issued account.issuer issuer_fits
    where
      nonempty : (n : ℕ) → (suc n == 0) ≡ false
      nonempty n = ground arith

      issued :
          (issuer : Bytes)
          → length issuer < 2 ^ 63
          → ReadsAs account_field blank_account
              (if length issuer == 0 then msg2 else append_proto_bytes_field msg2 3 issuer)
              (record read2 { issuer = issuer })
      issued [] fits = step2
      issued (b ∷ issuer) fits = rw (nonempty (length issuer)) (
          unfold account_field in
          ReadsAs-append_proto_bytes_field account_field blank_account read2
            (record read2 { issuer = b ∷ issuer }) msg2 3 (b ∷ issuer) account_field-IsReader
            (omega arith) step2
            (λ body.
              bytes_field-varint (b ∷ issuer) body (λ value. ok (record read2 { issuer = value }))
                (record read2 { issuer = b ∷ issuer }) fits refl))

  step4 : ReadsAs account_field blank_account msg4 read4
  unfolding account_field
  step4 =
      ReadsAs-append_proto_varint_field account_field blank_account read3 read4 msg3 4
        algorithm_enum account_field-IsReader step3
        (λ body.
          scalar_field-varint algorithm_enum body
            (λ value.
              algorithm_from_migration_enum value >>= (λ a. ok (record read3 { algorithm = a })))
            read4 enums_fit.0
            (ap (◌>>= (λ a. ok (record read3 { algorithm = a }))) algorithm_known))

  step5 : ReadsAs account_field blank_account msg5 read5
  unfolding account_field
  step5 =
      ReadsAs-append_proto_varint_field account_field blank_account read4 read5 msg4 5 digit_enum
        account_field-IsReader step4
        (λ body.
          scalar_field-varint digit_enum body
            (λ value. digits_from_migration_enum value >>= (λ d. ok (record read4 { digits = d })))
            read5 enums_fit.1 (ap (◌>>= (λ d. ok (record read4 { digits = d }))) digits_known))

  step6 : ReadsAs account_field blank_account msg6 read6
  step6 = typed (is_hotp account.typ)
    where
      typed :
          (hotp : Bool)
          → ReadsAs account_field blank_account
              (append_proto_varint_field msg5 6 (if hotp then 1 else 2))
              (record read5 { typ = if hotp then hotp_type else totp_type })
      typed true =
          unfold account_field otp_type_from_migration_enum in
          ReadsAs-append_proto_varint_field account_field blank_account read5
            (record read5 { typ = hotp_type }) msg5 6 1 account_field-IsReader step5
            (λ body.
              scalar_field-varint 1 body
                (λ value. ok (record read5 { typ = otp_type_from_migration_enum value })) _
                (omega arith) refl)
      typed false =
          unfold account_field otp_type_from_migration_enum in
          ReadsAs-append_proto_varint_field account_field blank_account read5
            (record read5 { typ = totp_type }) msg5 6 2 account_field-IsReader step5
            (λ body.
              scalar_field-varint 2 body
                (λ value. ok (record read5 { typ = otp_type_from_migration_enum value })) _
                (omega arith) refl)

  whole :
      ReadsAs account_field blank_account
        (account_message account secret algorithm_enum digit_enum)
        (carried account secret algorithm_enum digit_enum)
  unfolding account_message carried
  whole = counted (is_hotp account.typ)
    where
      counted :
          (hotp : Bool)
          → ReadsAs account_field blank_account
              (if hotp then append_proto_varint_field msg6 7 account.counter else msg6)
              (record read6 { counter = if hotp then account.counter else 0 })
      counted false = step6
      counted true =
          unfold account_field in
          ReadsAs-append_proto_varint_field account_field blank_account read6
            (record read6 { counter = account.counter }) msg6 7 account.counter
            account_field-IsReader step6
            (λ body.
              scalar_field-varint account.counter body
                (λ value. ok (record read6 { counter = value })) _ counter_fits refl)

  pub decode_migration_account-account_message :
      decode_migration_account (account_message account secret algorithm_enum digit_enum)
      ≡ finish_account (carried account secret algorithm_enum digit_enum)
  unfolding decode_migration_account
  decode_migration_account-account_message =
      let msg = account_message account secret algorithm_enum digit_enum in
      let kept = carried account secret algorithm_enum digit_enum in
      ap (λ x. read_fields account_field blank_account x >>= finish_account) (sym (append-nil msg))
      ∙ ap (◌>>= finish_account) (whole [] ∙ read_fields-nil account_field kept)
