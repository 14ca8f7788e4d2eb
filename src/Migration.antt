-- ===== src/Migration.antt =====
-- migration.go: otpauth-migration payloads, which carry accounts from one authenticator to another.
pub mod Account
pub mod Message
pub mod Written
pub mod Names
pub mod Payload
pub mod Uri
use genotp_go.Base.{
  ℕ, zero, suc, ◌+◌, ◌-◌, ◌*◌, ◌/◌, ◌%◌, ◌^◌, Bool, true, false, not, ◌&&◌, ◌||◌, ltb, leb, ◌==◌,
  if◌then◌else◌, List, [], ◌∷◌, ◌++◌, length, take, drop, replicate, Bytes, Option, none, some,
  codes,
}
use genotp_go.Base.Int.{ℤ, pos, negsuc, ltb_ℤ, is_zero}
use genotp_go.Errors.{
  Result, ok, err, panic, ◌>>=◌, invalid_secret, invalid_algorithm, invalid_digits,
  invalid_migration, invalid_uri,
}
use genotp_go.Base32.{decode_base32, encode_base32}
use genotp_go.Algorithm.{Algorithm, sha1, sha256, sha512, other}
use genotp_go.Text.{trim_space, has_prefix, index_byte}
use genotp_go.Provisioning.{OtpType, hotp_type, totp_type, other_type, normalize_base32_secret}
use genotp_go.Wire.{
  append_proto_bytes_field, append_proto_varint_field, slice_at, read_proto_bytes,
  read_proto_scalar, skip_proto_field, or_invalid, read_fields, checked_uint64_to_int32,
}

pub record OtpAuthMigrationAccount : Type 0 where
  pub typ : OtpType
  pub label : Bytes
  pub issuer : Bytes
  pub secret_b32 : Bytes
  pub algorithm : Algorithm
  pub digits : ℕ
  pub period : ℕ
  pub counter : ℕ

-- The four numbers are int32.
pub record OtpAuthMigrationOptions : Type 0 where
  pub version : ℤ
  pub batch_size : ℤ
  pub batch_index : ℤ
  pub batch_id : ℤ

pub record OtpAuthMigrationPayload : Type 0 where
  pub accounts : List OtpAuthMigrationAccount
  pub version : ℕ
  pub batch_size : ℕ
  pub batch_index : ℕ
  pub batch_id : ℕ

unfoldable pub migration_algorithm_from_algorithm : Algorithm → Result ℕ
migration_algorithm_from_algorithm sha1 = ok 1
migration_algorithm_from_algorithm sha256 = ok 2
migration_algorithm_from_algorithm sha512 = ok 3
migration_algorithm_from_algorithm (other _) = err invalid_algorithm

unfoldable pub algorithm_from_migration_enum : ℕ → Result Algorithm
algorithm_from_migration_enum value =
    if value == 0 || value == 1
    then ok sha1
    else if value == 2
    then ok sha256
    else if value == 3
    then ok sha512
    else err invalid_algorithm

unfoldable pub migration_digit_enum : ℕ → Result ℕ
migration_digit_enum digits =
    if digits == 6 then ok 1 else if digits == 8 then ok 2 else err invalid_digits

unfoldable pub digits_from_migration_enum : ℕ → Result ℕ
digits_from_migration_enum value =
    if value == 0 || value == 1 then ok 6 else if value == 2 then ok 8 else err invalid_digits

unfoldable pub otp_type_from_migration_enum : ℕ → OtpType
otp_type_from_migration_enum value = if value == 1 then hotp_type else totp_type

abbrev pub is_hotp : OtpType → Bool
is_hotp hotp_type = true
is_hotp _ = false

-- The name of an account: its label, behind the issuer unless that is in front already.
unfoldable pub account_name : Bytes → Bytes → Bytes
account_name issuer label =
    if not (length issuer == 0) && not (has_prefix label (issuer ++ (b':' ∷ [])))
    then issuer ++ (b':' ∷ label)
    else label

-- The fields of an account's message, for its decoded secret and the numbers of its enumerations.
unfoldable pub account_message : OtpAuthMigrationAccount → Bytes → ℕ → ℕ → Bytes
account_message account secret algorithm_enum digit_enum =
    let otp_type_enum : ℕ = if is_hotp account.typ then 1 else 2 in
    let named =
      append_proto_bytes_field (append_proto_bytes_field [] 1 secret) 2
        (account_name account.issuer account.label) in
    let issued =
      if length account.issuer == 0
      then named
      else append_proto_bytes_field named 3 account.issuer in
    let typed =
      append_proto_varint_field
        (append_proto_varint_field (append_proto_varint_field issued 4 algorithm_enum) 5 digit_enum)
        6 otp_type_enum in
    if is_hotp account.typ then append_proto_varint_field typed 7 account.counter else typed

-- The secret of an account in bytes: the buffer, cut to the length that was decoded.
unfoldable pub decoded_secret : Bytes → Result Bytes
decoded_secret normalized =
    let (buffer, n) = decode_base32 (replicate (length normalized * 5 / 8 + 1) 0) normalized in
    n >>= (λ size. ok (take size buffer))

unfoldable pub encode_migration_account : OtpAuthMigrationAccount → Result Bytes
encode_migration_account account =
    if length (normalize_base32_secret account.secret_b32) == 0 then err invalid_secret else (do
      secret ← decoded_secret (normalize_base32_secret account.secret_b32)
      algorithm_enum ← migration_algorithm_from_algorithm account.algorithm
      digit_enum ← migration_digit_enum (if account.digits == 0 then 6 else account.digits)
      ok (account_message account secret algorithm_enum digit_enum))

unfoldable pub split_migration_label : Bytes → Bytes → Result (Bytes × Bytes)
split_migration_label issuer name =
    let split : Result (Bytes × Bytes) = elim (index_byte name b':') [
      | none ↦ ok (issuer, name)
      | some zero ↦ ok (issuer, name)
      | some (suc i) ↦ do
        before ← slice_at (suc i) name
        after ← slice_at (suc (suc i)) name
        ok (trim_space before.0, trim_space after.1)
    ] in
    if not (length issuer == 0) && has_prefix name (issuer ++ (b':' ∷ []))
    then (do (prefix, label) ← slice_at (length issuer + 1) name; ok (issuer, trim_space label))
    else split

-- A field whose value is a varint, read and put into the message.
unfoldable pub scalar_field : {A : Type 0} → Bytes → ℕ → (ℕ → Result A) → Result (A × Bytes)
scalar_field bytes wire_type use_value = do
  (value, rest) ← or_invalid (read_proto_scalar bytes wire_type)
  a ← use_value value
  ok (a, rest)

unfoldable pub bytes_field : {A : Type 0} → Bytes → (Bytes → Result A) → Result (A × Bytes)
bytes_field bytes use_value = do
  (value, rest) ← or_invalid (read_proto_bytes bytes)
  a ← use_value value
  ok (a, rest)

unfoldable pub skipped_field : {A : Type 0} → Bytes → ℕ → A → Result (A × Bytes)
skipped_field bytes wire_type a = do
  rest ← or_invalid (skip_proto_field bytes wire_type)
  ok (a, rest)

-- The switch of `decodeMigrationAccount`. A field of bytes is read whatever its wire type.
unfoldable pub account_field :
    OtpAuthMigrationAccount → ℕ → ℕ → Bytes → Result (OtpAuthMigrationAccount × Bytes)
account_field account number wire_type bytes =
    if number == 1
    then bytes_field bytes (λ value. ok (record account { secret_b32 = encode_base32 value }))
    else if number == 2
    then bytes_field bytes (λ value. ok (record account { label = value }))
    else if number == 3
    then bytes_field bytes (λ value. ok (record account { issuer = value }))
    else if number == 4
    then scalar_field bytes wire_type (λ value.
      algorithm_from_migration_enum value >>= (λ a. ok (record account { algorithm = a })))
    else if number == 5
    then scalar_field bytes wire_type
        (λ value. digits_from_migration_enum value >>= (λ d. ok (record account { digits = d })))
    else if number == 6
    then scalar_field bytes wire_type
        (λ value. ok (record account { typ = otp_type_from_migration_enum value }))
    else if number == 7
    then scalar_field bytes wire_type (λ value. ok (record account { counter = value }))
    else skipped_field bytes wire_type account

abbrev pub blank_account : OtpAuthMigrationAccount
blank_account = record {
  typ = totp_type;
  label = [];
  issuer = [];
  secret_b32 = [];
  algorithm = sha1;
  digits = 6;
  period = 30;
  counter = 0;
}

-- After the loop: a secret and a label must be there, and the name is split.
unfoldable pub finish_account : OtpAuthMigrationAccount → Result OtpAuthMigrationAccount
finish_account account =
    if length account.secret_b32 == 0 || length account.label == 0
    then err invalid_migration
    else (do
      (issuer, label) ← split_migration_label account.issuer account.label
      ok (record account { issuer = issuer; label = label }))

unfoldable pub decode_migration_account : Bytes → Result OtpAuthMigrationAccount
decode_migration_account bytes = read_fields account_field blank_account bytes >>= finish_account

-- `uint64(x)` of an int32.
abbrev pub uint64_of_int32 : ℤ → ℕ
uint64_of_int32 (pos n) = n
uint64_of_int32 (negsuc n) = 2 ^ 64 - suc n

unfoldable pub append_accounts : Bytes → List OtpAuthMigrationAccount → Result Bytes
append_accounts payload [] = ok payload
append_accounts payload (account ∷ accounts) = do
  account_bytes ← encode_migration_account account
  append_accounts (append_proto_bytes_field payload 1 account_bytes) accounts

-- A number that is written unless it is 0.
unfoldable pub append_nonzero : Bytes → ℕ → ℤ → Bytes
append_nonzero payload field n =
    if is_zero n then payload else append_proto_varint_field payload field (uint64_of_int32 n)

unfoldable pub version_of : Option OtpAuthMigrationOptions → ℤ
version_of none = pos 1
version_of (some opts) = if ltb_ℤ (pos 0) opts.version then opts.version else pos 1

unfoldable pub append_options : Bytes → Option OtpAuthMigrationOptions → Bytes
append_options payload opts =
    let versioned = append_proto_varint_field payload 2 (uint64_of_int32 (version_of opts)) in
    elim opts [
      | none ↦ versioned
      | some o ↦
          append_nonzero (append_nonzero (append_nonzero versioned 3 o.batch_size) 4 o.batch_index)
            5 o.batch_id
    ]

-- The payload of `BuildOtpAuthMigrationURI`, before it is written in Base64.
unfoldable pub build_payload :
    List OtpAuthMigrationAccount → Option OtpAuthMigrationOptions → Result Bytes
build_payload accounts opts =
    append_accounts [] accounts >>= (λ payload. ok (append_options payload opts))

-- A number of the payload: any error is ErrInvalidMigration.
unfoldable pub int32_field : {A : Type 0} → Bytes → ℕ → (ℕ → A) → Result (A × Bytes)
int32_field bytes wire_type use_value =
    scalar_field bytes wire_type
      (λ value. or_invalid (checked_uint64_to_int32 value) >>= (λ n. ok (use_value n)))

-- The switch of `ParseOtpAuthMigrationURI`. An error of an account is passed on.
unfoldable pub payload_field :
    OtpAuthMigrationPayload → ℕ → ℕ → Bytes → Result (OtpAuthMigrationPayload × Bytes)
payload_field payload number wire_type bytes =
    let account_of : Result (OtpAuthMigrationPayload × Bytes) = bytes_field bytes (λ value.
      decode_migration_account value
      >>= (λ a. ok (record payload { accounts = payload.accounts ++ (a ∷ []) }))) in
    if number == 1
    then (if wire_type == 2 then account_of else err invalid_migration)
    else if number == 2
    then int32_field bytes wire_type (λ n. record payload { version = n })
    else if number == 3
    then int32_field bytes wire_type (λ n. record payload { batch_size = n })
    else if number == 4
    then int32_field bytes wire_type (λ n. record payload { batch_index = n })
    else if number == 5
    then int32_field bytes wire_type (λ n. record payload { batch_id = n })
    else skipped_field bytes wire_type payload

abbrev pub blank_payload : OtpAuthMigrationPayload
blank_payload = record { accounts = []; version = 0; batch_size = 0; batch_index = 0; batch_id = 0 }

-- The loop of `ParseOtpAuthMigrationURI` over the decoded bytes.
unfoldable pub parse_payload : Bytes → Result OtpAuthMigrationPayload
parse_payload bytes = read_fields payload_field blank_payload bytes
