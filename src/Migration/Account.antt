-- ===== src/Migration/Account.antt =====
-- Accounts in a migration payload: any bytes are read to an account or an error, and the account that
-- is written is read back.
use genotp_go.Base.{
  ℕ, zero, suc, ◌+◌, ◌≤◌, ◌<◌, ◌==◌, ◌&&◌, Bool, true, not, some, [], ◌∷◌, ◌++◌, length,
  length-append, Bytes, ◌≡◌, inl, inr, Bool-cases, Option-cases, arith,
}
use genotp_go.Text.{has_prefix, index_byte}
use genotp_go.Errors.{Result, ok, err, panic, ◌>>=◌}
use genotp_go.Base32.{encode_base32}
use genotp_go.Algorithm.{Algorithm}
use genotp_go.Wire.{
  slice_at, or_invalid, read_fields, read_proto_bytes, read_proto_scalar, skip_proto_field,
  read_proto_varint,
}
use genotp_go.Wire.Fields.{
  IsWithin, read_proto_bytes-IsWithin, read_proto_scalar-IsWithin, read_proto_varint-IsWithin,
}
use genotp_go.Wire.Loop.{IsReader, IsDone, or_invalid-IsWithin, read_fields-IsDone}
use genotp_go.Wire.Message.{use_read-IsWithin, IsWithin-weaken}
use genotp_go.Migration.{
  OtpAuthMigrationAccount, scalar_field, bytes_field, skipped_field, account_field,
  algorithm_from_migration_enum, digits_from_migration_enum, decode_migration_account,
  split_migration_label, finish_account, blank_account, otp_type_from_migration_enum,
}

pub scalar_field-IsWithin :
    {A : Type 0} (bytes : Bytes) (wire_type : ℕ) (use_value : ℕ → Result A)
    → ((value : ℕ) → IsDone (use_value value))
    → IsWithin (length bytes + 1) (scalar_field bytes wire_type use_value)
unfolding scalar_field
scalar_field-IsWithin bytes wire_type use_value done =
    use_read-IsWithin (length bytes + 1) (or_invalid (read_proto_scalar bytes wire_type)) use_value
      (or_invalid-IsWithin (length bytes + 1) _ (
        IsWithin-weaken (length bytes) (length bytes + 1) _ (omega arith)
          (read_proto_scalar-IsWithin bytes wire_type)))
      done

pub bytes_field-IsWithin :
    {A : Type 0} (bytes : Bytes) (use_value : Bytes → Result A)
    → ((value : Bytes) → IsDone (use_value value))
    → IsWithin (length bytes + 1) (bytes_field bytes use_value)
unfolding bytes_field
bytes_field-IsWithin bytes use_value done =
    use_read-IsWithin (length bytes + 1) (or_invalid (read_proto_bytes bytes)) use_value
      (or_invalid-IsWithin (length bytes + 1) _ (
        IsWithin-weaken (length bytes) (length bytes + 1) _ (omega arith)
          (read_proto_bytes-IsWithin bytes)))
      done

pub skipped_field-IsWithin :
    {A : Type 0} (bytes : Bytes) (wire_type : ℕ) (a : A)
    → IsWithin (length bytes + 1) (skipped_field bytes wire_type a)
unfolding skipped_field skip_proto_field
skipped_field-IsWithin bytes wire_type a = ground (arith, varint_part, bytes_part)
  where
    behind :
        {B : Type 0} (r : Result (B × Bytes))
        → IsWithin (length bytes) r
        → IsWithin (length bytes + 1) (or_invalid (r >>= (λ t. ok t.1)) >>= (λ rest. ok (a, rest)))
    behind (ok t) h = omega (arith, h)
    behind (err e) h = tt
    behind panic h = h

    varint_part :
        IsWithin
          (length bytes + 1)
          (or_invalid (read_proto_varint bytes >>= (λ t. ok t.1)) >>= (λ rest. ok (a, rest)))
    varint_part = behind (read_proto_varint bytes) (read_proto_varint-IsWithin bytes)

    bytes_part :
        IsWithin
          (length bytes + 1)
          (or_invalid (read_proto_bytes bytes >>= (λ t. ok t.1)) >>= (λ rest. ok (a, rest)))
    bytes_part = behind (read_proto_bytes bytes) (read_proto_bytes-IsWithin bytes)

algorithm_from_migration_enum-IsDone :
    {A : Type 0} (value : ℕ) (f : Algorithm → A)
    → IsDone (algorithm_from_migration_enum value >>= (λ a. ok (f a)))
unfolding algorithm_from_migration_enum
algorithm_from_migration_enum-IsDone value f = ground arith

digits_from_migration_enum-IsDone :
    {A : Type 0} (value : ℕ) (f : ℕ → A)
    → IsDone (digits_from_migration_enum value >>= (λ d. ok (f d)))
unfolding digits_from_migration_enum
digits_from_migration_enum-IsDone value f = ground arith

pub account_field-IsReader : IsReader account_field
unfolding account_field
account_field-IsReader account number wire_type bytes =
    ground (arith, secret, label, issuer, algorithm, digits, typ, counter, skipped)
  where
    Within : Result (OtpAuthMigrationAccount × Bytes) → Type 0
    Within r = IsWithin (length bytes + 1) r

    secret :
        Within
          (bytes_field bytes (λ value. ok (record account { secret_b32 = encode_base32 value })))
    secret = bytes_field-IsWithin bytes _ (λ v. tt)

    label : Within (bytes_field bytes (λ value. ok (record account { label = value })))
    label = bytes_field-IsWithin bytes _ (λ v. tt)

    issuer : Within (bytes_field bytes (λ value. ok (record account { issuer = value })))
    issuer = bytes_field-IsWithin bytes _ (λ v. tt)

    algorithm : Within (
        scalar_field bytes wire_type (λ value.
          algorithm_from_migration_enum value >>= (λ a. ok (record account { algorithm = a }))))
    algorithm =
        scalar_field-IsWithin bytes wire_type _ (λ v. algorithm_from_migration_enum-IsDone v _)

    digits : Within (
        scalar_field bytes wire_type
          (λ value. digits_from_migration_enum value >>= (λ d. ok (record account { digits = d }))))
    digits = scalar_field-IsWithin bytes wire_type _ (λ v. digits_from_migration_enum-IsDone v _)

    typ : Within (
        scalar_field bytes wire_type
          (λ value. ok (record account { typ = otp_type_from_migration_enum value })))
    typ = scalar_field-IsWithin bytes wire_type _ (λ v. tt)

    counter :
        Within (scalar_field bytes wire_type (λ value. ok (record account { counter = value })))
    counter = scalar_field-IsWithin bytes wire_type _ (λ v. tt)

    skipped : Within (skipped_field bytes wire_type account)
    skipped = skipped_field-IsWithin bytes wire_type account

pub IsDone-bind :
    {A B : Type 0} (r : Result A) (f : A → Result B)
    → IsDone r
    → ((a : A) → IsDone (f a))
    → IsDone (r >>= f)
IsDone-bind (ok a) f h k = k a
IsDone-bind (err e) f h k = tt
IsDone-bind panic f h k = h

-- A prefix and an index are inside of the string.
length-has_prefix : (s p : Bytes) → has_prefix s p ≡ true → length p ≤ length s
unfolding has_prefix
length-has_prefix s [] e = omega arith
length-has_prefix [] (b ∷ p) e = absurd (ground (arith, e))
length-has_prefix (a ∷ s) (b ∷ p) e = ground (arith, length-has_prefix s p)

index_byte-lt : (s : Bytes) (c i : ℕ) → index_byte s c ≡ some i → i < length s
unfolding index_byte
index_byte-lt [] c i e = absurd (ground (arith, e))
index_byte-lt (b ∷ s) c zero e = omega arith
index_byte-lt (b ∷ s) c (suc i) e = ground (arith, index_byte-lt s c i)

slice_at-IsDone : (n : ℕ) (bytes : Bytes) → n ≤ length bytes → IsDone (slice_at n bytes)
unfolding slice_at
slice_at-IsDone n bytes h = ground arith

cut-IsDone :
    (n : ℕ) (name : Bytes) (f : Bytes × Bytes → Result (Bytes × Bytes))
    → n ≤ length name
    → ((s : Bytes × Bytes) → IsDone (f s))
    → IsDone (slice_at n name >>= f)
cut-IsDone n name f h k = IsDone-bind (slice_at n name) f (slice_at-IsDone n name h) k

split_migration_label-IsDone : (issuer name : Bytes) → IsDone (split_migration_label issuer name)
unfolding split_migration_label
split_migration_label-IsDone issuer name = elim (Bool-cases matched) [
  | inl hit ↦ rw hit (
      cut-IsDone (length issuer + 1) name _
        (omega (
          arith,
          length-append issuer (b':' ∷ []),
          length-has_prefix name (issuer ++ (b':' ∷ [])) (ground (arith, hit)),
        ))
        (λ s. tt))
  | inr miss ↦ rw miss (elim (Option-cases (index_byte name b':')) [
    | inl missing ↦ rw missing tt
    | inr (zero, found) ↦ rw found tt
    | inr (suc i, found) ↦ rw found (
        cut-IsDone (suc i) name _ (omega (arith, index_byte-lt name b':' (suc i) found)) (λ s.
          cut-IsDone (suc (suc i)) name _ (omega (arith, index_byte-lt name b':' (suc i) found))
            (λ s'. tt)))
  ])
]
  where
    matched : Bool
    matched = not (length issuer == 0) && has_prefix name (issuer ++ (b':' ∷ []))

finish_account-IsDone : (account : OtpAuthMigrationAccount) → IsDone (finish_account account)
unfolding finish_account
finish_account-IsDone account = ground (
  arith,
  IsDone-bind (split_migration_label account.issuer account.label)
      (λ s. ok (record account { issuer = s.0; label = s.1 }))
      (split_migration_label-IsDone account.issuer account.label) (λ s. tt),
)

pub decode_migration_account-IsDone : (bytes : Bytes) → IsDone (decode_migration_account bytes)
unfolding decode_migration_account
decode_migration_account-IsDone bytes =
    IsDone-bind (read_fields account_field blank_account bytes) finish_account
      (read_fields-IsDone account_field blank_account bytes account_field-IsReader)
      finish_account-IsDone
