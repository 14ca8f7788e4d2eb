-- ===== src/Migration/Names.antt =====
-- The names of accounts: what `encodeMigrationAccount` puts together, `splitMigrationLabel` takes
-- apart again.
use genotp_go.Base.{
  ℕ, suc, ◌+◌, true, false, ◌==◌, if◌then◌else◌, [], ◌∷◌, ◌++◌, length, length-append, take, drop,
  Bytes, none, ◌≡◌, ◌≢◌, ◌⊎◌, refl, sym, ap, ◌∙◌, arith, inl, inr,
}
use genotp_go.Wire.{slice_at}
use genotp_go.Errors.{ok, ◌>>=◌}
use genotp_go.Text.{has_prefix, index_byte, trim_space}
use mathlib.Core.List.{append_assoc}
use genotp_go.Base32.{encode_base32, encode_groups}
use genotp_go.Provisioning.{normalize_base32_secret}
use genotp_go.Base.Int.{ℤ}
use genotp_go.Algorithm.{Algorithm, sha1, sha256, sha512, other}
use genotp_go.Migration.{
  account_message, migration_algorithm_from_algorithm, migration_digit_enum,
  OtpAuthMigrationAccount, account_name, split_migration_label, decoded_secret,
  encode_migration_account, decode_migration_account, finish_account,
}
use genotp_go.Migration.Written.{imported, Sized, decode_migration_account-encode_migration_account}

==_self : (n : ℕ) → (n == n) ≡ true
==_self n = ground arith

pub has_prefix-append : (p s : Bytes) → has_prefix (p ++ s) p ≡ true
unfolding has_prefix
has_prefix-append [] [] = refl
has_prefix-append [] (b ∷ s) = refl
has_prefix-append (b ∷ p) s = rw (==_self b) (has_prefix-append p s)

drop-append : (p : Bytes) (c : ℕ) (s : Bytes) → drop (length p + 1) (p ++ (c ∷ s)) ≡ s
drop-append p c s = ap (λ (n : ℕ). drop n (p ++ (c ∷ s))) (one_more (length p)) ∙ behind p
  where
    one_more : (n : ℕ) → n + 1 ≡ suc n
    one_more n = omega arith

    behind : (p : Bytes) → drop (suc (length p)) (p ++ (c ∷ s)) ≡ s
    behind [] = refl
    behind (b ∷ p) = behind p

has_prefix_issuer :
    (issuer label : Bytes) → has_prefix (issuer ++ (b':' ∷ label)) (issuer ++ (b':' ∷ [])) ≡ true
has_prefix_issuer issuer label =
    ap (λ x. has_prefix x (issuer ++ (b':' ∷ []))) (sym (append_assoc issuer (b':' ∷ []) label))
    ∙ has_prefix-append (issuer ++ (b':' ∷ [])) label

suc-==-zero : (n : ℕ) → (suc n == 0) ≡ false
suc-==-zero n = ground arith

slice_prefix :
    (issuer label : Bytes)
    → slice_at (length issuer + 1) (issuer ++ (b':' ∷ label))
      ≡ ok (take (length issuer + 1) (issuer ++ (b':' ∷ label)), label)
unfolding slice_at
slice_prefix issuer label =
    ground (arith, length-append issuer (b':' ∷ label), drop-append issuer b':' label)

-- A name with its issuer in front is split behind it.
split_prefixed :
    (b : ℕ) (issuer label : Bytes)
    → split_migration_label (b ∷ issuer) ((b ∷ issuer) ++ (b':' ∷ label))
      ≡ ok (b ∷ issuer, trim_space label)
unfolding split_migration_label
split_prefixed b issuer label = rw (suc-==-zero (length issuer)) (
    rw (has_prefix_issuer (b ∷ issuer) label)
      (ap (◌>>= (λ x. ok (b ∷ issuer, trim_space x.1))) (slice_prefix (b ∷ issuer) label)))

-- A name without an issuer and without a colon is left alone.
split_bare :
    (label : Bytes) → index_byte label b':' ≡ none → split_migration_label [] label ≡ ok ([], label)
unfolding split_migration_label
split_bare label e = rw e refl

account_name_issued :
    (b : ℕ) (issuer label : Bytes)
    → has_prefix label ((b ∷ issuer) ++ (b':' ∷ [])) ≡ false
    → account_name (b ∷ issuer) label ≡ (b ∷ issuer) ++ (b':' ∷ label)
unfolding account_name
account_name_issued b issuer label e = rw (suc-==-zero (length issuer)) (rw e refl)

account_name_bare : (label : Bytes) → account_name [] label ≡ label
unfolding account_name
account_name_bare label = refl

-- The name of an account comes back: there is an issuer, and the label does not begin with it and a
-- colon; or there is none, and the label has neither a colon nor spaces around it.
pub data IsPlain (issuer label : Bytes) : Type 0 where
  issued : issuer ≢ [] → has_prefix label (issuer ++ (b':' ∷ [])) ≡ false → IsPlain issuer label
  bare :
      issuer ≡ []
      → label ≢ []
      → index_byte label b':' ≡ none
      → trim_space label ≡ label
      → IsPlain issuer label

pub split_migration_label-account_name :
    (issuer label : Bytes)
    → IsPlain issuer label
    → split_migration_label issuer (account_name issuer label) ≡ ok (issuer, trim_space label)
split_migration_label-account_name [] label (issued nonempty e) = absurd (nonempty refl)
split_migration_label-account_name (b ∷ issuer) label (issued nonempty e) =
    ap (split_migration_label (b ∷ issuer)) (account_name_issued b issuer label e)
    ∙ split_prefixed b issuer label
split_migration_label-account_name [] label (bare empty nonempty e trimmed) =
    ap (split_migration_label []) (account_name_bare label)
    ∙ split_bare label e
    ∙ ap (λ x. ok ([], x)) (sym trimmed)
split_migration_label-account_name (b ∷ issuer) label (bare empty nonempty e trimmed) =
    absurd (ground (arith, empty))

name-nonempty :
    (issuer label : Bytes)
    → IsPlain issuer label
    → (length (account_name issuer label) == 0) ≡ false
name-nonempty [] label (issued nonempty e) = absurd (nonempty refl)
name-nonempty (b ∷ issuer) label (issued nonempty e) =
    ap (λ x. length x == 0) (account_name_issued b issuer label e)
    ∙ suc-==-zero (length (issuer ++ (b':' ∷ label)))
name-nonempty [] [] (bare empty nonempty e trimmed) = absurd (nonempty refl)
name-nonempty [] (c ∷ label) (bare empty nonempty e trimmed) =
    ap (λ x. length x == 0) (account_name_bare (c ∷ label)) ∙ suc-==-zero (length label)
name-nonempty (b ∷ issuer) label (bare empty nonempty e trimmed) = absurd (ground (arith, empty))

encode_base32-nonempty :
    (c : ℕ) (secret : Bytes) → (length (encode_base32 (c ∷ secret)) == 0) ≡ false
unfolding encode_base32 encode_groups
encode_base32-nonempty c secret = ground arith

finish-imported :
    (account : OtpAuthMigrationAccount) (c : ℕ) (secret : Bytes)
    → IsPlain account.issuer account.label
    → finish_account (imported account (c ∷ secret))
      ≡ ok (record (imported account (c ∷ secret)) { label = trim_space account.label })
unfolding finish_account imported
finish-imported account c secret plain = rw (encode_base32-nonempty c secret) (
    rw (name-nonempty account.issuer account.label plain)
      (rw (split_migration_label-account_name account.issuer account.label plain) refl))

-- What an account needs to be exported, for its decoded secret.
pub record Exportable (account : OtpAuthMigrationAccount) (secret : Bytes) : Type 0 where
  pub nonempty : length (normalize_base32_secret account.secret_b32) ≢ 0
  pub decoded : decoded_secret (normalize_base32_secret account.secret_b32) ≡ ok secret
  pub known_algorithm : (x : ℤ) → account.algorithm ≢ other x
  pub known_digits : (account.digits ≡ 0) ⊎ ((account.digits ≡ 6) ⊎ (account.digits ≡ 8))
  pub sized : Sized account secret
  pub plain : IsPlain account.issuer account.label

algorithm_written :
    (algorithm : Algorithm)
    → ((x : ℤ) → algorithm ≢ other x)
    → (n : ℕ) × (migration_algorithm_from_algorithm algorithm ≡ ok n)
unfolding migration_algorithm_from_algorithm
algorithm_written sha1 known = (1, refl)
algorithm_written sha256 known = (2, refl)
algorithm_written sha512 known = (3, refl)
algorithm_written (other x) known = absurd (known x refl)

digits_written :
    (digits : ℕ)
    → (digits ≡ 0) ⊎ ((digits ≡ 6) ⊎ (digits ≡ 8))
    → (n : ℕ) × (migration_digit_enum (if digits == 0 then 6 else digits) ≡ ok n)
unfolding migration_digit_enum
digits_written digits (inl e) = (1, ground (arith, e))
digits_written digits (inr (inl e)) = (1, ground (arith, e))
digits_written digits (inr (inr e)) = (2, ground (arith, e))

pub encode_migration_account-Exportable :
    (account : OtpAuthMigrationAccount) (secret : Bytes)
    → Exportable account secret
    → (msg : Bytes) × (encode_migration_account account ≡ ok msg)
unfolding encode_migration_account
encode_migration_account-Exportable account secret x =
    let (a, ea) = algorithm_written account.algorithm x.known_algorithm in
    let (d, ed) = digits_written account.digits x.known_digits in
    (
      account_message account secret a d,
      rw (nonzero x.nonempty) (rw x.decoded (rw ea (rw ed refl))),
    )
  where
    nonzero : {n : ℕ} → n ≢ 0 → (n == 0) ≡ false
    nonzero h = ground (arith, h)

-- An account with a known algorithm, 0, 6 or 8 digits, a plain name and a secret of a byte or more
-- is exported, and imported as it was: the issuer and the label, less
-- the spaces around it, the algorithm, the digits (6 for 0) and the secret in canonical Base32 are the same, the period is 30, and
-- the counter is kept for HOTP.
pub decode_migration_account-encode :
    (account : OtpAuthMigrationAccount) (c : ℕ) (secret : Bytes)
    → Exportable account (c ∷ secret)
    → (encode_migration_account account >>= decode_migration_account)
      ≡ ok (record (imported account (c ∷ secret)) { label = trim_space account.label })
decode_migration_account-encode account c secret x =
    let (msg, encoded) = encode_migration_account-Exportable account (c ∷ secret) x in
    rw encoded (
      decode_migration_account-encode_migration_account account (c ∷ secret) msg x.decoded encoded
        x.sized
      ∙ finish-imported account c secret x.plain)
