-- ===== src/Migration/Payload.antt =====
-- Payloads: any bytes are read to a payload or an error, and what is built is read back.
use genotp_go.Base.{
  ℕ, zero, suc, ◌+◌, ◌*◌, ◌/◌, ◌%◌, ◌^◌, ◌<◌, bit_and, false, leb, if◌then◌else◌, List, [], ◌∷◌,
  ◌++◌, length, Bytes, Option, none, some, ◌≡◌, refl, sym, ap, ◌∙◌, arith,
}
use mathlib.Core.List.{append_assoc, append-nil}
use genotp_go.Base.Int.{ℤ, pos, negsuc, ltb_ℤ}
use genotp_go.Errors.{Result, ok, ◌>>=◌}
use genotp_go.Wire.{
  or_invalid, read_fields, varint, append_proto_varint_field, append_proto_bytes_field,
  checked_uint64_to_int32,
}
use genotp_go.Wire.Fields.{IsWithin}
use genotp_go.Wire.Loop.{IsReader, IsDone, read_fields-IsDone, read_fields-nil}
use genotp_go.Wire.Message.{
  ReadsAs, ReadsAs-nil, ReadsAs-append_proto_varint_field, ReadsAs-append_proto_bytes_field,
}
use genotp_go.Migration.{
  OtpAuthMigrationAccount, OtpAuthMigrationOptions, OtpAuthMigrationPayload, bytes_field,
  skipped_field, encode_migration_account, decode_migration_account, append_accounts,
  append_nonzero, append_options, version_of, uint64_of_int32, build_payload, int32_field,
  payload_field, blank_payload, parse_payload,
}
use genotp_go.Migration.Account.{
  scalar_field-IsWithin, bytes_field-IsWithin, skipped_field-IsWithin,
  decode_migration_account-IsDone, IsDone-bind,
}
use genotp_go.Migration.Message.{bytes_field-varint, scalar_field-varint}

int32_field-IsWithin :
    {A : Type 0} (bytes : Bytes) (wire_type : ℕ) (use_value : ℕ → A)
    → IsWithin (length bytes + 1) (int32_field bytes wire_type use_value)
unfolding int32_field
int32_field-IsWithin bytes wire_type use_value = scalar_field-IsWithin bytes wire_type _ checked
  where
    checked :
        (value : ℕ)
        → IsDone (or_invalid (checked_uint64_to_int32 value) >>= (λ n. ok (use_value n)))
    checked value = unfold checked_uint64_to_int32 in ground arith

payload_field-IsReader : IsReader payload_field
unfolding payload_field
payload_field-IsReader payload number wire_type bytes =
    ground (arith, account, version, size, index, id, skipped)
  where
    Within : Result (OtpAuthMigrationPayload × Bytes) → Type 0
    Within r = IsWithin (length bytes + 1) r

    account : Within (
        bytes_field bytes (λ value.
          decode_migration_account value
          >>= (λ a. ok (record payload { accounts = payload.accounts ++ (a ∷ []) }))))
    account = bytes_field-IsWithin bytes _ (λ v.
        IsDone-bind (decode_migration_account v) _ (decode_migration_account-IsDone v) (λ a. tt))

    version : Within (int32_field bytes wire_type (λ n. record payload { version = n }))
    version = int32_field-IsWithin bytes wire_type _

    size : Within (int32_field bytes wire_type (λ n. record payload { batch_size = n }))
    size = int32_field-IsWithin bytes wire_type _

    index : Within (int32_field bytes wire_type (λ n. record payload { batch_index = n }))
    index = int32_field-IsWithin bytes wire_type _

    id : Within (int32_field bytes wire_type (λ n. record payload { batch_id = n }))
    id = int32_field-IsWithin bytes wire_type _

    skipped : Within (skipped_field bytes wire_type payload)
    skipped = skipped_field-IsWithin bytes wire_type payload

-- Reading the bytes of a payload always ends with a payload or an error: the loop runs out of bytes
-- before it runs out of fuel, also in the accounts inside, and no slice that `readProtoBytes` takes of
-- the data or `splitMigrationLabel` of a name is out of its range, which would be a panic.
pub parse_payload-IsDone : (bytes : Bytes) → IsDone (parse_payload bytes)
unfolding parse_payload
parse_payload-IsDone bytes =
    read_fields-IsDone payload_field blank_payload bytes payload_field-IsReader

-- `b` is what comes of `a` when it is exported and imported, in a message that an int can count.
pub record Imported (a b : OtpAuthMigrationAccount) : Type 0 where
  pub msg : Bytes
  pub encoded : encode_migration_account a ≡ ok msg
  pub decoded : decode_migration_account msg ≡ ok b
  pub fits : length msg < 2 ^ 63

pub data AllImported : List OtpAuthMigrationAccount → List OtpAuthMigrationAccount → Type 0 where
  done : AllImported [] []
  next :
      {a b : OtpAuthMigrationAccount} {xs ys : List OtpAuthMigrationAccount}
      → Imported a b
      → AllImported xs ys
      → AllImported (a ∷ xs) (b ∷ ys)

int32_field-varint :
    {A : Type 0} (n : ℕ) (body : Bytes) (use_value : ℕ → A)
    → n < 2 ^ 31
    → int32_field (varint 10 n ++ body) 0 use_value ≡ ok (use_value n, body)
unfolding int32_field
int32_field-varint n body use_value small =
    scalar_field-varint n body
      (λ value. or_invalid (checked_uint64_to_int32 value) >>= (λ v. ok (use_value v)))
      (use_value n) (omega arith) (ap (λ r. or_invalid r >>= (λ v. ok (use_value v))) checked)
  where
    checked : checked_uint64_to_int32 n ≡ ok n
    checked = unfold checked_uint64_to_int32 in ground (arith, small)

account_step :
    (p : OtpAuthMigrationPayload) (a b : OtpAuthMigrationAccount) (i : Imported a b)
    (written : Bytes)
    → ReadsAs payload_field blank_payload written p
    → ReadsAs payload_field blank_payload
        (append_proto_bytes_field written 1 i.msg)
        (record p { accounts = p.accounts ++ (b ∷ []) })
unfolding payload_field
account_step p a b i written before =
    ReadsAs-append_proto_bytes_field payload_field blank_payload p
      (record p { accounts = p.accounts ++ (b ∷ []) }) written 1 i.msg payload_field-IsReader
      (omega arith) before
      (λ body.
        bytes_field-varint i.msg body
          (λ value.
            decode_migration_account value
            >>= (λ x. ok (record p { accounts = p.accounts ++ (x ∷ []) })))
          (record p { accounts = p.accounts ++ (b ∷ []) }) i.fits
          (ap (◌>>= (λ x. ok (record p { accounts = p.accounts ++ (x ∷ []) }))) i.decoded))

-- The accounts, written behind what was written before.
accounts_read :
    {xs ys : List OtpAuthMigrationAccount} (read : List OtpAuthMigrationAccount) (written : Bytes)
    → AllImported xs ys
    → ReadsAs payload_field blank_payload written (record blank_payload { accounts = read })
    → (out : Bytes) × (append_accounts written xs ≡ ok out)
      × ReadsAs payload_field blank_payload out (record blank_payload { accounts = read ++ ys })
unfolding append_accounts
accounts_read read written done before = (
  written,
  refl,
  λ body.
      before body
      ∙ ap (λ r. read_fields payload_field (record blank_payload { accounts = r }) body)
          (sym (append-nil read)),
)
accounts_read read written (next {a = x} {b = y} {xs = xs} {ys = ys} i rest) before =
    let step = account_step (record blank_payload { accounts = read }) x y i written before in
    let (out, made, reads) =
      accounts_read (read ++ (y ∷ [])) (append_proto_bytes_field written 1 i.msg) rest step in
    (
      out,
      ap (◌>>= (λ m. append_accounts (append_proto_bytes_field written 1 m) xs)) i.encoded ∙ made,
      λ body.
          reads body
          ∙ ap (λ r. read_fields payload_field (record blank_payload { accounts = r }) body)
              (append_assoc read (y ∷ []) ys),
    )

-- The numbers of a payload that its reader takes: at least 0, and an int32.
abbrev pub IsInt32Natural : ℤ → Type 0
IsInt32Natural (pos n) = n < 2 ^ 31
IsInt32Natural (negsuc n) = ⊥

abbrev pub natural : ℤ → ℕ
natural (pos n) = n
natural (negsuc n) = 0

-- One of the numbers of the batch, in a field of its own.
module _ (number : ℕ) (with_number : OtpAuthMigrationPayload → ℕ → OtpAuthMigrationPayload)
    (is_field : (p : OtpAuthMigrationPayload) (body : Bytes)
      → payload_field p
          (number * 2 ^ 3 % 2 ^ 64 / 2 ^ 3)
          (bit_and (number * 2 ^ 3 % 2 ^ 64) 0x7)
          body
        ≡ int32_field body 0 (λ n. with_number p n)) where
  number_step :
      (p : OtpAuthMigrationPayload) (written : Bytes) (n : ℕ)
      → n < 2 ^ 31
      → ReadsAs payload_field blank_payload written p
      → ReadsAs payload_field blank_payload
          (append_proto_varint_field written number n)
          (with_number p n)
  number_step p written n small before =
      ReadsAs-append_proto_varint_field payload_field blank_payload p (with_number p n) written
        number n payload_field-IsReader before
        (λ body.
          is_field p (varint 10 n ++ body) ∙ int32_field-varint n body (λ v. with_number p v) small)

  nonzero_step :
      (p : OtpAuthMigrationPayload) (written : Bytes) (x : ℤ)
      → IsInt32Natural x
      → with_number p 0 ≡ p
      → ReadsAs payload_field blank_payload written p
      → ReadsAs payload_field blank_payload
          (append_nonzero written number x)
          (with_number p (natural x))
  unfolding append_nonzero
  nonzero_step p written (negsuc n) small same before = absurd small
  nonzero_step p written (pos zero) small same before =
      λ body. before body ∙ ap (λ q. read_fields payload_field q body) (sym same)
  nonzero_step p written (pos (suc n)) small same before =
      rw (positive n) (number_step p written (suc n) small before)
    where
      positive : (n : ℕ) → leb (suc n) 0 ≡ false
      positive n = ground arith

-- What options give a batch that can be read: unset, or no number of the batch negative.
abbrev pub IsBatch : Option OtpAuthMigrationOptions → Type 0
IsBatch none = Unit {0}
IsBatch (some o) =
    IsInt32Natural o.batch_size × IsInt32Natural o.batch_index × IsInt32Natural o.batch_id

-- A number of the options, 0 without them.
abbrev pub batch_number : (OtpAuthMigrationOptions → ℤ) → Option OtpAuthMigrationOptions → ℕ
batch_number number none = 0
batch_number number (some o) = natural (number o)

-- The payload that is read.
unfoldable pub payload_of :
    List OtpAuthMigrationAccount → Option OtpAuthMigrationOptions → OtpAuthMigrationPayload
payload_of accounts opts = record {
  accounts = accounts;
  version = natural (version_of opts);
  batch_size = batch_number (λ o. o.batch_size) opts;
  batch_index = batch_number (λ o. o.batch_index) opts;
  batch_id = batch_number (λ o. o.batch_id) opts;
}

version_natural :
    (opts : Option OtpAuthMigrationOptions)
    → uint64_of_int32 (version_of opts) ≡ natural (version_of opts)
unfolding version_of
version_natural none = refl
version_natural (some o) = go o.version
  where
    go :
        (v : ℤ)
        → uint64_of_int32 (if ltb_ℤ (pos 0) v then v else pos 1)
          ≡ natural (if ltb_ℤ (pos 0) v then v else pos 1)
    go (pos n) = ground arith
    go (negsuc n) = ground arith

version_step :
    (p : OtpAuthMigrationPayload) (written : Bytes) (opts : Option OtpAuthMigrationOptions)
    → natural (version_of opts) < 2 ^ 31
    → ReadsAs payload_field blank_payload written p
    → ReadsAs payload_field blank_payload
        (append_proto_varint_field written 2 (uint64_of_int32 (version_of opts)))
        (record p { version = natural (version_of opts) })
unfolding payload_field
version_step p written opts small before = rw (version_natural opts) (
    number_step 2 (λ q n. record q { version = n }) (λ q body. refl) p written
      (natural (version_of opts)) small before)

options_read :
    (accounts : List OtpAuthMigrationAccount) (opts : Option OtpAuthMigrationOptions)
    (written : Bytes)
    → natural (version_of opts) < 2 ^ 31
    → IsBatch opts
    → ReadsAs payload_field blank_payload written (record blank_payload { accounts = accounts })
    → ReadsAs payload_field blank_payload (append_options written opts) (payload_of accounts opts)
unfolding append_options payload_of payload_field
options_read accounts none written small batch before = version_step _ written none small before
options_read accounts (some o) written small batch before =
    let p1 = record blank_payload {
      accounts = accounts;
      version = natural (version_of (some o));
    } in
    let w1 = append_proto_varint_field written 2 (uint64_of_int32 (version_of (some o))) in
    let s1 : ReadsAs payload_field blank_payload w1 p1 =
      version_step _ written (some o) small before in
    let w2 = append_nonzero w1 3 o.batch_size in
    let p2 = record p1 { batch_size = natural o.batch_size } in
    let s2 : ReadsAs payload_field blank_payload w2 p2 =
      nonzero_step 3 (λ q n. record q { batch_size = n }) (λ q body. refl) p1 w1 o.batch_size
        batch.0 refl s1 in
    let w3 = append_nonzero w2 4 o.batch_index in
    let p3 = record p2 { batch_index = natural o.batch_index } in
    let s3 : ReadsAs payload_field blank_payload w3 p3 =
      nonzero_step 4 (λ q n. record q { batch_index = n }) (λ q body. refl) p2 w2 o.batch_index
        batch.1 refl s2 in
    nonzero_step 5 (λ q n. record q { batch_id = n }) (λ q body. refl) p3 w3 o.batch_id batch.2 refl
      s3

-- Accounts that can each be exported and imported are exported together and imported in their order,
-- each as it is imported alone, with the numbers of the batch, if none of these is negative; the
-- version is an int32, and 1 if it is not set or not positive.
pub parse_payload-build_payload :
    (accounts imported : List OtpAuthMigrationAccount) (opts : Option OtpAuthMigrationOptions)
    → AllImported accounts imported
    → natural (version_of opts) < 2 ^ 31
    → IsBatch opts
    → (build_payload accounts opts >>= parse_payload) ≡ ok (payload_of imported opts)
unfolding build_payload parse_payload
parse_payload-build_payload accounts imported opts each small batch =
    let (out, made, reads) = accounts_read [] [] each (ReadsAs-nil payload_field blank_payload) in
    let whole : Bytes = append_options out opts in
    ap
      (λ r.
        (r >>= (λ payload. ok (append_options payload opts)))
        >>= (λ x. read_fields payload_field blank_payload x))
      made
    ∙ ap (read_fields payload_field blank_payload) (sym (append-nil whole))
    ∙ options_read imported opts out small batch reads []
    ∙ read_fields-nil payload_field (payload_of imported opts)
