-- ===== src/Tests/Formats.antt =====
-- The migration format, percent-encoding and contexts at concrete inputs.
use genotp_go.Base.{
  ◌-◌, ◌^◌, ◌<◌, true, [], ◌∷◌, ◌++◌, length, Bytes, Option, some, codes, ◌≡◌, ◌≢◌, refl, ap, sym,
  ◌∙◌, inl, arith,
}
use mathlib.Core.Path.{subst}
use genotp_go.Base.Int.{pos}
use genotp_go.Errors.{ok, ◌>>=◌}
use genotp_go.Algorithm.{sha256}
use genotp_go.Base32.{decode_base32, kept, is_skipped, decode_loop, b32_inverse, b32_table}
use genotp_go.Text.{runes, runes_after, decode_rune, announced, encode_rune, has_prefix, trim_space}
use genotp_go.Provisioning.{
  hotp_type, normalize_base32_secret, normalize_runes, is_whitespace, percent_encode,
}
use genotp_go.Provisioning.Percent.{percent_decode, percent_decode-percent_encode}
use genotp_go.Wire.{
  varint, append_proto_bytes_field, append_proto_varint_field, append_proto_varint,
  read_proto_varint,
}
use genotp_go.Wire.Varint.{read_proto_varint-varint}
use genotp_go.Wire.Loop.{IsDone}
use genotp_go.Migration.{
  OtpAuthMigrationAccount, OtpAuthMigrationOptions, account_name, account_message,
  migration_algorithm_from_algorithm, migration_digit_enum, decoded_secret,
  encode_migration_account, decode_migration_account, build_payload, parse_payload, version_of,
}
use genotp_go.Migration.Written.{imported}
use genotp_go.Migration.Names.{issued, Exportable, decode_migration_account-encode}
use genotp_go.Migration.Payload.{
  Imported, done, next, payload_of, natural, parse_payload-build_payload, parse_payload-IsDone,
}
use genotp_go.Migration.Uri.{
  UriPackages, migration_scheme, uri_front, build_otp_auth_migration_uri,
  parse_otp_auth_migration_uri, Documented, parse_otp_auth_migration_uri-build,
}
use genotp_go.Text.Trim.{are_graphic, All-are_graphic}
use genotp_go.Migration.Names.{has_prefix-append}
use genotp_go.Migration.Written.{ok_inj}
use genotp_go.Migration.{append_accounts, append_options, append_nonzero}
use genotp_go.Provisioning.{should_not_encode}
use genotp_go.Base.{none, drop, drop-length-append, if◌then◌else◌}
use genotp_go.Tests.Data.{are_bytes, checked}

-- 2^64 - 1 in front of one byte.
read_proto_varint-varint_example :
    read_proto_varint (varint 10 (2 ^ 64 - 1) ++ (7 ∷ [])) ≡ ok (2 ^ 64 - 1, 7 ∷ [])
read_proto_varint-varint_example = read_proto_varint-varint (2 ^ 64 - 1) (7 ∷ []) (omega arith)

percent_decode-percent_encode_example :
    percent_decode (percent_encode (codes "a b/c")) ≡ codes "a b/c"
percent_decode-percent_encode_example =
    percent_decode-percent_encode (codes "a b/c") (checked (codes "a b/c") refl)

-- A field with an unknown number and a wire type that is not read.
parse_payload-IsDone_example : IsDone (parse_payload (10 ∷ 3 ∷ 8 ∷ 1 ∷ 16 ∷ 125 ∷ []))
parse_payload-IsDone_example = parse_payload-IsDone (10 ∷ 3 ∷ 8 ∷ 1 ∷ 16 ∷ 125 ∷ [])

abbrev account : OtpAuthMigrationAccount
account = record {
  typ = hotp_type;
  label = codes "bob ";
  issuer = codes "Site";
  secret_b32 = codes "mfrg g=";
  algorithm = sha256;
  digits = 0;
  period = 30;
  counter = 5;
}

normal_secret : normalize_base32_secret (codes "mfrg g=") ≡ codes "mfrgg"
unfolding normalize_base32_secret normalize_runes runes runes_after decode_rune announced
    encode_rune is_whitespace
normal_secret = refl

five_letters : decoded_secret (codes "mfrgg") ≡ ok (codes "abc")
unfolding decoded_secret decode_base32 kept is_skipped decode_loop b32_inverse b32_table
five_letters = refl

account_name_lem : account_name account.issuer account.label ≡ codes "Site:bob "
unfolding account_name has_prefix
account_name_lem = refl

account-Exportable : Exportable account (codes "abc")
unfolding has_prefix
account-Exportable = record {
  nonempty = λ e. ground (arith, e, ap length normal_secret);
  decoded = ap decoded_secret normal_secret ∙ five_letters;
  known_algorithm = λ x e. ground (arith, e);
  known_digits = inl refl;
  sized = record {
    secret_fits = omega arith;
    name_fits = subst (λ (x : Bytes). length x < 2 ^ 63) (sym account_name_lem) (omega arith);
    issuer_fits = omega arith;
    counter_fits = omega arith;
  };
  plain = issued (λ e. ground (arith, ap length e)) refl;
}

decode_migration_account-encode_example :
    (encode_migration_account account >>= decode_migration_account)
    ≡ ok (record (imported account (codes "abc")) { label = trim_space (codes "bob ") })
decode_migration_account-encode_example =
    decode_migration_account-encode account b'a' (codes "bc") account-Exportable

abbrev message : Bytes
message = account_message account (codes "abc") 2 1

encoded_lem : encode_migration_account account ≡ ok message
unfolding encode_migration_account migration_algorithm_from_algorithm migration_digit_enum
encoded_lem = rw normal_secret (rw five_letters refl)

length-message : length message ≡ 30
unfolding account_message account_name has_prefix append_proto_bytes_field append_proto_varint_field
    append_proto_varint varint
length-message = refl

account-Imported :
    Imported account (record (imported account (codes "abc")) { label = trim_space (codes "bob ") })
account-Imported = record {
  msg = message;
  encoded = encoded_lem;
  decoded =
      ap (◌>>= decode_migration_account) (sym encoded_lem)
      ∙ decode_migration_account-encode account b'a' (codes "bc") account-Exportable;
  fits = omega (arith, length-message);
}

abbrev options : Option OtpAuthMigrationOptions
options =
    some (record { version = pos 2; batch_size = pos 1; batch_index = pos 0; batch_id = pos 77 })

version_small : natural (version_of options) < 2 ^ 31
unfolding version_of
version_small = omega arith

parse_payload-build_payload_example :
    (build_payload (account ∷ []) options >>= parse_payload)
    ≡ ok (
        payload_of
          (record (imported account (codes "abc")) { label = trim_space (codes "bob ") } ∷ [])
          options)
parse_payload-build_payload_example =
    parse_payload-build_payload (account ∷ [])
      (record (imported account (codes "abc")) { label = trim_space (codes "bob ") } ∷ []) options
      (next account-Imported done) version_small (omega arith, omega arith, omega arith)

-- In place of Base64, percent-encoding; a URI is parsed by its front.
abbrev toy_parse : Bytes → Option (Bytes × Bytes)
toy_parse s =
    if has_prefix s uri_front then some (migration_scheme, drop (length uri_front) s) else none

abbrev toy : UriPackages
toy = record {
  parse = toy_parse;
  encode_raw_url = percent_encode;
  decode_raw_url = λ s. some (percent_decode s);
  decode_std = λ s. none;
}

abbrev whole : Bytes
whole = append_options (append_proto_bytes_field [] 1 message) options

built : build_payload (account ∷ []) options ≡ ok whole
unfolding build_payload append_accounts
built =
    ap
      (λ r.
        (r >>= (λ m. ok (append_proto_bytes_field [] 1 m)))
        >>= (λ out. ok (append_options out options)))
      encoded_lem

whole_bytes : are_bytes whole ≡ true
unfolding append_options append_nonzero version_of account_message account_name has_prefix
    append_proto_bytes_field append_proto_varint_field append_proto_varint varint
whole_bytes = refl

whole_graphic : are_graphic (percent_encode whole) ≡ true
unfolding append_options append_nonzero version_of account_message account_name has_prefix
    append_proto_bytes_field append_proto_varint_field append_proto_varint varint percent_encode
    should_not_encode
whole_graphic = refl

toy_parses : (s : Bytes) → toy_parse (uri_front ++ s) ≡ some (migration_scheme, s)
toy_parses s =
    rw (has_prefix-append uri_front s)
      (ap (λ x. some (migration_scheme, x)) (drop-length-append uri_front s))

encoded_nonempty : (p : Bytes) → p ≢ [] → length (percent_encode p) ≢ 0
unfolding percent_encode
encoded_nonempty [] h = absurd (h refl)
encoded_nonempty (b ∷ p) h = ground arith

toy-Documented :
    (payload : Bytes) → build_payload (account ∷ []) options ≡ ok payload → Documented toy payload
toy-Documented payload e = subst (Documented toy) (ok_inj (sym built ∙ e)) (record {
  decodes = ap some (percent_decode-percent_encode whole (checked whole whole_bytes));
  graphic = All-are_graphic (percent_encode whole) whole_graphic;
  nonempty = encoded_nonempty whole;
  parses = toy_parses (percent_encode whole);
})

parse_otp_auth_migration_uri-build_example :
    (build_otp_auth_migration_uri toy (account ∷ []) options >>= parse_otp_auth_migration_uri toy)
    ≡ ok (
        payload_of
          (record (imported account (codes "abc")) { label = trim_space (codes "bob ") } ∷ [])
          options)
parse_otp_auth_migration_uri-build_example =
    parse_otp_auth_migration_uri-build toy (account ∷ [])
      (record (imported account (codes "abc")) { label = trim_space (codes "bob ") } ∷ []) options
      (next account-Imported done) version_small (omega arith, omega arith, omega arith)
      toy-Documented
