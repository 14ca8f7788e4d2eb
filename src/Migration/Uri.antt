-- ===== src/Migration/Uri.antt =====
-- migration.go: the URI around a payload. The packages net/url and encoding/base64 are parameters.
use genotp_go.Base.{
  ℕ, ◌*◌, ◌%◌, ◌^◌, ◌≤◌, ◌<◌, length-append, false, not, ◌==◌, if◌then◌else◌, List, [], ◌++◌,
  length, All, All-append, Bytes, Option, none, some, codes, ◌≡◌, ◌≢◌, refl, ap, ◌∙◌, arith,
}
use genotp_go.Base.Keys.{equal, equal_self}
use genotp_go.Errors.{Result, ok, err, ◌>>=◌, invalid_migration, invalid_uri}
use genotp_go.Text.{trim_space}
use genotp_go.Text.Trim.{IsGraphic, trim_graphic, All-are_graphic}
use genotp_go.Migration.{
  OtpAuthMigrationAccount, OtpAuthMigrationOptions, OtpAuthMigrationPayload, build_payload,
  parse_payload, version_of, append_accounts, append_options, append_nonzero, uint64_of_int32,
}
use genotp_go.Wire.{varint, append_proto_varint, append_proto_varint_field}
use genotp_go.Wire.Varint.{varint_pos}
use genotp_go.Base.Int.{ℤ}
use genotp_go.Migration.Written.{bind-ok, ok_inj}
use genotp_go.Migration.Payload.{
  AllImported, IsBatch, natural, payload_of, parse_payload-build_payload,
}

-- `parse` is url.Parse, with the scheme and the value of `Query().Get("data")`; `encode_raw_url` and
-- `decode_raw_url` are those of base64.RawURLEncoding, `decode_std` that of base64.StdEncoding.
pub record UriPackages : Type 0 where
  pub parse : Bytes → Option (Bytes × Bytes)
  pub encode_raw_url : Bytes → Bytes
  pub decode_raw_url : Bytes → Option Bytes
  pub decode_std : Bytes → Option Bytes

abbrev pub migration_scheme : Bytes
migration_scheme = codes "otpauth-migration"

abbrev pub uri_front : Bytes
uri_front = codes "otpauth-migration://offline?data="

module _ (packages : UriPackages) where
  -- `u.String()` of the url.URL with this scheme, host and query.
  unfoldable pub migration_uri : Bytes → Bytes
  migration_uri payload = uri_front ++ packages.encode_raw_url payload

  unfoldable pub build_otp_auth_migration_uri :
      List OtpAuthMigrationAccount → Option OtpAuthMigrationOptions → Result Bytes
  build_otp_auth_migration_uri accounts opts =
      build_payload accounts opts >>= (λ payload. ok (migration_uri payload))

  -- The bytes of `data`, in the URL alphabet or else in the standard one.
  unfoldable pub decoded_data : Bytes → Result Bytes
  decoded_data value = elim (packages.decode_raw_url value) [
    | some bytes ↦ ok bytes
    | none ↦ elim (packages.decode_std value) [
      | some bytes ↦ ok bytes
      | none ↦ err invalid_migration
    ]
  ]

  unfoldable pub parse_parts : Bytes → Bytes → Result OtpAuthMigrationPayload
  parse_parts scheme value =
      if not (equal scheme migration_scheme)
      then err invalid_uri
      else if length value == 0
      then err invalid_migration
      else decoded_data value >>= parse_payload

  unfoldable pub parse_otp_auth_migration_uri : Bytes → Result OtpAuthMigrationPayload
  parse_otp_auth_migration_uri raw = elim (packages.parse (trim_space raw)) [
    | none ↦ err invalid_migration
    | some (scheme, value) ↦ parse_parts scheme value
  ]

  -- What the packages document, for one payload: Base64 without padding is decoded again, consists of
  -- graphic ASCII characters and is not empty for a payload with bytes; and the URI has this scheme and this value of `data`.
  pub record Documented (payload : Bytes) : Type 0 where
    pub decodes : packages.decode_raw_url (packages.encode_raw_url payload) ≡ some payload
    pub graphic : All IsGraphic (packages.encode_raw_url payload)
    pub nonempty : payload ≢ [] → length (packages.encode_raw_url payload) ≢ 0
    pub parses :
        packages.parse (uri_front ++ packages.encode_raw_url payload)
        ≡ some (migration_scheme, packages.encode_raw_url payload)

append_proto_varint_field-lt :
    (dst : Bytes) (field value : ℕ)
    → length dst < length (append_proto_varint_field dst field value)
unfolding append_proto_varint_field append_proto_varint
append_proto_varint_field-lt dst field value =
    let tag : Bytes = varint 10 (field * 2 ^ 3 % 2 ^ 64) in
    omega
      (arith, length-append (dst ++ tag) (varint 10 value), length-append dst tag, varint_pos value)

append_nonzero-le :
    (dst : Bytes) (field : ℕ) (x : ℤ) → length dst ≤ length (append_nonzero dst field x)
unfolding append_nonzero
append_nonzero-le dst field x =
    ground (arith, append_proto_varint_field-lt dst field (uint64_of_int32 x))

append_options-pos :
    (dst : Bytes) (opts : Option OtpAuthMigrationOptions) → 0 < length (append_options dst opts)
unfolding append_options
append_options-pos dst none =
    omega (arith, append_proto_varint_field-lt dst 2 (uint64_of_int32 (version_of none)))
append_options-pos dst (some o) =
    let w1 : Bytes = append_proto_varint_field dst 2 (uint64_of_int32 (version_of (some o))) in
    let w2 : Bytes = append_nonzero w1 3 o.batch_size in
    let w3 : Bytes = append_nonzero w2 4 o.batch_index in
    omega (
      arith,
      append_proto_varint_field-lt dst 2 (uint64_of_int32 (version_of (some o))),
      append_nonzero-le w1 3 o.batch_size,
      append_nonzero-le w2 4 o.batch_index,
      append_nonzero-le w3 5 o.batch_id,
    )

build_payload-nonempty :
    (accounts : List OtpAuthMigrationAccount) (opts : Option OtpAuthMigrationOptions)
    (payload : Bytes)
    → build_payload accounts opts ≡ ok payload
    → payload ≢ []
unfolding build_payload
build_payload-nonempty accounts opts payload made empty =
    bind-ok (append_accounts [] accounts) (λ out. ok (append_options out opts)) payload ⊥ made
      (λ out e e'. omega (arith, append_options-pos out opts, ap length (ok_inj e' ∙ empty)))

module _ (packages : UriPackages) where
  -- A URI that was built for a payload is parsed like the payload.
  parse-migration_uri :
      (payload : Bytes)
      → payload ≢ []
      → Documented packages payload
      → parse_otp_auth_migration_uri packages (migration_uri packages payload)
        ≡ parse_payload payload
  unfolding parse_otp_auth_migration_uri migration_uri
  parse-migration_uri payload nonempty d =
      ap (λ s. parts (packages.parse s))
        (trim_graphic (uri_front ++ packages.encode_raw_url payload)
          (All-append IsGraphic uri_front (packages.encode_raw_url payload) front d.graphic))
      ∙ ap parts d.parses
      ∙ parts_read
    where
      positive : {n : ℕ} → n ≢ 0 → (n == 0) ≡ false
      positive h = ground (arith, h)

      decoded : decoded_data packages (packages.encode_raw_url payload) ≡ ok payload
      decoded =
          unfold decoded_data in
          ap
            (λ o. elim o [
              | some bytes ↦ ok bytes
              | none ↦ elim (packages.decode_std (packages.encode_raw_url payload)) [
                | some bytes ↦ ok bytes
                | none ↦ err invalid_migration
              ]
            ])
            d.decodes

      parts : Option (Bytes × Bytes) → Result OtpAuthMigrationPayload
      parts none = err invalid_migration
      parts (some (scheme, value)) = parse_parts packages scheme value

      front : All IsGraphic uri_front
      front = All-are_graphic uri_front refl

      parts_read :
          parse_parts packages migration_scheme (packages.encode_raw_url payload)
          ≡ parse_payload payload
      parts_read =
          unfold parse_parts in
          rw (equal_self migration_scheme)
            (rw (positive (d.nonempty nonempty)) (ap (◌>>= parse_payload) decoded))

  -- Where net/url and encoding/base64 do for the payload at hand what they document, accounts that can
  -- each be exported and imported, with a version that is an int32 and no negative number of the
  -- batch, are parsed from the URI that was built for them: in their order, each as it is imported alone, with
  -- the numbers of the batch.
  pub parse_otp_auth_migration_uri-build :
      (accounts imported : List OtpAuthMigrationAccount) (opts : Option OtpAuthMigrationOptions)
      → AllImported accounts imported
      → natural (version_of opts) < 2 ^ 31
      → IsBatch opts
      → ((payload : Bytes) → build_payload accounts opts ≡ ok payload → Documented packages payload)
      → (build_otp_auth_migration_uri packages accounts opts
          >>= parse_otp_auth_migration_uri packages)
        ≡ ok (payload_of imported opts)
  unfolding build_otp_auth_migration_uri
  parse_otp_auth_migration_uri-build accounts imported opts each small batch documented =
      bind-ok (build_payload accounts opts) parse_payload (payload_of imported opts) _
        (parse_payload-build_payload accounts imported opts each small batch)
        (λ payload made parsed.
          ap
            (λ r.
              (r >>= (λ x. ok (migration_uri packages x)))
              >>= parse_otp_auth_migration_uri packages)
            made
          ∙ parse-migration_uri payload (build_payload-nonempty accounts opts payload made)
              (documented payload made)
          ∙ parsed)
