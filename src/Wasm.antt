-- ===== src/Wasm.antt =====
-- wasm/main.go: what the exported functions do with a request that encoding/json has decoded, and the
-- reply that it will encode. `base64` is the decoder of base64.StdEncoding.
pub mod Replies
use genotp_go.Base.{
  ℕ, ◌+◌, ◌*◌, ◌/◌, ◌%◌, ◌^◌, Bool, true, false, not, ◌||◌, ◌&&◌, ◌==◌, if◌then◌else◌, Bytes, [],
  length, Option, none, some, codes,
}
use genotp_go.Base.Int.{ℤ}
use genotp_go.Base.Keys.{equal}
use genotp_go.Errors.{Error, Result, ok, err, panic}
use genotp_go.Algorithm.{Algorithm, sha1, sha256, sha512, Hmac}
use genotp_go.ConstantTime.{wasm_const_time_eq_bytes}
use genotp_go.Base32.{encode_base32}
use genotp_go.Context.{
  OtpContext, otp_context_from_bytes, OtpContextBuilder, new_otp_context_builder, ip, device,
  session, origin, region, geo_bucket, distance_class, build,
}
use genotp_go.Key.{Random, create_secret}
use genotp_go.Totp.{Totp, new_totp, generate, gen_bound, verify, verify_bound}

-- What `resultBuf` is made of: a message of the handler, the message of an error, or a value.
pub data Reply (A : Type 0) : Type 0 where
  message : Bytes → Reply A
  failed : Error → Reply A
  replied : A → Reply A
  crashed : Reply A

abbrev pub reply_of : {A B : Type 0} → (A → Reply B) → Result A → Reply B
reply_of f (ok a) = f a
reply_of f (err e) = failed e
reply_of f panic = crashed

unfoldable pub parse_algo : Bytes → Algorithm
parse_algo s =
    if equal s (codes "SHA256") then sha256 else if equal s (codes "SHA512") then sha512 else sha1

pub record GenerateIn : Type 0 where
  pub secret : Bytes
  pub context : Bytes
  pub algorithm : Bytes
  pub digits : ℕ
  pub period : ℕ
  pub time_unix : Option ℕ

pub record GenerateOut : Type 0 where
  pub code : Bytes
  pub expires_at : ℕ

pub record VerifyIn : Type 0 where
  pub code : Bytes
  pub secret : Bytes
  pub issued_context : Bytes
  pub request_context : Bytes
  pub algorithm : Bytes
  pub digits : ℕ
  pub period : ℕ
  pub window : ℕ
  pub time_unix : Option ℕ

pub record BuildContextIn : Type 0 where
  pub ip : Bytes
  pub device : Bytes
  pub session : Bytes
  pub origin : Bytes
  pub region : Bytes
  pub geo_bucket : Bytes
  pub distance_class : Bytes

-- `time` is the given time or the clock's as a uint64; the period is not 0 here.
unfoldable pub expires_at : ℕ → ℕ → ℕ
expires_at time period = (time / period + 1) * period % 2 ^ 64

-- The time of a request, or that of the clock.
abbrev pub time_or : Option ℕ → ℕ → ℕ
time_or (some t) now = t
time_or none now = now

-- Where a context was given, the error of GenBound goes to a variable of the inner scope, which the
-- check behind it does not read: the code is empty then.
abbrev bound_code : Result Bytes → Result Bytes
bound_code (ok code) = ok code
bound_code (err e) = ok []
bound_code panic = panic

module _ (h : Hmac) {W : Type 0} (base64 : Bytes → Option Bytes) where
  abbrev generated : GenerateIn → ℕ → Result Bytes × W → Reply GenerateOut × W
  generated req later (r, w) = (
    reply_of
        (λ code. replied (record {
          code = code;
          expires_at = expires_at (time_or req.time_unix later) req.period;
        }))
        r,
    w,
  )

  abbrev with_bound_code : Result Bytes × W → Result Bytes × W
  with_bound_code (r, w) = (bound_code r, w)

  -- The clock is read by the generator, as `now`, and once more for the expiry, as `later`.
  unfoldable pub generate_with : Totp W → GenerateIn → ℤ → ℕ → W → Reply GenerateOut × W
  generate_with totp req now later w =
      if length req.context == 0
      then generated req later (generate h totp now req.time_unix w)
      else elim (base64 req.context) [
        | none ↦ (message (codes "invalid context encoding"), w)
        | some ctx ↦ generated req later (
            with_bound_code
              (gen_bound h totp now (some (otp_context_from_bytes ctx)) req.time_unix w))
      ]

  unfoldable pub wasm_generate : GenerateIn → ℤ → ℕ → W → Reply GenerateOut × W
  wasm_generate req now later w = elim (base64 req.secret) [
    | none ↦ (message (codes "invalid secret encoding"), w)
    | some secret ↦ elim (new_totp secret (parse_algo req.algorithm) req.digits req.period) [
      | ok totp ↦ generate_with totp req now later w
      | err e ↦ (failed e, w)
      | panic ↦ (crashed, w)
    ]
  ]

  -- `valid`, and that the contexts are equal where they were given.
  abbrev answered : (Bool → Bool) → Result Bool × W → Reply Bool × W
  answered f (r, w) = (reply_of (λ valid. replied (f valid)) r, w)

  unfoldable pub verify_with : Totp W → VerifyIn → ℤ → W → Reply Bool × W
  verify_with totp req now w =
      if not (length req.issued_context == 0) || not (length req.request_context == 0)
      then elim (base64 req.issued_context) [
        | none ↦ (message (codes "invalid issued_context encoding"), w)
        | some issued ↦ elim (base64 req.request_context) [
          | none ↦ (message (codes "invalid request_context encoding"), w)
          | some request ↦
              answered (λ valid. valid && wasm_const_time_eq_bytes issued request)
                (verify_bound h totp now req.code (some (otp_context_from_bytes issued))
                  req.time_unix req.window w)
        ]
      ]
      else answered (λ valid. valid) (verify h totp now req.code req.time_unix req.window w)

  unfoldable pub wasm_verify : VerifyIn → ℤ → W → Reply Bool × W
  wasm_verify req now w = elim (base64 req.secret) [
    | none ↦ (message (codes "invalid secret encoding"), w)
    | some secret ↦ elim (new_totp secret (parse_algo req.algorithm) req.digits req.period) [
      | ok totp ↦ verify_with totp req now w
      | err e ↦ (failed e, w)
      | panic ↦ (crashed, w)
    ]
  ]

-- The secret, which the handler writes in Base64 and in Base32.
unfoldable pub wasm_new_secret : {W : Type 0} → Random W → W → Reply (Bytes × Bytes) × W
wasm_new_secret random w =
    let (r, w') = create_secret random w in
    (reply_of (λ secret. replied (secret, encode_base32 secret)) r, w')

abbrev when_given :
    Bytes → (OtpContextBuilder → OtpContextBuilder) → OtpContextBuilder → OtpContextBuilder
when_given value f b = if length value == 0 then b else f b

unfoldable pub wasm_build_context : (ℕ → ℕ) → BuildContextIn → OtpContext
wasm_build_context lower req =
    let b1 = when_given req.ip (λ b. ip b req.ip) new_otp_context_builder in
    let b2 = when_given req.device (λ b. device b req.device) b1 in
    let b3 = when_given req.session (λ b. session b req.session) b2 in
    let b4 = when_given req.origin (λ b. origin lower b req.origin) b3 in
    let b5 = when_given req.region (λ b. region lower b req.region) b4 in
    let b6 = when_given req.geo_bucket (λ b. geo_bucket lower b req.geo_bucket) b5 in
    build (when_given req.distance_class (λ b. distance_class lower b req.distance_class) b6)
