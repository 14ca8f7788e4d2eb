-- ===== src/Hotp/Providers.antt =====
-- HOTP whose secret stays outside, and the errors of a provider.
use genotp_go.Base.{
  ℕ, ◌%◌, ◌^◌, ◌≤◌, ◌<◌, ◌==◌, ltb, if◌then◌else◌, false, Bytes, [], ◌∷◌, length, All, IsByte,
  Option, some, ◌≡◌, ◌≢◌, refl, ap, ◌∙◌, arith,
}
use genotp_go.Errors.{
  Error, Result, ok, err, panic, join, invalid_secret, secret_provider, hmac_provider,
}
use genotp_go.Algorithm.{Algorithm, HashFn, Hmac, hash_func_for, expected_hmac_size, digest_size}
use genotp_go.Context.{OtpContext, context_bytes}
use genotp_go.Secret.{
  Action, SecretProvider, HmacProvider, SecretRuntime, new_provider_secret_runtime,
  new_hmac_provider_runtime, has_static_secret, with_provided, with_mac, compute_hmac,
}
use genotp_go.Otp.Message.{rfc_message, message_of-rfc_message}
use genotp_go.Otp.Decimal.{decimal}
use genotp_go.Otp.Rfc.{rfc_code, truncate_bytes, digest_at_least, format_code}
use native.Mathlib.Decide.{ℕ_discrete}
use genotp_go.Otp.Truncate.{extracted}
use genotp_go.Hotp.{Hotp, compute_truncated, gen_digits, gen_bound}
use genotp_go.Hotp.Static.{IsValid}

expected-digest_size :
    (a : Algorithm) (f : HashFn) → hash_func_for a ≡ some f → expected_hmac_size a ≡ digest_size f
unfolding hash_func_for expected_hmac_size
expected-digest_size a f h = ground arith

module _ (h : Hmac) {W : Type 0} where
  -- `computeHMAC` on a runtime that holds nothing but a secret provider.
  module _ (p : SecretProvider W) (a : Algorithm) (f : HashFn) (message : Bytes) (w w1 : W) where
    compute_hmac_provided :
        (secret : Bytes)
        → p.secret w ≡ (ok secret, w1)
        → 0 < length secret
        → compute_hmac h (new_provider_secret_runtime p) a f message w
          ≡ (ok (h.mac f secret message), p.wiped w1)
    unfolding compute_hmac with_mac with_provided new_provider_secret_runtime
    compute_hmac_provided secret e held = ground arith

    compute_hmac_refused :
        (e : Error)
        → p.secret w ≡ (err e, w1)
        → compute_hmac h (new_provider_secret_runtime p) a f message w
          ≡ (err (join secret_provider e), w1)
    unfolding compute_hmac with_mac with_provided new_provider_secret_runtime
    compute_hmac_refused e q = ground arith

    compute_hmac_empty :
        p.secret w ≡ (ok [], w1)
        → compute_hmac h (new_provider_secret_runtime p) a f message w ≡ (err invalid_secret, w1)
    unfolding compute_hmac with_mac with_provided new_provider_secret_runtime
    compute_hmac_empty q = ground arith

    compute_hmac_panics :
        p.secret w ≡ (panic, w1)
        → compute_hmac h (new_provider_secret_runtime p) a f message w ≡ (panic, w1)
    unfolding compute_hmac with_mac with_provided new_provider_secret_runtime
    compute_hmac_panics q = ground arith

  -- `computeHMAC` on a runtime that holds nothing but an HMAC provider.
  module _ (p : HmacProvider W) (a : Algorithm) (f : HashFn) (message : Bytes) (w w1 : W) where
    compute_hmac_signed :
        (sum : Bytes)
        → p.hmac a message w ≡ (ok sum, w1)
        → length sum ≡ expected_hmac_size a
        → compute_hmac h (new_hmac_provider_runtime p) a f message w ≡ (ok sum, w1)
    unfolding compute_hmac new_hmac_provider_runtime
    compute_hmac_signed sum e size = ground arith

    compute_hmac_wrong_size :
        (sum : Bytes)
        → p.hmac a message w ≡ (ok sum, w1)
        → length sum ≢ expected_hmac_size a
        → compute_hmac h (new_hmac_provider_runtime p) a f message w ≡ (err hmac_provider, w1)
    unfolding compute_hmac new_hmac_provider_runtime
    compute_hmac_wrong_size sum e size = ground arith

    compute_hmac_unsigned :
        (e : Error)
        → p.hmac a message w ≡ (err e, w1)
        → compute_hmac h (new_hmac_provider_runtime p) a f message w
          ≡ (err (join hmac_provider e), w1)
    unfolding compute_hmac new_hmac_provider_runtime
    compute_hmac_unsigned e q = ground arith

    compute_hmac_crashes :
        p.hmac a message w ≡ (panic, w1)
        → compute_hmac h (new_hmac_provider_runtime p) a f message w ≡ (panic, w1)
    unfolding compute_hmac new_hmac_provider_runtime
    compute_hmac_crashes q = ground arith

  module _ (t : Hotp W) (counter : ℕ) (context : Option OtpContext) (w : W) where
    -- The HMAC that the runtime computes for the message.
    abbrev hmac_for : Bytes → Action W Bytes
    hmac_for message = compute_hmac h t.runtime t.algorithm t.hash_fn message

    abbrev bound_message : Bytes
    bound_message = rfc_message counter (context_bytes context)

    gen_bound_digest :
        (digest : Bytes) (w1 : W)
        → IsValid t
        → t.cleared ≡ false
        → has_static_secret t.runtime ≡ false
        → hmac_for bound_message w ≡ (ok digest, w1)
        → All IsByte digest
        → 20 ≤ length digest
        → gen_bound h t counter context w
          ≡ (ok (decimal t.digits (extracted digest % 10 ^ t.digits)), w1)
    unfolding gen_bound gen_digits compute_truncated
    gen_bound_digest digest w1 v live not_static signed bytes size = ground (
      arith,
      message_of-rfc_message counter (context_bytes context),
      truncate_bytes digest t.digits t.mod_value v.modulus bytes size,
      format_code t.digits (extracted digest % 10 ^ t.digits) v.at_most,
    )

    gen_bound_error :
        (e : Error) (w1 : W)
        → t.cleared ≡ false
        → has_static_secret t.runtime ≡ false
        → hmac_for bound_message w ≡ (err e, w1)
        → gen_bound h t counter context w ≡ (err e, w1)
    unfolding gen_bound gen_digits compute_truncated
    gen_bound_error e w1 live not_static failed =
        ground (arith, message_of-rfc_message counter (context_bytes context))

    gen_bound_panic :
        (w1 : W)
        → t.cleared ≡ false
        → has_static_secret t.runtime ≡ false
        → hmac_for bound_message w ≡ (panic, w1)
        → gen_bound h t counter context w ≡ (panic, w1)
    unfolding gen_bound gen_digits compute_truncated
    gen_bound_panic w1 live not_static failed =
        ground (arith, message_of-rfc_message counter (context_bytes context))

    on_runtime :
        (r : SecretRuntime W) (answer : Result Bytes × W)
        → t.runtime ≡ r
        → compute_hmac h r t.algorithm t.hash_fn bound_message w ≡ answer
        → hmac_for bound_message w ≡ answer
    on_runtime r answer only e =
        ap (λ (x : SecretRuntime W). compute_hmac h x t.algorithm t.hash_fn bound_message w) only
        ∙ e

    not_static_provider :
        (p : SecretProvider W)
        → t.runtime ≡ new_provider_secret_runtime p
        → has_static_secret t.runtime ≡ false
    not_static_provider p only =
        ap has_static_secret only ∙ (unfold has_static_secret new_provider_secret_runtime in refl)

    not_static_hmac :
        (p : HmacProvider W)
        → t.runtime ≡ new_hmac_provider_runtime p
        → has_static_secret t.runtime ≡ false
    not_static_hmac p only =
        ap has_static_secret only ∙ (unfold has_static_secret new_hmac_provider_runtime in refl)

    -- The outcome for each answer of a secret provider.
    abbrev pub provided_code : SecretProvider W → Result Bytes × W → Result Bytes × W
    provided_code p (ok secret, w1) =
        if ltb 0 (length secret)
        then (ok (rfc_code h t.hash_fn secret t.digits bound_message), p.wiped w1)
        else (err invalid_secret, w1)
    provided_code p (err e, w1) = (err (join secret_provider e), w1)
    provided_code p (panic, w1) = (panic, w1)

    -- For a valid generator that was not cleared and whose secret a provider holds, `GenBound`
    -- fetches the secret, returns the RFC 4226 code for it and wipes the slice that it was given;
    -- an empty secret is ErrInvalidSecret, and an error of the provider is joined to
    -- ErrSecretProvider.
    pub gen_bound_provided :
        (p : SecretProvider W)
        → IsValid t
        → t.cleared ≡ false
        → t.runtime ≡ new_provider_secret_runtime p
        → gen_bound h t counter context w ≡ provided_code p (p.secret w)
    gen_bound_provided p v live only = go (p.secret w) refl
      where
        not_static : has_static_secret t.runtime ≡ false
        not_static = not_static_provider p only

        go :
            (x : Result Bytes × W)
            → p.secret w ≡ x
            → gen_bound h t counter context w ≡ provided_code p x
        go (ok [], w1) e = gen_bound_error invalid_secret w1 live not_static (
            on_runtime (new_provider_secret_runtime p) _ only
              (compute_hmac_empty p t.algorithm t.hash_fn bound_message w w1 e))
        go (ok (b ∷ bs), w1) e =
            gen_bound_digest (h.mac t.hash_fn (b ∷ bs) bound_message) (p.wiped w1) v live not_static
              (on_runtime (new_provider_secret_runtime p) _ only (
                compute_hmac_provided p t.algorithm t.hash_fn bound_message w w1 (b ∷ bs) e
                  (omega arith)))
              (h.bytes t.hash_fn (b ∷ bs) bound_message)
              (digest_at_least h t.hash_fn (b ∷ bs) bound_message)
            ∙ (unfold rfc_code in ground arith)
        go (err x, w1) e = gen_bound_error (join secret_provider x) w1 live not_static (
            on_runtime (new_provider_secret_runtime p) _ only
              (compute_hmac_refused p t.algorithm t.hash_fn bound_message w w1 x e))
        go (panic, w1) e = gen_bound_panic w1 live not_static (
            on_runtime (new_provider_secret_runtime p) _ only
              (compute_hmac_panics p t.algorithm t.hash_fn bound_message w w1 e))

    -- The outcome for each answer of an HMAC provider.
    abbrev pub signed_code : Result Bytes × W → Result Bytes × W
    signed_code (ok sum, w1) =
        if length sum == expected_hmac_size t.algorithm
        then (ok (decimal t.digits (extracted sum % 10 ^ t.digits)), w1)
        else (err hmac_provider, w1)
    signed_code (err e, w1) = (err (join hmac_provider e), w1)
    signed_code (panic, w1) = (panic, w1)

    -- For a valid generator that was not cleared and whose HMACs a provider computes, on a world
    -- where the provider answers with bytes, `GenBound` returns the RFC 4226 digits of the digest; a
    -- digest of another size is ErrHMACProvider, and an error is joined to ErrHMACProvider.
    pub gen_bound_signed :
        (p : HmacProvider W)
        → IsValid t
        → t.cleared ≡ false
        → t.runtime ≡ new_hmac_provider_runtime p
        → ((sum : Bytes) (w1 : W)
            → p.hmac t.algorithm bound_message w ≡ (ok sum, w1)
            → All IsByte sum)
        → gen_bound h t counter context w ≡ signed_code (p.hmac t.algorithm bound_message w)
    gen_bound_signed p v live only bytes = go (p.hmac t.algorithm bound_message w) refl
      where
        not_static : has_static_secret t.runtime ≡ false
        not_static = not_static_hmac p only

        go :
            (x : Result Bytes × W)
            → p.hmac t.algorithm bound_message w ≡ x
            → gen_bound h t counter context w ≡ signed_code x
        go (ok sum, w1) e = elim (ℕ_discrete (length sum) (expected_hmac_size t.algorithm)) [
          | no wrong ↦
              gen_bound_error hmac_provider w1 live not_static (
                on_runtime (new_hmac_provider_runtime p) _ only
                  (compute_hmac_wrong_size p t.algorithm t.hash_fn bound_message w w1 sum e wrong))
              ∙ ground arith
          | yes size ↦
              gen_bound_digest sum w1 v live not_static
                (on_runtime (new_hmac_provider_runtime p) _ only
                  (compute_hmac_signed p t.algorithm t.hash_fn bound_message w w1 sum e size))
                (bytes sum w1 e)
                (omega (
                  arith,
                  size,
                  expected-digest_size t.algorithm t.hash_fn v.hashes,
                  h.size t.hash_fn [] [],
                  digest_at_least h t.hash_fn [] [],
                ))
              ∙ ground arith
        ]
        go (err x, w1) e = gen_bound_error (join hmac_provider x) w1 live not_static (
            on_runtime (new_hmac_provider_runtime p) _ only
              (compute_hmac_unsigned p t.algorithm t.hash_fn bound_message w w1 x e))
        go (panic, w1) e = gen_bound_panic w1 live not_static (
            on_runtime (new_hmac_provider_runtime p) _ only
              (compute_hmac_crashes p t.algorithm t.hash_fn bound_message w w1 e))
