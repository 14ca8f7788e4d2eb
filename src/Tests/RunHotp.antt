-- ===== src/Tests/RunHotp.antt =====
-- HOTP at concrete inputs: a six-digit generator over the secret "12345678901234567890",
-- and generators over a provider. The world counts how often the provider was called and wiped.
use mathlib.Core.Path.{subst}
use genotp_go.Base.{
  ℕ, ap, All, IsByte, ◌+◌, ◌-◌, ◌^◌, false, [], replicate, Bytes, codes, ◌≡◌, ◌⊎◌, refl, arith,
  Option, some, none,
}
use genotp_go.Errors.{Result, ok}
use genotp_go.ConstantTime.Equality.{IsSlice}
use genotp_go.Algorithm.{Algorithm, sha1, sha1_new, hash_func_for}
use genotp_go.Context.{OtpContext, context_bytes}
use genotp_go.Secret.{
  SecretProvider, HmacProvider, SecretRuntime, new_provider_secret_runtime,
  new_hmac_provider_runtime,
}
use genotp_go.Hotp as Methods
use genotp_go.Hotp.{Hotp, new_hotp_with_runtime, verify_with_resync}
use genotp_go.Hotp.Static
use genotp_go.Hotp.Static.{generate-rfc_code, verify-Decides, new_hotp_with_runtime-IsValid}
use genotp_go.Hotp.Resync.{FoundAt, MissedAt, verify_with_resync_first}
use genotp_go.Hotp.Providers.{gen_bound_provided, gen_bound_signed, provided_code, signed_code}
use genotp_go.Tests.Data.{checked, mix_hmac}

abbrev secret : Bytes
secret = codes "12345678901234567890"

abbrev pub place : Option OtpContext
place = some (record { bytes = codes "ip=10.0.0.1" })

abbrev submitted : Bytes
submitted = codes "755224"

submitted-IsSlice : IsSlice submitted
submitted-IsSlice = (checked submitted refl, omega arith)

abbrev pub hotp_with : SecretRuntime ℕ → Algorithm → Hotp ℕ
hotp_with r a = record {
  runtime = r;
  algorithm = a;
  digits = 6;
  mod_value = 10 ^ 6;
  hash_fn = sha1_new;
  cleared = false;
}

abbrev pub held_runtime : SecretRuntime ℕ
held_runtime = record { secret = secret; provider = none; hmac_provider = none }

abbrev pub hotp : Hotp ℕ
hotp = hotp_with held_runtime sha1

hotp-IsValid : (r : SecretRuntime ℕ) → Static.IsValid (hotp_with r sha1)
unfolding hash_func_for
hotp-IsValid r = record {
  at_least = omega arith;
  at_most = omega arith;
  modulus = refl;
  hashes = refl;
}

generate-rfc_code_example :
    (Methods.generate mix_hmac hotp 7 0 ≡ (ok (Static.code_for mix_hmac hotp 0 7 []), 0))
    × (Methods.gen_bound mix_hmac hotp 7 place 0
        ≡ (ok (Static.code_for mix_hmac hotp 0 7 (context_bytes place)), 0))
generate-rfc_code_example =
    generate-rfc_code mix_hmac hotp 0 7 place (hotp-IsValid held_runtime) (omega arith) refl

verify-Decides_example :
    Static.Decides mix_hmac hotp 0 submitted
      (Static.code_for mix_hmac hotp 0 7 [])
      (Methods.verify mix_hmac hotp submitted 7 0)
    × Static.Decides mix_hmac hotp 0 submitted
        (Static.code_for mix_hmac hotp 0 7 (context_bytes place))
        (Methods.verify_bound mix_hmac hotp submitted 7 place 0)
verify-Decides_example =
    verify-Decides mix_hmac hotp 0 submitted 7 place (hotp-IsValid held_runtime) (omega arith) refl
      submitted-IsSlice

-- The last two counters of the uint64 range.
verify_with_resync_first_example :
    FoundAt mix_hmac hotp 0 submitted
      (2 ^ 64 - 2)
      0
      6
      (verify_with_resync mix_hmac hotp submitted (2 ^ 64 - 2) 5 0)
    ⊎ MissedAt mix_hmac hotp 0 submitted
        (2 ^ 64 - 2)
        0
        6
        (verify_with_resync mix_hmac hotp submitted (2 ^ 64 - 2) 5 0)
verify_with_resync_first_example =
    verify_with_resync_first mix_hmac hotp 0 submitted (2 ^ 64 - 2) (hotp-IsValid held_runtime)
      (omega arith) submitted-IsSlice (omega arith) 5 refl (omega arith)

-- A provider that hands out the secret, counts calls in ones and wipes in hundreds.
abbrev vault : SecretProvider ℕ
vault = record { secret = λ w. (ok secret, w + 1); wiped = λ w. w + 100 }

abbrev vault_runtime : SecretRuntime ℕ
vault_runtime = record { secret = []; provider = some vault; hmac_provider = none }

runtime_of_vault : vault_runtime ≡ new_provider_secret_runtime vault
unfolding new_provider_secret_runtime
runtime_of_vault = refl

gen_bound_provided_example :
    Methods.gen_bound mix_hmac (hotp_with vault_runtime sha1) 7 place 0
    ≡ provided_code mix_hmac (hotp_with vault_runtime sha1) 7 place 0 vault (vault.secret 0)
gen_bound_provided_example =
    gen_bound_provided mix_hmac (hotp_with vault_runtime sha1) 7 place 0 vault
      (hotp-IsValid vault_runtime) refl runtime_of_vault

-- A provider that signs with twenty bytes 9.
abbrev signer : HmacProvider ℕ
signer = record { hmac = λ a message w. (ok (replicate 20 9), w + 1) }

abbrev signer_runtime : SecretRuntime ℕ
signer_runtime = record { secret = []; provider = none; hmac_provider = some signer }

runtime_of_signer : signer_runtime ≡ new_hmac_provider_runtime signer
unfolding new_hmac_provider_runtime
runtime_of_signer = refl

signed-IsByte : (sum : Bytes) (w1 : ℕ) → signer.hmac sha1 [] 0 ≡ (ok sum, w1) → All IsByte sum
signed-IsByte sum w1 e =
    subst (λ x. All IsByte (sum_or x)) (ap (λ p. p.0) e) (checked (replicate 20 9) refl)
  where
    sum_or : Result Bytes → Bytes
    sum_or (ok s) = s
    sum_or _ = []

gen_bound_signed_example :
    Methods.gen_bound mix_hmac (hotp_with signer_runtime sha1) 7 place 0
    ≡ signed_code mix_hmac (hotp_with signer_runtime sha1) 7 place 0 (ok (replicate 20 9), 0 + 1)
gen_bound_signed_example =
    gen_bound_signed mix_hmac (hotp_with signer_runtime sha1) 7 place 0 signer
      (hotp-IsValid signer_runtime) refl runtime_of_signer signed-IsByte
