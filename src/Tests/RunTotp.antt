-- ===== src/Tests/RunTotp.antt =====
-- TOTP at concrete inputs: a six-digit generator over the secret "12345678901234567890".
use genotp_go.Base.{ℕ, ◌/◌, ◌^◌, false, [], Bytes, codes, ◌≡◌, refl, arith, Option, some, none}
use genotp_go.Base.Int.{ℤ, pos, negsuc}
use genotp_go.Errors.{ok}
use genotp_go.ConstantTime.Equality.{IsSlice}
use genotp_go.Algorithm.{sha1, sha1_new, hash_func_for}
use genotp_go.Context.{OtpContext, context_bytes}
use genotp_go.Secret.{SecretRuntime}
use genotp_go.Totp as Methods
use genotp_go.Totp.{Totp, new_totp_with_runtime}
use genotp_go.Totp.Static
use genotp_go.Totp.Static.{generate-code_for, new_totp_with_runtime-IsValid}
use genotp_go.Totp.Tracking.{IsCentre, Tracks, verify_tracking-Tracks}
use genotp_go.Totp.Window.{Answers, verify-Answers}
use genotp_go.Tests.Data.{checked, mix_hmac}

abbrev secret : Bytes
secret = codes "12345678901234567890"

abbrev place : Option OtpContext
place = some (record { bytes = codes "ip=10.0.0.1" })

abbrev submitted : Bytes
submitted = codes "755224"

submitted-IsSlice : IsSlice submitted
submitted-IsSlice = (checked submitted refl, omega arith)

abbrev held_runtime : SecretRuntime ℕ
held_runtime = record { secret = secret; provider = none; hmac_provider = none }

abbrev pub totp : Totp ℕ
totp = record {
  runtime = held_runtime;
  algorithm = sha1;
  digits = 6;
  period = 30;
  mod_value = 10 ^ 6;
  hash_fn = sha1_new;
  cleared = false;
}

totp-IsValid : Static.IsValid totp
unfolding hash_func_for
totp-IsValid = record {
  at_least = omega arith;
  at_most = omega arith;
  steps = omega arith;
  modulus = refl;
  hashes = refl;
}

-- At 59 seconds, in the second step.
generate-code_for_example :
    (Methods.generate mix_hmac totp (pos 1000) (some 59) 0
      ≡ (ok (Static.code_for mix_hmac totp 0 (59 / 30) []), 0))
    × (Methods.gen_bound mix_hmac totp (pos 1000) place (some 59) 0
        ≡ (ok (Static.code_for mix_hmac totp 0 (59 / 30) (context_bytes place)), 0))
unfolding Methods.now_or
generate-code_for_example =
    generate-code_for mix_hmac totp 0 (pos 1000) place (some 59) totp-IsValid (omega arith) refl

verify-Answers_example :
    Answers mix_hmac totp 0 submitted []
      (59 / 30)
      1
      (Methods.verify mix_hmac totp (pos 1000) submitted (some 59) 1 0)
    × Answers mix_hmac totp 0 submitted
        (context_bytes place)
        (59 / 30)
        1
        (Methods.verify_bound mix_hmac totp (pos 1000) submitted place (some 59) 1 0)
unfolding Methods.now_or
verify-Answers_example =
    verify-Answers mix_hmac totp 0 submitted totp-IsValid (omega arith) submitted-IsSlice (pos 1000)
      place (some 59) 1 refl (omega arith) (omega arith)

-- A detector that holds the last recorded offset and applies it.
abbrev last_offset : Methods.Detector ℤ
last_offset = record { current_offset = λ d. d; record_match = λ i window d. ok i }

verify_tracking-Tracks_example :
    (c : ℕ) × IsCentre (59 / 30) (negsuc 0) c
    × Tracks mix_hmac totp 0 submitted last_offset 2 (negsuc 0) c 0 5 (
        Methods.verify_tracking mix_hmac last_offset totp
          (pos 1000)
          submitted
          (some 59)
          2
          (negsuc 0)
          0)
unfolding Methods.now_or
verify_tracking-Tracks_example =
    verify_tracking-Tracks mix_hmac totp 0 submitted last_offset 2 (negsuc 0) (pos 1000) (some 59)
      totp-IsValid (omega arith) refl submitted-IsSlice (omega arith) (omega arith) (omega arith)
