-- ===== src/Tests/Front.antt =====
-- Batches, helpers, builders, secrets and metrics at concrete inputs.
use genotp_go.Base.{
  ℕ, ◌+◌, ◌/◌, ◌≤◌, ◌<◌, true, false, List, [], ◌∷◌, length, length-replicate, replicate, Bytes,
  none, some, codes, ◌≡◌, ◌↔◌, ◌⊎◌, refl, arith, ap, sym, ◌∙◌,
}
use genotp_go.Base.Int.{pos, negsuc}
use genotp_go.Errors.{Result, ok, err, invalid_secret}
use genotp_go.ConstantTime.Equality.{IsSlice}
use genotp_go.Hotp
use genotp_go.Totp
use genotp_go.Batch.{
  VerifyResult, HotpVerifyRequest, HotpVerifyBoundRequest, TotpVerifyRequest,
  TotpVerifyBoundRequest, hotp_verify_batch, hotp_verify_bound_batch, totp_verify_batch,
  totp_verify_bound_batch,
}
use genotp_go.Batch.Runs.{Calls, batch_iff}
use genotp_go.Batch.Cleared.{clear_secret_stops}
use genotp_go.Helpers.{gen_totp_default, verify_totp_default}
use genotp_go.Helpers.Defaults.{default_code, verify_totp_default_accepts}
use genotp_go.Key.{Random, fill_secret, generate_secret, create_secret}
use genotp_go.Key.Secrets.{AreBits, Comes, generate_secret_cases}
use genotp_go.Tests.Data.{checked, mix_hmac}
use genotp_go.Tests.RunHotp.{hotp, place}
use genotp_go.Tests.RunTotp.{totp}

abbrev secret : Bytes
secret = codes "12345678901234567890"

abbrev submitted : Bytes
submitted = codes "755224"

submitted-IsSlice : IsSlice submitted
submitted-IsSlice = (checked submitted refl, omega arith)

-- Made in the last second of a step, and entered near the end of the next one.
verify_totp_default_accepts_example :
    (gen_totp_default mix_hmac {W = ℕ} secret (pos 1799999999) 0
      ≡ (ok (default_code mix_hmac {W = ℕ} 0 secret (1799999999 / 30)), 0))
    × (verify_totp_default mix_hmac {W = ℕ} secret
          (pos 1800000029)
          (default_code mix_hmac {W = ℕ} 0 secret (1799999999 / 30))
          0
        ≡ (ok true, 0))
verify_totp_default_accepts_example =
    verify_totp_default_accepts mix_hmac 0 secret 1799999999 1800000029 (omega arith) (omega arith)
      (omega arith) (omega arith) (omega arith)

abbrev bytes_or : Result Bytes → Bytes
bytes_or (ok bytes) = bytes
bytes_or _ = []

-- A source that counts its readings and hands out bytes 4.
abbrev fours : Random ℕ
fours = record {
  read = λ n w. (ok (replicate n 4), w + 1);
  fills = λ n w w' bytes e. ap (λ r. length (bytes_or r.0)) (sym e) ∙ length-replicate n 4;
}

generate_secret_cases_example :
    (generate_secret fours (negsuc 7) 0 ≡ (err invalid_secret, 0))
    × ((AreBits fours 0 160 × Comes fours 0 (160 / 8) (generate_secret fours (pos 160) 0))
        ⊎ ((AreBits fours 0 160 → ⊥)
            × (generate_secret fours (pos 160) 0 ≡ (err invalid_secret, 0))))
    × Comes fours 0 20 (create_secret fours 0)
    × (((16 ≤ length secret) × Comes fours 0 (length secret) (fill_secret fours secret 0))
        ⊎ ((length secret < 16) × (fill_secret fours secret 0 ≡ (err invalid_secret, 0))))
generate_secret_cases_example = generate_secret_cases fours 0 160 7 secret

abbrev refused : List VerifyResult
refused = record { accepted = false; error = some invalid_secret } ∷ []

abbrev results : List VerifyResult
results = record { accepted = false; error = none } ∷ []

batch_iff_example :
    ((hotp_verify_batch mix_hmac hotp (record { code = submitted; counter = 7 } ∷ []) 0
        ≡ (ok results, 0))
      ↔ Calls
          (λ (req : HotpVerifyRequest). Hotp.verify mix_hmac hotp req.code req.counter)
          0
          (record { code = submitted; counter = 7 } ∷ [])
          results
          0)
    × ((hotp_verify_bound_batch mix_hmac hotp
            (record { code = submitted; counter = 7; context = place } ∷ [])
            0
          ≡ (ok results, 0))
        ↔ Calls
            (λ (req : HotpVerifyBoundRequest).
              Hotp.verify_bound mix_hmac hotp req.code req.counter req.context)
            0
            (record { code = submitted; counter = 7; context = place } ∷ [])
            results
            0)
    × ((totp_verify_batch mix_hmac totp
            (λ w. (pos 1000, w))
            (record { code = submitted; time = none; window = 1 } ∷ [])
            0
          ≡ (ok results, 0))
        ↔ Calls
            (λ (req : TotpVerifyRequest) v.
              Totp.verify mix_hmac totp (pos 1000) req.code req.time req.window v)
            0
            (record { code = submitted; time = none; window = 1 } ∷ [])
            results
            0)
    × ((totp_verify_bound_batch mix_hmac totp
            (λ w. (pos 1000, w))
            (record { code = submitted; context = place; time = none; window = 1 } ∷ [])
            0
          ≡ (ok results, 0))
        ↔ Calls
            (λ (req : TotpVerifyBoundRequest) v.
              Totp.verify_bound mix_hmac totp (pos 1000) req.code req.context req.time req.window v)
            0
            (record { code = submitted; context = place; time = none; window = 1 } ∷ [])
            results
            0)
batch_iff_example =
    batch_iff mix_hmac hotp totp (λ w. (pos 1000, w)) 0 0 results
      (record { code = submitted; counter = 7 } ∷ [])
      (record { code = submitted; counter = 7; context = place } ∷ [])
      (record { code = submitted; time = none; window = 1 } ∷ [])
      (record { code = submitted; context = place; time = none; window = 1 } ∷ [])

clear_secret_stops_example :
    ((Hotp.clear_secret hotp).0.runtime.secret ≡ [])
    × ((Hotp.clear_secret hotp).1 ≡ replicate 20 0)
    × (Hotp.generate mix_hmac (Hotp.clear_secret hotp).0 7 0 ≡ (err invalid_secret, 0))
    × (Hotp.verify mix_hmac (Hotp.clear_secret hotp).0 submitted 7 0 ≡ (err invalid_secret, 0))
    × (Hotp.verify_with_resync mix_hmac (Hotp.clear_secret hotp).0 submitted 7 5 0
        ≡ (err invalid_secret, 0))
    × (Hotp.gen_bound mix_hmac (Hotp.clear_secret hotp).0 7 place 0 ≡ (err invalid_secret, 0))
    × (Hotp.verify_bound mix_hmac (Hotp.clear_secret hotp).0 submitted 7 place 0
        ≡ (err invalid_secret, 0))
    × (hotp_verify_batch mix_hmac
          (Hotp.clear_secret hotp).0
          (record { code = submitted; counter = 7 } ∷ [])
          0
        ≡ (ok refused, 0))
    × (hotp_verify_bound_batch mix_hmac
          (Hotp.clear_secret hotp).0
          (record { code = submitted; counter = 7; context = place } ∷ [])
          0
        ≡ (ok refused, 0))
clear_secret_stops_example =
    clear_secret_stops mix_hmac hotp 0 submitted 7 5 place
      (record { code = submitted; counter = 7 } ∷ [])
      (record { code = submitted; counter = 7; context = place } ∷ [])
