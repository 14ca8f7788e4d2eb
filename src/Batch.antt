-- ===== src/Batch.antt =====
-- batch.go: codes verified one after the other, with a result for each.
pub mod Runs
pub mod Cleared
use genotp_go.Base.{ℕ, Bool, true, false, List, [], ◌∷◌, Bytes, Option, none, some}
use genotp_go.Base.Int.{ℤ}
use genotp_go.Errors.{Error, Result, ok, err, panic}
use genotp_go.Algorithm.{Hmac}
use genotp_go.Context.{OtpContext}
use genotp_go.Secret.{Action}
use genotp_go.Hotp.{Hotp}
use genotp_go.Totp.{Totp}
use genotp_go.Hotp
use genotp_go.Totp

pub record VerifyResult : Type 0 where
  pub accepted : Bool
  pub error : Option Error

pub record HotpVerifyRequest : Type 0 where
  pub code : Bytes
  pub counter : ℕ

pub record HotpVerifyBoundRequest : Type 0 where
  pub code : Bytes
  pub counter : ℕ
  pub context : Option OtpContext

pub record TotpVerifyRequest : Type 0 where
  pub code : Bytes
  pub time : Option ℕ
  pub window : ℕ

pub record TotpVerifyBoundRequest : Type 0 where
  pub code : Bytes
  pub context : Option OtpContext
  pub time : Option ℕ
  pub window : ℕ

-- `VerifyResult{OK: ok, Err: err}`: an error comes with the answer false.
abbrev pub result_of : Result Bool → Option VerifyResult
result_of (ok b) = some (record { accepted = b; error = none })
result_of (err e) = some (record { accepted = false; error = some e })
result_of panic = none

module _ {W : Type 0} where
  -- The loop over the requests: an error goes into its result, a panic ends the loop.
  unfoldable pub verify_each :
      {R : Type 0} → (R → Action W Bool) → List R → Action W (List VerifyResult)
  verify_each verify [] w = (ok [], w)
  verify_each verify (req ∷ reqs) w =
      let (answer, w') = verify req w in
      let (answers, w'') = verify_each verify reqs w' in
      elim (result_of answer) [
        | none ↦ (panic, w')
        | some result ↦ elim answers [
          | ok results ↦ (ok (result ∷ results), w'')
          | err e ↦ (err e, w'')
          | panic ↦ (panic, w'')
        ]
      ]

  module _ (h : Hmac) where
    unfoldable pub hotp_verify_batch :
        Hotp W → List HotpVerifyRequest → Action W (List VerifyResult)
    hotp_verify_batch t reqs = verify_each (λ req. Hotp.verify h t req.code req.counter) reqs

    unfoldable pub hotp_verify_bound_batch :
        Hotp W → List HotpVerifyBoundRequest → Action W (List VerifyResult)
    hotp_verify_bound_batch t reqs =
        verify_each (λ req. Hotp.verify_bound h t req.code req.counter req.context) reqs

    -- `clock` reads the time for each request; one that has a time of its own does not use the reading.
    unfoldable pub totp_verify_batch :
        Totp W → (W → ℤ × W) → List TotpVerifyRequest → Action W (List VerifyResult)
    totp_verify_batch t clock reqs =
        verify_each (λ req w. Totp.verify h t (clock w).0 req.code req.time req.window (clock w).1)
          reqs

    unfoldable pub totp_verify_bound_batch :
        Totp W → (W → ℤ × W) → List TotpVerifyBoundRequest → Action W (List VerifyResult)
    totp_verify_bound_batch t clock reqs =
        verify_each
          (λ req w.
            Totp.verify_bound h t (clock w).0 req.code req.context req.time req.window (clock w).1)
          reqs
