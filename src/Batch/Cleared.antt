-- ===== src/Batch/Cleared.antt =====
-- `ClearSecret` of HOTP and TOTP: what it overwrites, and what the methods and batches do afterwards.
use genotp_go.Base.{
  ℕ, ◌+◌, Bool, false, List, [], ◌∷◌, ◌++◌, length, set, replicate, length-append, Bytes, Option,
  some, ◌≡◌, refl, sym, ap, ◌∙◌,
}
use genotp_go.Base.Int.{ℤ}
use genotp_go.Errors.{ok, err, invalid_secret}
use genotp_go.Algorithm.{Hmac}
use genotp_go.Context.{OtpContext}
use genotp_go.Secret.{Action, wipe_loop, clear_static_secret}
use mathlib.Core.List.{append_assoc}
use genotp_go.Batch.Runs.{Calls, stop, failed, verify_each_iff}
use genotp_go.Hotp.{Hotp, verify_with_resync}
use genotp_go.Totp.{Totp, Detector, verify_tracking}
use genotp_go.Batch.{
  VerifyResult, HotpVerifyRequest, HotpVerifyBoundRequest, hotp_verify_batch,
  hotp_verify_bound_batch,
}
use genotp_go.Hotp
use genotp_go.Totp

set-append :
    (front rest : Bytes) (b v : ℕ)
    → set (front ++ (b ∷ rest)) (length front) v ≡ front ++ (v ∷ rest)
set-append [] rest b v = refl
set-append (a ∷ front) rest b v = ap (λ xs. a ∷ xs) (set-append front rest b v)

-- From the position behind `front` on, every byte becomes zero.
wipe_loop-append :
    (front rest : Bytes)
    → wipe_loop (length rest) (length front) (front ++ rest) ≡ front ++ replicate (length rest) 0
unfolding wipe_loop
wipe_loop-append front [] = refl
wipe_loop-append front (b ∷ rest) =
    ap (wipe_loop (length rest) (length front + 1))
      (set-append front rest b 0 ∙ sym (append_assoc front (0 ∷ []) rest))
    ∙ ap (λ n. wipe_loop (length rest) n ((front ++ (0 ∷ [])) ++ rest))
        (sym (length-append front (0 ∷ [])))
    ∙ wipe_loop-append (front ++ (0 ∷ [])) rest
    ∙ append_assoc front (0 ∷ []) (replicate (length rest) 0)

wipe_loop-replicate :
    (secret : Bytes) → wipe_loop (length secret) 0 secret ≡ replicate (length secret) 0
wipe_loop-replicate secret = wipe_loop-append [] secret

-- A result for each request: no answer, and ErrInvalidSecret.
abbrev refusals {ℓ} : {R : Type ℓ} → List R → List VerifyResult
refusals [] = []
refusals (req ∷ reqs) = record { accepted = false; error = some invalid_secret } ∷ refusals reqs

all_refused :
    {W R : Type 0} (verify : R → Action W Bool) (reqs : List R) (w : W)
    → ((req : R) → verify req w ≡ (err invalid_secret, w))
    → Calls verify w reqs (refusals reqs) w
all_refused verify [] w e = stop
all_refused verify (req ∷ reqs) w e = failed (e req) (all_refused verify reqs w e)

module _ (h : Hmac) {W : Type 0} (t : Hotp W) (w : W) where
  -- `ClearSecret` of HOTP empties the field of the secret and overwrites every byte of the array that
  -- it pointed to with zero. Afterwards every method of the generator (`Generate`, `Verify`,
  -- `VerifyWithResync`, `GenBound`, `VerifyBound`) returns ErrInvalidSecret and leaves the world
  -- alone, whatever the arguments and whatever provider the generator has, and `VerifyBatch` and
  -- `VerifyBoundBatch` give false and ErrInvalidSecret for each request. Of the copies that the
  -- pooled hash states keep, nothing is said.
  pub clear_secret_stops :
      (code : Bytes) (counter look_ahead : ℕ) (context : Option OtpContext)
      (reqs : List HotpVerifyRequest) (bound_reqs : List HotpVerifyBoundRequest)
      → ((Hotp.clear_secret t).0.runtime.secret ≡ [])
        × ((Hotp.clear_secret t).1 ≡ replicate (length t.runtime.secret) 0)
        × (Hotp.generate h (Hotp.clear_secret t).0 counter w ≡ (err invalid_secret, w))
        × (Hotp.verify h (Hotp.clear_secret t).0 code counter w ≡ (err invalid_secret, w))
        × (verify_with_resync h (Hotp.clear_secret t).0 code counter look_ahead w
            ≡ (err invalid_secret, w))
        × (Hotp.gen_bound h (Hotp.clear_secret t).0 counter context w ≡ (err invalid_secret, w))
        × (Hotp.verify_bound h (Hotp.clear_secret t).0 code counter context w
            ≡ (err invalid_secret, w))
        × (hotp_verify_batch h (Hotp.clear_secret t).0 reqs w ≡ (ok (refusals reqs), w))
        × (hotp_verify_bound_batch h (Hotp.clear_secret t).0 bound_reqs w
            ≡ (ok (refusals bound_reqs), w))
  unfolding Hotp.clear_secret clear_static_secret Hotp.generate Hotp.verify verify_with_resync
      Hotp.gen_bound Hotp.verify_bound hotp_verify_batch hotp_verify_bound_batch
  clear_secret_stops code counter look_ahead context reqs bound_reqs = (
    refl,
    wipe_loop-replicate t.runtime.secret,
    refl,
    refl,
    refl,
    refl,
    refl,
    (verify_each_iff _ w w reqs _).1 (all_refused _ reqs w (λ req. refl)),
    (verify_each_iff _ w w bound_reqs _).1 (all_refused _ bound_reqs w (λ req. refl)),
  )

module _ (h : Hmac) {W : Type 0} (t : Totp W) (w : W) where
  -- The same of TOTP and its methods (`Generate`, `Verify`, `GenBound`, `VerifyBound`,
  -- `VerifyTracking` with any detector).
  totp_clear_secret_stops :
      {D : Type 0} (detector : Detector D) (d : D) (now : ℤ) (code : Bytes) (window : ℕ)
      (context : Option OtpContext) (time_val : Option ℕ)
      → ((Totp.clear_secret t).0.runtime.secret ≡ [])
        × ((Totp.clear_secret t).1 ≡ replicate (length t.runtime.secret) 0)
        × (Totp.generate h (Totp.clear_secret t).0 now time_val w ≡ (err invalid_secret, w))
        × (Totp.verify h (Totp.clear_secret t).0 now code time_val window w
            ≡ (err invalid_secret, w))
        × (Totp.gen_bound h (Totp.clear_secret t).0 now context time_val w
            ≡ (err invalid_secret, w))
        × (Totp.verify_bound h (Totp.clear_secret t).0 now code context time_val window w
            ≡ (err invalid_secret, w))
        × (verify_tracking h detector (Totp.clear_secret t).0 now code time_val window d w
            ≡ (err invalid_secret, w))
  unfolding Totp.clear_secret clear_static_secret Totp.generate Totp.verify Totp.gen_bound
      Totp.verify_bound verify_tracking
  totp_clear_secret_stops detector d now code window context time_val =
      (refl, wipe_loop-replicate t.runtime.secret, refl, refl, refl, refl, refl)
