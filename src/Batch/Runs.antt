-- ===== src/Batch/Runs.antt =====
-- Batches are the single calls, one after the other.
use genotp_go.Base.{Bool, false, List, [], ◌∷◌, Option, none, some, ◌≡◌, ◌≢◌, ◌↔◌, refl, ap, ◌∙◌}
use genotp_go.Base.Int.{ℤ}
use genotp_go.Errors.{Error, Result, ok, err, panic}
use genotp_go.Algorithm.{Hmac}
use genotp_go.Secret.{Action}
use genotp_go.Hotp.{Hotp}
use genotp_go.Totp.{Totp}
use genotp_go.Batch.{
  VerifyResult, HotpVerifyRequest, HotpVerifyBoundRequest, TotpVerifyRequest,
  TotpVerifyBoundRequest, result_of, verify_each, hotp_verify_batch, hotp_verify_bound_batch,
  totp_verify_batch, totp_verify_bound_batch,
}
use mathlib.Core.Path.{subst}
use genotp_go.Hotp
use genotp_go.Totp

module _ {W : Type 0} where
  -- Calls one after the other, from a world to a world, each with its result: the answer of a call
  -- that returned one and no error, or false and the error of a call that failed.
  pub data Calls {R : Type 0} (verify : R → Action W Bool)
      : W → List R → List VerifyResult → W → Type 0 where
    stop : {w : W} → Calls verify w [] [] w
    answered :
        {w w' w'' : W} {req : R} {reqs : List R} {answer : Bool} {results : List VerifyResult}
        → verify req w ≡ (ok answer, w')
        → Calls verify w' reqs results w''
        → Calls verify w (req ∷ reqs) (record { accepted = answer; error = none } ∷ results) w''
    failed :
        {w w' w'' : W} {req : R} {reqs : List R} {e : Error} {results : List VerifyResult}
        → verify req w ≡ (err e, w')
        → Calls verify w' reqs results w''
        → Calls verify w (req ∷ reqs) (record { accepted = false; error = some e } ∷ results) w''

  -- The result of a call in front of the outcome of the others.
  abbrev combine :
      Option VerifyResult → Result (List VerifyResult) × W → W → Result (List VerifyResult) × W
  combine none outcome w' = (panic, w')
  combine (some result) (ok results, w'') w' = (ok (result ∷ results), w'')
  combine (some result) (err e, w'') w' = (err e, w'')
  combine (some result) (panic, w'') w' = (panic, w'')

  module _ {R : Type 0} (verify : R → Action W Bool) where
    each_combine :
        (req : R) (reqs : List R) (w : W)
        → verify_each verify (req ∷ reqs) w
          ≡ combine
              (result_of (verify req w).0)
              (verify_each verify reqs (verify req w).1)
              (verify req w).1
    unfolding verify_each
    each_combine req reqs w =
        go (result_of (verify req w).0) (verify_each verify reqs (verify req w).1)
      where
        go :
            (o : Option VerifyResult) (outcome : Result (List VerifyResult) × W)
            → elim o [
              | none ↦ (panic, (verify req w).1)
              | some result ↦ elim outcome.0 [
                | ok results ↦ (ok (result ∷ results), outcome.1)
                | err e ↦ (err e, outcome.1)
                | panic ↦ (panic, outcome.1)
              ]
            ]
              ≡ combine o outcome (verify req w).1
        go none outcome = refl
        go (some result) (ok results, w'') = refl
        go (some result) (err e, w'') = refl
        go (some result) (panic, w'') = refl

    each-Calls :
        (w w' : W) (reqs : List R) (results : List VerifyResult)
        → Calls verify w reqs results w'
        → verify_each verify reqs w ≡ (ok results, w')
    each-Calls w w' reqs results stop = unfold verify_each in refl
    each-Calls w w' (req ∷ reqs) (result ∷ results) (answered {w' = v} {answer = b} e rest) =
        each_combine req reqs w
        ∙ ap (λ x. combine (result_of x.0) (verify_each verify reqs x.1) x.1) e
        ∙ ap (λ x. combine (some (record { accepted = b; error = none })) x v)
            (each-Calls v w' reqs results rest)
    each-Calls w w' (req ∷ reqs) (result ∷ results) (failed {w' = v} {e = x} e rest) =
        each_combine req reqs w
        ∙ ap (λ x. combine (result_of x.0) (verify_each verify reqs x.1) x.1) e
        ∙ ap (λ o. combine (some (record { accepted = false; error = some x })) o v)
            (each-Calls v w' reqs results rest)

    -- The calls behind a batch that ends.
    abbrev Behind : W → List R → Result (List VerifyResult) × W → Type 0
    Behind w reqs (ok results, w') = Calls verify w reqs results w'
    Behind w reqs (err e, w') = ⊥
    Behind w reqs (panic, w') = Unit {0}

    Behind-step :
        (w : W) (req : R) (reqs : List R) (made : Result Bool × W)
        (outcome : Result (List VerifyResult) × W)
        → verify req w ≡ made
        → Behind made.1 reqs outcome
        → Behind w (req ∷ reqs) (combine (result_of made.0) outcome made.1)
    Behind-step w req reqs (panic, v) outcome e h = tt
    Behind-step w req reqs (ok b, v) (ok results, w'') e h = answered e h
    Behind-step w req reqs (ok b, v) (err x, w'') e h = h
    Behind-step w req reqs (ok b, v) (panic, w'') e h = tt
    Behind-step w req reqs (err x, v) (ok results, w'') e h = failed e h
    Behind-step w req reqs (err x, v) (err y, w'') e h = h
    Behind-step w req reqs (err x, v) (panic, w'') e h = tt

    behind : (w : W) (reqs : List R) → Behind w reqs (verify_each verify reqs w)
    behind w [] = unfold verify_each in stop
    behind w (req ∷ reqs) = rw (each_combine req reqs w) (
        Behind-step w req reqs (verify req w) (verify_each verify reqs (verify req w).1) refl
          (behind (verify req w).1 reqs))

    pub verify_each_iff :
        (w w' : W) (reqs : List R) (results : List VerifyResult)
        → (verify_each verify reqs w ≡ (ok results, w')) ↔ Calls verify w reqs results w'
    verify_each_iff w w' reqs results =
        ((λ e. subst (Behind w reqs) e (behind w reqs)), each-Calls w w' reqs results)

    pub verify_each-no_error :
        (w w' : W) (reqs : List R) (e : Error) → verify_each verify reqs w ≢ (err e, w')
    verify_each-no_error w w' reqs e same = subst (Behind w reqs) same (behind w reqs)

  module _ (h : Hmac) where
    -- `VerifyBatch` and `VerifyBoundBatch` of HOTP and of TOTP end with a list of results exactly
    -- where the single calls of `Verify` and `VerifyBound`, made in the order of the requests, each
    -- from the world that the one before it left and for TOTP at the time that the clock then reads,
    -- end without a panic, and the results are what they returned: the answer without an error, or
    -- false with the error. A call that fails does not keep the others from being made.
    pub batch_iff :
        (t : Hotp W) (u : Totp W) (clock : W → ℤ × W) (w w' : W) (results : List VerifyResult)
        (reqs : List HotpVerifyRequest) (bound_reqs : List HotpVerifyBoundRequest)
        (time_reqs : List TotpVerifyRequest) (bound_time_reqs : List TotpVerifyBoundRequest)
        → ((hotp_verify_batch h t reqs w ≡ (ok results, w'))
            ↔ Calls (λ req. Hotp.verify h t req.code req.counter) w reqs results w')
          × ((hotp_verify_bound_batch h t bound_reqs w ≡ (ok results, w'))
              ↔ Calls
                  (λ req. Hotp.verify_bound h t req.code req.counter req.context)
                  w
                  bound_reqs
                  results
                  w')
          × ((totp_verify_batch h u clock time_reqs w ≡ (ok results, w'))
              ↔ Calls
                  (λ req v. Totp.verify h u (clock v).0 req.code req.time req.window (clock v).1)
                  w
                  time_reqs
                  results
                  w')
          × ((totp_verify_bound_batch h u clock bound_time_reqs w ≡ (ok results, w'))
              ↔ Calls
                  (λ req v.
                    Totp.verify_bound h u
                      (clock v).0
                      req.code
                      req.context
                      req.time
                      req.window
                      (clock v).1)
                  w
                  bound_time_reqs
                  results
                  w')
    unfolding hotp_verify_batch hotp_verify_bound_batch totp_verify_batch totp_verify_bound_batch
    batch_iff t u clock w w' results reqs bound_reqs time_reqs bound_time_reqs = (
      verify_each_iff _ w w' reqs results,
      verify_each_iff _ w w' bound_reqs results,
      verify_each_iff _ w w' time_reqs results,
      verify_each_iff _ w w' bound_time_reqs results,
    )
