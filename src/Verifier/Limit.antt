-- ===== src/Verifier/Limit.antt =====
-- The count of failures, and how a run of refused calls ends in the rate limit.
use genotp_go.Base.{
  ℕ, ◌+◌, ◌^◌, ◌≤◌, ◌<◌, min, Bool, true, false, leb, if◌then◌else◌, List, [], ◌∷◌, length, Bytes,
  ◌≡◌, refl, ap, ◌∙◌, inl, inr, arith, Bool-cases, ◌&&◌,
}
use genotp_go.Base.Int.{ℤ}
use genotp_go.ConstantTime.{const_time_eq_bytes, constant_time_eq}
use genotp_go.Errors.{Result, ok, err, panic}
use genotp_go.Replay.{ReplayStore}
use genotp_go.Verifier.{
  Verifier, replay_key, is_rate_limited, count_failure, after_store, verify_inner,
}
use genotp_go.Verifier.Outcome.{
  ≤-cases, verify_inner_limited, verify_inner_mismatch, verify_inner_match,
}

-- One call of `verifyInner`.
pub record Attempt : Type 0 where
  pub time : ℤ
  pub code : Bytes
  pub expected : Bytes
  pub issued : Bytes
  pub request : Bytes

-- The count after a call with this answer, which a limited verifier does not change.
abbrev pub attempts_after : ℕ → ℕ → Result Bool → ℕ
attempts_after limit attempts (ok true) = 0
attempts_after limit attempts (ok false) = if leb limit attempts then attempts else attempts + 1
attempts_after limit attempts (err e) = attempts
attempts_after limit attempts panic = attempts

module _ {S : Type 0} (replay : ReplayStore S) where
  abbrev pub attempt : Verifier S → Attempt → Verifier S × Result Bool
  attempt v a = verify_inner replay v a.time a.code a.expected a.issued a.request

  unfoldable pub run : Verifier S → List Attempt → Verifier S
  run v [] = v
  run v (a ∷ rest) = run (attempt v a).0 rest

  -- Each attempt in turn is refused.
  abbrev pub AreRefused : Verifier S → List Attempt → Type 0
  AreRefused v [] = Unit {0}
  AreRefused v (a ∷ rest) = ((attempt v a).1 ≡ ok false) × AreRefused (attempt v a).0 rest

  after_store-attempts :
      (v : Verifier S) (r : S × Result Bool)
      → v.attempts < v.max_attempts
      → v.max_attempts < 2 ^ 32
      → ((after_store replay v r).0.attempts
          ≡ attempts_after v.max_attempts v.attempts (after_store replay v r).1)
        × ((after_store replay v r).0.max_attempts ≡ v.max_attempts)
  unfolding after_store count_failure
  after_store-attempts v (s, ok true) room small = (refl, refl)
  after_store-attempts v (s, ok false) room small = (ground (arith, room, small), refl)
  after_store-attempts v (s, err e) room small = (ground (arith, room, small), refl)
  after_store-attempts v (s, panic) room small = (refl, refl)

  count_failure-attempts :
      (v : Verifier S)
      → v.attempts < v.max_attempts
      → v.max_attempts < 2 ^ 32
      → ((count_failure v).attempts ≡ attempts_after v.max_attempts v.attempts (ok false))
        × ((count_failure v).max_attempts ≡ v.max_attempts)
  unfolding count_failure
  count_failure-attempts v room small = (ground (arith, room, small), refl)

  -- An acceptance resets the count of failures, every refusal below the limit (a wrong code, a
  -- wrong context, a replay, an error of the store) adds one, a refusal at the limit and a
  -- panic of the store add nothing, and the limit stays: below a uint32 limit the count never wraps.
  pub verify_inner-attempts :
      (v : Verifier S) (a : Attempt)
      → v.max_attempts < 2 ^ 32
      → ((attempt v a).0.attempts ≡ attempts_after v.max_attempts v.attempts (attempt v a).1)
        × ((attempt v a).0.max_attempts ≡ v.max_attempts)
  verify_inner-attempts v a small = elim (≤-cases v.max_attempts v.attempts) [
    | inl full ↦
        rw (verify_inner_limited replay v a.time a.code a.expected a.issued a.request full)
          (ground (arith, full), refl)
    | inr room ↦
        elim (Bool-cases
          (const_time_eq_bytes a.issued a.request && constant_time_eq a.code a.expected)) [
            | inr differ ↦
                rw
                  (verify_inner_mismatch replay v a.time a.code a.expected a.issued a.request room
                    differ)
                  (count_failure-attempts v room small)
            | inl agree ↦
                rw
                  (verify_inner_match replay v a.time a.code a.expected a.issued a.request room
                    agree)
                  (after_store-attempts v
                    (replay.check_and_record v.store a.time (replay_key [] a.code a.issued) v.ttl)
                    room small)
          ]
  ]

  run-attempts :
      (v : Verifier S) (rest : List Attempt)
      → v.max_attempts < 2 ^ 32
      → v.attempts ≤ v.max_attempts
      → AreRefused v rest
      → ((run v rest).attempts ≡ min v.max_attempts (v.attempts + length rest))
        × ((run v rest).max_attempts ≡ v.max_attempts)
  unfolding run
  run-attempts v [] small le refused = (omega arith, refl)
  run-attempts v (a ∷ rest) small le refused =
      let (count, limit) = verify_inner-attempts v a small in
      let counted : (attempt v a).0.attempts
          ≡ (if leb v.max_attempts v.attempts then v.attempts else v.attempts + 1) =
        count ∙ ap (attempts_after v.max_attempts v.attempts) refused.0 in
      let small' : (attempt v a).0.max_attempts < 2 ^ 32 = omega (arith, limit, small) in
      let le' : (attempt v a).0.attempts ≤ (attempt v a).0.max_attempts =
        ground (arith, counted, limit, le) in
      let (count', limit') = run-attempts (attempt v a).0 rest small' le' refused.1 in
      (ground (arith, count', counted, limit, le), limit' ∙ limit)

  -- After a run of refused attempts that fills the limit, whatever they were refused for, any
  -- further attempt is refused and changes nothing (for a uint32 limit that the count has not passed).
  pub verify_inner_locks_out :
      (v : Verifier S) (rest : List Attempt) (next : Attempt)
      → v.max_attempts < 2 ^ 32
      → v.attempts ≤ v.max_attempts
      → v.max_attempts ≤ v.attempts + length rest
      → AreRefused v rest
      → (attempt (run v rest) next ≡ (run v rest, ok false)) × (is_rate_limited (run v rest) ≡ true)
  unfolding is_rate_limited
  verify_inner_locks_out v rest next small le enough refused =
      let (count, limit) = run-attempts v rest small le refused in
      (
        verify_inner_limited replay (run v rest) next.time next.code next.expected next.issued
            next.request (omega (arith, count, limit)),
        ground (arith, count, limit),
      )
