-- ===== src/Verifier/Outcome.antt =====
-- What one call of the verifier decides and what it does to the count of failures, over any store;
-- and a run of refused calls, which ends in the rate limit.
use genotp_go.Base.{
  ℕ, ◌≤◌, ◌<◌, Bool, true, false, ◌&&◌, ◌⊎◌, [], Bytes, ◌≡◌, ◌↔◌, refl, sym, ap, ◌∙◌, inl, inr,
  arith, Bool-cases,
}
use genotp_go.Base.Int.{ℤ}
use genotp_go.ConstantTime.{const_time_eq_bytes, constant_time_eq}
use genotp_go.ConstantTime.Equality.{IsSlice, const_time_eq_bytes_iff}
use genotp_go.Errors.{Result, ok, err, panic}
use genotp_go.Replay.{ReplayStore}
use genotp_go.Verifier.{Verifier, replay_key, count_failure, after_store, verify_inner}

pub ≤-cases : (a b : ℕ) → (a ≤ b) ⊎ (b < a)
≤-cases a b = ground arith

pub no_refusal : ¬ (ok false ≡ ok true)
no_refusal e = ground arith

module _ {S : Type 0} (replay : ReplayStore S) where
  -- What the store answers for the code of a call.
  abbrev pub first_seen : Verifier S → ℤ → Bytes → Bytes → Result Bool
  first_seen v now code issued =
      (replay.check_and_record v.store now (replay_key [] code issued) v.ttl).1

  -- The four conditions of an acceptance.
  pub record IsAccepted (v : Verifier S) (now : ℤ) (code expected issued request : Bytes)
      : Type 0 where
    pub unlimited : v.attempts < v.max_attempts
    pub same_context : issued ≡ request
    pub right_code : code ≡ expected
    pub unseen : first_seen v now code issued ≡ ok true

  pub after_store-accepts :
      (v : Verifier S) (r : S × Result Bool)
      → ((after_store replay v r).1 ≡ ok true) ↔ (r.1 ≡ ok true)
  unfolding after_store
  after_store-accepts v (s, ok true) = ((λ _. refl), (λ _. refl))
  after_store-accepts v (s, ok false) = ground arith
  after_store-accepts v (s, err e) = ground arith
  after_store-accepts v (s, panic) = ground arith

  -- The three ways through a call.
  module _ (v : Verifier S) (now : ℤ) (code expected issued request : Bytes) where
    pub verify_inner_limited :
        v.max_attempts ≤ v.attempts
        → verify_inner replay v now code expected issued request ≡ (v, ok false)
    unfolding verify_inner
    verify_inner_limited h = ground (arith, h)

    pub verify_inner_mismatch :
        v.attempts < v.max_attempts
        → const_time_eq_bytes issued request && constant_time_eq code expected ≡ false
        → verify_inner replay v now code expected issued request ≡ (count_failure v, ok false)
    unfolding verify_inner
    verify_inner_mismatch h m = ground (arith, h, m)

    pub verify_inner_match :
        v.attempts < v.max_attempts
        → const_time_eq_bytes issued request && constant_time_eq code expected ≡ true
        → verify_inner replay v now code expected issued request
          ≡ after_store replay v
              (replay.check_and_record v.store now (replay_key [] code issued) v.ttl)
    unfolding verify_inner
    verify_inner_match h m = ground (arith, h, m)

  -- The verifier accepts exactly where fewer failures are counted than the limit, the request has
  -- the context of the issue, the code is the expected one, and the store has not seen the code
  -- in this context (as slices of bytes, shorter than 2^63).
  pub verify_inner-accepts_iff :
      (v : Verifier S) (now : ℤ) (code expected issued request : Bytes)
      → IsSlice code
      → IsSlice expected
      → IsSlice issued
      → IsSlice request
      → ((verify_inner replay v now code expected issued request).1 ≡ ok true)
        ↔ IsAccepted v now code expected issued request
  unfolding constant_time_eq
  verify_inner-accepts_iff v now code expected issued request h1 h2 h3 h4 =
      let limited = verify_inner_limited v now code expected issued request in
      let mismatch = verify_inner_mismatch v now code expected issued request in
      let agreed = verify_inner_match v now code expected issued request in
      let same_context = const_time_eq_bytes_iff issued request h3 h4 in
      let same_code = const_time_eq_bytes_iff code expected h1 h2 in
      let stored =
        after_store-accepts v
          (replay.check_and_record v.store now (replay_key [] code issued) v.ttl) in
      elim (≤-cases v.max_attempts v.attempts) [
        | inl full ↦ (
          (λ e. absurd (no_refusal (sym (ap (λ x. x.1) (limited full)) ∙ e))),
          (λ a. absurd (omega (arith, full, a.unlimited))),
        )
        | inr room ↦
            elim (Bool-cases
              (const_time_eq_bytes issued request && constant_time_eq code expected)) [
                | inr differ ↦ (
                  (λ e. absurd (no_refusal (sym (ap (λ x. x.1) (mismatch room differ)) ∙ e))),
                  (λ a. absurd (
                      ground
                        (arith, differ, same_context.1 a.same_context, same_code.1 a.right_code))),
                )
                | inl agree ↦ (
                  (λ e. record {
                    unlimited = room;
                    same_context = same_context.0 (ground (arith, agree));
                    right_code = same_code.0 (ground (arith, agree));
                    unseen = stored.0 (sym (ap (λ x. x.1) (agreed room agree)) ∙ e);
                  }),
                  (λ a. ap (λ x. x.1) (agreed room agree) ∙ stored.1 a.unseen),
                )
              ]
      ]
