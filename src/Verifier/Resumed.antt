-- ===== src/Verifier/Resumed.antt =====
-- `verifyInner` of a goroutine that others interrupt between its sections: when it accepts.
use genotp_go.Base.{
  ◌≤◌, ◌<◌, Bool, true, false, ◌&&◌, List, [], ◌∷◌, ◌≡◌, ◌↔◌, refl, sym, ◌∙◌, inl, inr, arith,
  Bool-cases,
}
use genotp_go.Base.Int.{ℤ}
use genotp_go.ConstantTime.{const_time_eq_bytes, constant_time_eq}
use genotp_go.ConstantTime.Equality.{IsSlice, const_time_eq_bytes_iff}
use genotp_go.Errors.{Result, ok, err, panic}
use genotp_go.Replay.{ReplayStore}
use genotp_go.Verifier.{Verifier, replay_key}
use genotp_go.Verifier.Outcome.{first_seen, ≤-cases}
use genotp_go.Verifier.Sections.{VerifyCall, Phase, entered, answered, section, stored}

module _ {S : Type 0} (replay : ReplayStore S) where
  -- The steps of one goroutine: each begins with the verifier that it finds, and the time it reads.
  unfoldable pub resumed : List (Verifier S × ℤ) → Phase → Phase
  resumed [] p = p
  resumed ((v, now) ∷ found) p = resumed found (section replay v now p).1

  -- What an acceptance needs: of the verifier that the first step finds, of the call, and of the
  -- store that the third step finds.
  pub record IsPassed (first third : Verifier S) (now : ℤ) (c : VerifyCall) : Type 0 where
    pub unlimited : first.attempts < first.max_attempts
    pub same_context : c.issued_context ≡ c.request_context
    pub right_code : c.code ≡ c.expected
    pub unseen : first_seen replay third now c.code c.issued_context ≡ ok true

  refused : ¬ (answered false ≡ answered true)
  refused e = ground (arith, e)

  module _ (found : Verifier S × ℤ) where
    -- What comes of the answer of the store in the last step.
    stored_answer :
        (v : Verifier S) (out : S × Result Bool)
        → (resumed (found ∷ []) (stored replay v out).1 ≡ answered true) ↔ (out.1 ≡ ok true)
    unfolding resumed section stored
    stored_answer v (s, ok true) = ((λ _. refl), (λ _. refl))
    stored_answer v (s, ok false) = ground arith
    stored_answer v (s, err e) = ground arith
    stored_answer v (s, panic) = ground arith

  module _ (v1 v2 v3 v4 : Verifier S) (n1 n2 n3 n4 : ℤ) (c : VerifyCall) where
    four : Phase
    four = resumed ((v1, n1) ∷ (v2, n2) ∷ (v3, n3) ∷ (v4, n4) ∷ []) (entered c)

    four_limited : v1.max_attempts ≤ v1.attempts → four ≡ answered false
    unfolding resumed section four
    four_limited h = ground (arith, h)

    four_mismatch :
        v1.attempts < v1.max_attempts
        → const_time_eq_bytes c.issued_context c.request_context
            && constant_time_eq c.code c.expected
          ≡ false
        → four ≡ answered false
    unfolding resumed section four
    four_mismatch h m = ground (arith, h, m)

    four_match :
        v1.attempts < v1.max_attempts
        → const_time_eq_bytes c.issued_context c.request_context
            && constant_time_eq c.code c.expected
          ≡ true
        → four
          ≡ resumed
              ((v4, n4) ∷ [])
              (stored replay v3 (
                replay.check_and_record v3.store n3
                  (replay_key [] c.code c.issued_context)
                  v3.ttl)).1
    unfolding resumed section four
    four_match h m = ground (arith, h, m)

    -- A goroutine in `verifyInner` that is interrupted between its four sections, and finds at each of
    -- them a verifier and a time of any kind, accepts exactly where the first one found fewer failures
    -- than the limit, the request has the context of the issue, the code is the expected one (as slices
    -- of bytes, shorter than 2^63), and the store that the third one found had not seen the code in
    -- this context. What the others did to the count of failures after the first section is not looked at.
    pub resumed-accepts_iff :
        IsSlice c.code
        → IsSlice c.expected
        → IsSlice c.issued_context
        → IsSlice c.request_context
        → (resumed ((v1, n1) ∷ (v2, n2) ∷ (v3, n3) ∷ (v4, n4) ∷ []) (entered c) ≡ answered true)
          ↔ IsPassed v1 v3 n3 c
    unfolding constant_time_eq four
    resumed-accepts_iff h1 h2 h3 h4 =
        let same_context = const_time_eq_bytes_iff c.issued_context c.request_context h3 h4 in
        let same_code = const_time_eq_bytes_iff c.code c.expected h1 h2 in
        let settled =
          stored_answer (v4, n4) v3
            (replay.check_and_record v3.store n3 (replay_key [] c.code c.issued_context) v3.ttl) in
        elim (≤-cases v1.max_attempts v1.attempts) [
          | inl full ↦ (
            (λ e. absurd (refused (sym (four_limited full) ∙ e))),
            (λ p. absurd (omega (arith, full, p.unlimited))),
          )
          | inr room ↦
              elim (Bool-cases (
                const_time_eq_bytes c.issued_context c.request_context
                && constant_time_eq c.code c.expected)) [
                  | inr differ ↦ (
                    (λ e. absurd (refused (sym (four_mismatch room differ) ∙ e))),
                    (λ p. absurd (
                        ground (
                          arith,
                          differ,
                          same_context.1 p.same_context,
                          same_code.1 p.right_code,
                        ))),
                  )
                  | inl agree ↦ (
                    (λ e. record {
                      unlimited = room;
                      same_context = same_context.0 (ground (arith, agree));
                      right_code = same_code.0 (ground (arith, agree));
                      unseen = settled.0 (sym (four_match room agree) ∙ e);
                    }),
                    (λ p. four_match room agree ∙ settled.1 p.unseen),
                  )
                ]
        ]
