-- ===== src/Verifier/Sections.antt =====
-- `verifyInner` of several goroutines: what one of them does between two points at which another may
-- go on. Each locked section, the comparison without a lock, and the call of the store is one step.
use genotp_go.Base.{
  ℕ, zero, suc, Bool, true, false, not, ◌||◌, leb, if◌then◌else◌, [], Bytes, ◌≡◌, refl, ap, ◌∙◌,
  inl, inr, Bool-cases,
}
use genotp_go.Base.Int.{ℤ}
use genotp_go.Errors.{Result, ok, err, panic}
use genotp_go.ConstantTime.{const_time_eq_bytes, constant_time_eq}
use genotp_go.Replay.{ReplayStore}
use genotp_go.Verifier.{
  Verifier, replay_key, count_failure, reset_attempts, after_store, verify_inner,
}

pub record VerifyCall : Type 0 where
  pub code : Bytes
  pub expected : Bytes
  pub issued_context : Bytes
  pub request_context : Bytes

-- Where a goroutine stands: outside of `verifyInner`, before the check of the limit, before the
-- comparison, before the store, before one of the two last sections, or after its answer.
pub data Phase : Type 0 where
  idle : Phase
  entered passed matched : VerifyCall → Phase
  failing succeeding panicked : Phase
  answered : Bool → Phase

module _ {S : Type 0} (replay : ReplayStore S) where
  unfoldable pub stored : Verifier S → S × Result Bool → Verifier S × Phase
  stored v (store, ok true) = (record v { store = store }, succeeding)
  stored v (store, ok false) = (record v { store = store }, failing)
  stored v (store, err e) = (record v { store = store }, failing)
  stored v (store, panic) = (record v { store = store }, panicked)

  -- The next step of a goroutine, from a verifier that others may have changed.
  unfoldable pub section : Verifier S → ℤ → Phase → Verifier S × Phase
  section v now (entered c) =
      if leb v.max_attempts v.attempts then (v, answered false) else (v, passed c)
  section v now (passed c) =
      if not (const_time_eq_bytes c.issued_context c.request_context)
        || not (constant_time_eq c.code c.expected)
      then (v, failing)
      else (v, matched c)
  section v now (matched c) =
      stored v (replay.check_and_record v.store now (replay_key [] c.code c.issued_context) v.ttl)
  section v now failing = (count_failure v, answered false)
  section v now succeeding = (reset_attempts v, answered true)
  section v now idle = (v, idle)
  section v now (answered b) = (v, answered b)
  section v now panicked = (v, panicked)

  -- A goroutine that is not interrupted.
  unfoldable alone : ℕ → ℤ → Verifier S × Phase → Verifier S × Phase
  alone zero now state = state
  alone (suc n) now (v, p) = alone n now (section v now p)

  abbrev phase_of : Result Bool → Phase
  phase_of (ok b) = answered b
  phase_of (err e) = panicked
  phase_of panic = panicked

  abbrev settled : Verifier S × Result Bool → Verifier S × Phase
  settled (v, r) = (v, phase_of r)

  after_stored :
      (v : Verifier S) (now : ℤ) (out : S × Result Bool)
      → alone 1 now (stored v out) ≡ settled (after_store replay v out)
  unfolding alone section stored after_store reset_attempts
  after_stored v now (store, ok true) = refl
  after_stored v now (store, ok false) = refl
  after_stored v now (store, err e) = refl
  after_stored v now (store, panic) = refl

  abbrev mismatch : VerifyCall → Bool
  mismatch c =
      not (const_time_eq_bytes c.issued_context c.request_context)
      || not (constant_time_eq c.code c.expected)

  entered_room :
      (v : Verifier S) (now : ℤ) (c : VerifyCall)
      → leb v.max_attempts v.attempts ≡ false
      → section v now (entered c) ≡ (v, passed c)
  unfolding section
  entered_room v now c room = rw room refl

  passed_on :
      (v : Verifier S) (now : ℤ) (c : VerifyCall) (b : Bool)
      → mismatch c ≡ b
      → section v now (passed c) ≡ (v, if b then failing else matched c)
  unfolding section
  passed_on v now c true e = rw e refl
  passed_on v now c false e = rw e refl

  rest_alone :
      (v : Verifier S) (now : ℤ) (c : VerifyCall) (b : Bool)
      → mismatch c ≡ b
      → alone 2 now (v, if b then failing else matched c)
        ≡ settled (
            if b
            then (count_failure v, ok false)
            else after_store replay v
                (replay.check_and_record v.store now (replay_key [] c.code c.issued_context) v.ttl))
  rest_alone v now c true e = unfold alone section in refl
  rest_alone v now c false e =
      opened
      ∙ after_stored v now
          (replay.check_and_record v.store now (replay_key [] c.code c.issued_context) v.ttl)
    where
      opened :
          alone 2 now (v, matched c)
          ≡ alone 1 now (
              stored v
                (replay.check_and_record v.store now (replay_key [] c.code c.issued_context) v.ttl))
      opened = unfold alone section in refl

  again :
      (n : ℕ) (now : ℤ) (v : Verifier S) (p : Phase)
      → alone (suc n) now (v, p) ≡ alone n now (section v now p)
  unfolding alone
  again n now v p = refl

  -- Four steps without an interruption are `verifyInner` as a whole: the same verifier, and its answer
  -- or its panic.
  alone-verify_inner :
      (v : Verifier S) (now : ℤ) (c : VerifyCall)
      → alone 4 now (v, entered c)
        ≡ settled (verify_inner replay v now c.code c.expected c.issued_context c.request_context)
  unfolding verify_inner
  alone-verify_inner v now c = elim (Bool-cases (leb v.max_attempts v.attempts)) [
    | inl full ↦ rw full (unfold alone section in rw full refl)
    | inr room ↦
        again 3 now v (entered c)
        ∙ ap (alone 3 now) (entered_room v now c room)
        ∙ again 2 now v (passed c)
        ∙ ap (alone 2 now) (passed_on v now c (mismatch c) refl)
        ∙ rest_alone v now c (mismatch c) refl
        ∙ rw room refl
  ]
