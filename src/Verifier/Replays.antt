-- ===== src/Verifier/Replays.antt =====
-- The verifier over the store in memory: an accepted code is refused when it comes again, and codes
-- are told apart by their replay keys.
use genotp_go.Base.{
  first_separator, ◌+◌, ◌/◌, ◌≤◌, max, Bool, true, false, not, ◌&&◌, List, [], ◌∷◌, length, Bytes,
  All, ◌≡◌, ◌≢◌, ◌⊎◌, refl, sym, ap, ◌∙◌, inl, inr, arith, Bool-cases,
}
use mathlib.Core.List.{append_assoc}
use genotp_go.Base.Int.{ℤ, ◌<ℤ◌}
use genotp_go.ConstantTime.{const_time_eq_bytes, constant_time_eq}
use genotp_go.Errors.{Result, ok, err, panic}
use genotp_go.Replay.{InMemoryReplayStore, add_int64, check_and_record, is_live, in_memory}
use genotp_go.Replay.Invariant.{IsWell}
use genotp_go.Replay.Live.{check_and_record_answer}
use genotp_go.Replay.Retention
use genotp_go.Replay.Retention.{Call, check_and_record_retains}
use genotp_go.Verifier.{Verifier, replay_key, count_failure, after_store}
use genotp_go.Verifier.Outcome.{
  ≤-cases, no_refusal, after_store-accepts, verify_inner_limited, verify_inner_mismatch,
  verify_inner_match,
}
use genotp_go.Verifier.Limit.{Attempt, attempt, run}

abbrev V : Type 0
V = Verifier InMemoryReplayStore

abbrev key_of : Attempt → Bytes
key_of a = replay_key [] a.code a.issued

-- The call of the store that an attempt makes where it comes so far.
abbrev stored : V → Attempt → InMemoryReplayStore × Result Bool
stored v a = check_and_record v.store a.time (key_of a) v.ttl

agrees : Attempt → Bool
agrees a = const_time_eq_bytes a.issued a.request && constant_time_eq a.code a.expected

after_store-store :
    (v : V) (r : InMemoryReplayStore × Result Bool)
    → ((after_store in_memory v r).0.store ≡ r.0) × ((after_store in_memory v r).0.ttl ≡ v.ttl)
unfolding after_store count_failure
after_store-store v (s, ok true) = (refl, refl)
after_store-store v (s, ok false) = (refl, refl)
after_store-store v (s, err e) = (refl, refl)
after_store-store v (s, panic) = (refl, refl)

after_store-refuses :
    (v : V) (r : InMemoryReplayStore × Result Bool)
    → r.1 ≡ ok false
    → (after_store in_memory v r).1 ≡ ok false
unfolding after_store
after_store-refuses v (s, ok true) h = absurd (no_refusal (sym h))
after_store-refuses v (s, ok false) h = refl
after_store-refuses v (s, err e) h = refl
after_store-refuses v (s, panic) h = h

-- How the store changes in an attempt.
pub record Stores (v : V) (a : Attempt) : Type 0 where
  pub change :
      ((attempt in_memory v a).0.store ≡ v.store)
      ⊎ ((attempt in_memory v a).0.store ≡ (stored v a).0)
  pub same_ttl : (attempt in_memory v a).0.ttl ≡ v.ttl

attempt-Stores : (v : V) (a : Attempt) → Stores v a
unfolding count_failure agrees
attempt-Stores v a = elim (≤-cases v.max_attempts v.attempts) [
  | inl full ↦
      let e = verify_inner_limited in_memory v a.time a.code a.expected a.issued a.request full in
      record { change = inl (ap (λ x. x.0.store) e); same_ttl = ap (λ x. x.0.ttl) e }
  | inr room ↦ elim (Bool-cases (agrees a)) [
    | inr differ ↦
        let e =
          verify_inner_mismatch in_memory v a.time a.code a.expected a.issued a.request room
            differ in
        record { change = inl (ap (λ x. x.0.store) e); same_ttl = ap (λ x. x.0.ttl) e }
    | inl agree ↦
        let e =
          verify_inner_match in_memory v a.time a.code a.expected a.issued a.request room agree in
        let (s, l) = after_store-store v (stored v a) in
        record { change = inr (ap (λ x. x.0.store) e ∙ s); same_ttl = ap (λ x. x.0.ttl) e ∙ l }
  ]
]

-- An accepted attempt was stored as a new key.
pub record Accepts (v : V) (a : Attempt) : Type 0 where
  pub stores : (attempt in_memory v a).0.store ≡ (stored v a).0
  pub unseen : (stored v a).1 ≡ ok true

accepted-Accepts : (v : V) (a : Attempt) → (attempt in_memory v a).1 ≡ ok true → Accepts v a
unfolding agrees
accepted-Accepts v a accepted = elim (≤-cases v.max_attempts v.attempts) [
  | inl full ↦
      let e = verify_inner_limited in_memory v a.time a.code a.expected a.issued a.request full in
      absurd (no_refusal (sym (ap (λ x. x.1) e) ∙ accepted))
  | inr room ↦ elim (Bool-cases (agrees a)) [
    | inr differ ↦
        let e =
          verify_inner_mismatch in_memory v a.time a.code a.expected a.issued a.request room
            differ in
        absurd (no_refusal (sym (ap (λ x. x.1) e) ∙ accepted))
    | inl agree ↦
        let e =
          verify_inner_match in_memory v a.time a.code a.expected a.issued a.request room agree in
        record {
          stores = ap (λ x. x.0.store) e ∙ (after_store-store v (stored v a)).0;
          unseen =
              (after_store-accepts in_memory v (stored v a)).0 (sym (ap (λ x. x.1) e) ∙ accepted);
        }
  ]
]

-- An attempt whose key the store knows is refused.
seen_refused :
    (v : V) (a : Attempt) → (stored v a).1 ≡ ok false → (attempt in_memory v a).1 ≡ ok false
unfolding agrees
seen_refused v a seen = elim (≤-cases v.max_attempts v.attempts) [
  | inl full ↦
      ap (λ x. x.1)
        (verify_inner_limited in_memory v a.time a.code a.expected a.issued a.request full)
  | inr room ↦ elim (Bool-cases (agrees a)) [
    | inr differ ↦
        ap (λ x. x.1)
          (verify_inner_mismatch in_memory v a.time a.code a.expected a.issued a.request room
            differ)
    | inl agree ↦
        ap (λ x. x.1)
          (verify_inner_match in_memory v a.time a.code a.expected a.issued a.request room agree)
        ∙ after_store-refuses v (stored v a) seen
  ]
]

-- The calls of the store in a run of attempts.
record Traced (exp : ℤ) (v : V) (rest : List Attempt) : Type 0 where
  calls : List Call
  end : (run in_memory v rest).store ≡ Retention.run v.store calls
  early : All (λ c. c.time <ℤ exp) calls
  short : length calls ≤ length rest
  same_ttl : (run in_memory v rest).ttl ≡ v.ttl

run-Traced :
    (exp : ℤ) (v : V) (rest : List Attempt) → All (λ a. a.time <ℤ exp) rest → Traced exp v rest
unfolding run Retention.run
run-Traced exp v [] early = record {
  calls = [];
  end = refl;
  early = tt;
  short = omega arith;
  same_ttl = refl;
}
run-Traced exp v (a ∷ rest) early =
    let t = run-Traced exp (attempt in_memory v a).0 rest early.1 in
    let s = attempt-Stores v a in
    elim s.change [
      | inl same ↦ record {
        calls = t.calls;
        end = t.end ∙ ap (λ x. Retention.run x t.calls) same;
        early = t.early;
        short = omega (arith, t.short);
        same_ttl = t.same_ttl ∙ s.same_ttl;
      }
      | inr called ↦ record {
        calls = record { time = a.time; name = key_of a; ttl = v.ttl } ∷ t.calls;
        end = t.end ∙ ap (λ x. Retention.run x t.calls) called;
        early = (early.0, t.early);
        short = omega (arith, t.short);
        same_ttl = t.same_ttl ∙ s.same_ttl;
      }
    ]

-- A code that the verifier accepted over a well-formed store in memory is refused when it comes
-- again in the same context before the time to live is over, whatever else was tried in between:
-- as long as the attempts in between, all before that time too, number at most the store's
-- capacity less the largest batch of an eviction.
pub verify_inner_refuses_replay :
    (v : V) (first : Attempt) (rest : List Attempt) (again : Attempt)
    → IsWell v.store
    → (attempt in_memory v first).1 ≡ ok true
    → All (λ a. a.time <ℤ add_int64 first.time v.ttl) rest
    → again.time <ℤ add_int64 first.time v.ttl
    → again.code ≡ first.code
    → again.issued ≡ first.issued
    → max (v.store.max_size / 10) 1 + length rest ≤ v.store.max_size
    → (attempt in_memory (run in_memory (attempt in_memory v first).0 rest) again).1 ≡ ok false
verify_inner_refuses_replay v first rest again w accepted early late code issued room =
    let v1 = (attempt in_memory v first).0 in
    let v2 = run in_memory v1 rest in
    let a = accepted-Accepts v first accepted in
    let t = run-Traced (add_int64 first.time v.ttl) v1 rest early in
    let fresh : is_live v.store first.time (key_of first) ≡ false =
      not_refused (is_live v.store first.time (key_of first))
        (sym (check_and_record_answer v.store first.time (key_of first) v.ttl w) ∙ a.unseen) in
    seen_refused v2 again (
      ap (λ k. (check_and_record v2.store again.time k v2.ttl).1)
        (ap2_key again.code first.code code again.issued first.issued issued)
      ∙ ap (λ s. (check_and_record s again.time (key_of first) v2.ttl).1)
          (t.end ∙ ap (λ s. Retention.run s t.calls) a.stores)
      ∙ check_and_record_retains v.store first.time (key_of first) v.ttl t.calls again.time v2.ttl w
          fresh t.early late (omega (arith, room, t.short)))
  where
    not_refused : (b : Bool) → ok (not b) ≡ ok true → b ≡ false
    not_refused true e = absurd (no_refusal e)
    not_refused false e = refl

    ap2_key :
        (c c' : Bytes) → c ≡ c' → (i i' : Bytes) → i ≡ i' → replay_key [] c i ≡ replay_key [] c' i'
    ap2_key c c' e i i' f = ap (λ x. replay_key [] x i) e ∙ ap (replay_key [] c') f

-- The replay key tells apart codes without a NUL byte, and their contexts.
pub replay_key-injective :
    (code code' context context' : Bytes)
    → All (λ b. b ≢ 0) code
    → All (λ b. b ≢ 0) code'
    → replay_key [] code context ≡ replay_key [] code' context'
    → (code ≡ code') × (context ≡ context')
unfolding replay_key
replay_key-injective code code' context context' h h' e =
    first_separator 0 code code' context context' h h'
      (sym (append_assoc code (0 ∷ []) context) ∙ e ∙ append_assoc code' (0 ∷ []) context')
