-- ===== src/Hotp/Resync.antt =====
-- `VerifyWithResync` over a static secret finds the first matching counter of its range.
use genotp_go.Base.{
  ℕ, zero, suc, ◌+◌, ◌^◌, ◌≤◌, ◌<◌, Bool, true, false, if◌then◌else◌, Bytes, [], length, ◌≡◌, ◌⊎◌,
  inl, inr, refl, arith, Bool-cases,
}
use genotp_go.Errors.{Result, ok}
use genotp_go.ConstantTime.{const_time_eq_bytes}
use genotp_go.ConstantTime.Equality.{IsSlice, const_time_eq_bytes_iff}
use genotp_go.Algorithm.{Hmac}
use genotp_go.Hotp.{Hotp, resync_loop, verify_with_resync, max_look_ahead}
use genotp_go.Hotp.Static.{IsValid, code_for, code_for-IsSlice, gen_digits_static}
use mathlib.Core.Path.{subst}
use native.Mathlib.Decide.{dec_lt}

module _ (h : Hmac) {W : Type 0} (t : Hotp W) (w : W) (code : Bytes) (counter : ℕ) where
  -- The code is that of the counter `counter + j`, which is still a uint64.
  abbrev pub MatchesAt : ℕ → Type 0
  MatchesAt j = (counter + j < 2 ^ 64) × (code ≡ code_for h t w (counter + j) [])

  -- The loop stopped at offset `k`, at the first match from offset `i` on.
  pub record FoundAt (i n : ℕ) (answer : Result (ℕ × Bool) × W) : Type 0 where
    pub k : ℕ
    pub from : i ≤ k
    pub within : k < i + n
    pub matches : MatchesAt k
    pub first : (j : ℕ) → i ≤ j → j < k → ¬ MatchesAt j
    pub is : answer ≡ (ok (counter + k, true), w)

  pub record MissedAt (i n : ℕ) (answer : Result (ℕ × Bool) × W) : Type 0 where
    pub none_matches : (j : ℕ) → i ≤ j → j < i + n → ¬ MatchesAt j
    pub is : answer ≡ (ok (0, false), w)

  module _ (v : IsValid t) (held : 0 < length t.runtime.secret) (slice : IsSlice code)
      (start : counter < 2 ^ 64) where
    round_overflow :
        (n i : ℕ)
        → i < 2 ^ 64
        → 2 ^ 64 ≤ counter + i
        → resync_loop h (suc n) t code counter i w ≡ (ok (0, false), w)
    unfolding resync_loop
    round_overflow n i hi over = ground arith

    round_compares :
        (n i : ℕ)
        → counter + i < 2 ^ 64
        → resync_loop h (suc n) t code counter i w ≡ (
            if const_time_eq_bytes code (code_for h t w (counter + i) [])
            then (ok (counter + i, true), w)
            else resync_loop h n t code counter (i + 1) w)
    unfolding resync_loop
    round_compares n i fits = ground (arith, gen_digits_static h t w (counter + i) [] v held)

    -- What one more round in front makes of an answer.
    found_later :
        (n i : ℕ) (answer : Result (ℕ × Bool) × W)
        → ¬ MatchesAt i
        → FoundAt (i + 1) n answer
        → FoundAt i (suc n) answer
    found_later n i answer no_match f = record {
      k = f.k;
      from = omega (arith, f.from);
      within = omega (arith, f.within);
      matches = f.matches;
      first = λ j lo hi. elim (dec_lt i j) [
        | yes after ↦ f.first j (omega arith) hi
        | no here ↦ subst (λ x. ¬ MatchesAt x) (omega arith) no_match
      ];
      is = f.is;
    }

    missed_later :
        (n i : ℕ) (answer : Result (ℕ × Bool) × W)
        → ¬ MatchesAt i
        → MissedAt (i + 1) n answer
        → MissedAt i (suc n) answer
    missed_later n i answer no_match m = record {
      none_matches = λ j lo hi. elim (dec_lt i j) [
        | yes after ↦ m.none_matches j (omega arith) (omega arith)
        | no here ↦ subst (λ x. ¬ MatchesAt x) (omega arith) no_match
      ];
      is = m.is;
    }

    resync_loop_lem :
        (n i : ℕ)
        → i + n ≤ 2 ^ 63
        → FoundAt i n (resync_loop h n t code counter i w)
          ⊎ MissedAt i n (resync_loop h n t code counter i w)
    resync_loop_lem zero i room =
        inr (record {
          none_matches = λ j lo hi. absurd (omega arith);
          is = unfold resync_loop in refl;
        })
    resync_loop_lem (suc n) i room = elim (dec_lt (counter + i) (2 ^ 64)) [
      | no over ↦ inr (record {
        none_matches = λ j lo hi m. over (omega (arith, m.0));
        is = round_overflow n i (omega arith) (omega arith);
      })
      | yes fits ↦
          let expected = code_for h t w (counter + i) [] in
          let same =
            const_time_eq_bytes_iff code expected slice
              (code_for-IsSlice h t w (counter + i) [] v) in
          elim (Bool-cases (const_time_eq_bytes code expected)) [
            | inl hit ↦ inl (record {
              k = i;
              from = omega arith;
              within = omega arith;
              matches = (fits, same.0 hit);
              first = λ j lo hi. absurd (omega arith);
              is = rw (round_compares n i fits, hit);
            })
            | inr miss ↦
                let differs : ¬ MatchesAt i = λ m. cc (same.1 m.1) in
                rw (round_compares n i fits, miss)
                  (elim (resync_loop_lem n (i + 1) (omega arith)) [
                    | inl f ↦ inl (found_later n i _ differs f)
                    | inr m ↦ inr (missed_later n i _ differs m)
                  ])
          ]
    ]

    -- Over a valid generator with a static secret that was not cleared, and a uint64 counter,
    -- `VerifyWithResync` with a look-ahead of at most 10000 returns the first counter of the range
    -- from `counter` to `counter + look_ahead` whose code was submitted, and (0, false) when none of
    -- them has that code; a counter that leaves the uint64 range is never tried.
    pub verify_with_resync_first :
        (look_ahead : ℕ)
        → t.cleared ≡ false
        → look_ahead ≤ max_look_ahead
        → FoundAt 0 (look_ahead + 1) (verify_with_resync h t code counter look_ahead w)
          ⊎ MissedAt 0 (look_ahead + 1) (verify_with_resync h t code counter look_ahead w)
    verify_with_resync_first look_ahead live small =
        rw (starts look_ahead live small) (resync_loop_lem (look_ahead + 1) 0 (omega arith))
      where
        starts :
            (n : ℕ)
            → t.cleared ≡ false
            → n ≤ max_look_ahead
            → verify_with_resync h t code counter n w ≡ resync_loop h (n + 1) t code counter 0 w
        starts n live small = unfold verify_with_resync in ground arith
