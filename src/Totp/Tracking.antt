-- ===== src/Totp/Tracking.antt =====
-- `VerifyTracking` over a static secret stops at the first matching step of its window and records
-- the offset of that step.
use genotp_go.Base.{
  ℕ, zero, suc, ◌+◌, ◌*◌, ◌/◌, ◌^◌, ◌≤◌, ◌<◌, Bool, true, false, if◌then◌else◌, Bytes, [], length,
  Option, none, some, ◌≡◌, ◌⊎◌, inl, inr, refl, sym, ap, ◌∙◌, arith, Bool-cases, Option-cases,
}
use genotp_go.Base.Int.{ℤ, pos, negsuc, sub_ℕ, pos_part, neg_part}
use genotp_go.Errors.{Result, ok, ◌>>=◌}
use genotp_go.ConstantTime.{const_time_eq_bytes}
use genotp_go.ConstantTime.Equality.{IsSlice, const_time_eq_bytes_iff}
use genotp_go.Algorithm.{Hmac}
use genotp_go.Totp.{
  Totp, Detector, now_or, adjusted_counter, checked_add_signed, tracking_loop, verify_tracking,
}
use genotp_go.Totp.Counter.{next_offset}
use genotp_go.Totp.Static.{IsValid, code_for, code_for-IsSlice, gen_digits_static, counter_at_lem}
use mathlib.Core.Path.{subst}
use native.Mathlib.Decide.{dec_lt}

-- The step from which the rounds are counted: the time's own step plus the offset where that sum is
-- a uint64, else the time's own step.
abbrev pub IsCentre : ℕ → ℤ → ℕ → Type 0
IsCentre base offset c =
    ((c < 2 ^ 64) × (c + neg_part offset ≡ base + pos_part offset))
    ⊎ (((base + pos_part offset < neg_part offset)
          ⊎ (2 ^ 64 + neg_part offset ≤ base + pos_part offset))
        × (c ≡ base))

adjusted_counter-IsCentre :
    (base : ℕ) (offset : ℤ)
    → base < 2 ^ 64
    → pos_part offset < 2 ^ 63
    → IsCentre base offset (adjusted_counter base offset)
unfolding adjusted_counter checked_add_signed
adjusted_counter-IsCentre base (pos d) h1 h2 = ground arith
adjusted_counter-IsCentre base (negsuc n) h1 h2 = ground arith

centre-lt : (base : ℕ) (offset : ℤ) (c : ℕ) → base < 2 ^ 64 → IsCentre base offset c → c < 2 ^ 64
centre-lt base offset c h (inl inside) = inside.0
centre-lt base offset c h (inr outside) = omega (arith, outside.1)

-- The step of a round, and that a round has none.
tried_some :
    (adjusted window k c : ℕ)
    → adjusted < 2 ^ 64
    → k < 2 ^ 63
    → checked_add_signed adjusted (sub_ℕ k window) ≡ some c
    → (c < 2 ^ 64) × (c + window ≡ adjusted + k)
unfolding checked_add_signed
tried_some adjusted window k c h1 h2 e = ground arith

tried_none :
    (adjusted window k c : ℕ)
    → adjusted < 2 ^ 64
    → k < 2 ^ 63
    → checked_add_signed adjusted (sub_ℕ k window) ≡ none
    → c < 2 ^ 64
    → ¬ (c + window ≡ adjusted + k)
unfolding checked_add_signed
tried_none adjusted window k c h1 h2 e h3 same = ground arith

no_truth : ¬ (true ≡ false)
no_truth e = ground (arith, e)

module _ (h : Hmac) {W : Type 0} (t : Totp W) (w : W) (code : Bytes) {D : Type 0}
    (detector : Detector D) (window : ℕ) (d : D) (adjusted : ℕ) where
  -- The step that round `k` tries, `k - window` steps from the middle, is a uint64 and has the
  -- submitted code.
  abbrev pub MatchesAt : ℕ → Type 0
  MatchesAt k = (c : ℕ) × (c < 2 ^ 64) × (c + window ≡ adjusted + k) × (code ≡ code_for h t w c [])

  -- The answer after a match in round `k`: true, with the match recorded in the detector.
  abbrev pub recorded : ℕ → Result (Bool × D) × W
  recorded k = (detector.record_match (sub_ℕ k window) window d >>= (λ d'. ok (true, d')), w)

  pub record FoundAt (i n : ℕ) (answer : Result (Bool × D) × W) : Type 0 where
    pub k : ℕ
    pub from : i ≤ k
    pub within : k < i + n
    pub matches : MatchesAt k
    pub first : (j : ℕ) → i ≤ j → j < k → ¬ MatchesAt j
    pub is : answer ≡ recorded k

  pub record MissedAt (i n : ℕ) (answer : Result (Bool × D) × W) : Type 0 where
    pub none_matches : (j : ℕ) → i ≤ j → j < i + n → ¬ MatchesAt j
    pub is : answer ≡ (ok (false, d), w)

  abbrev pub Tracks : ℕ → ℕ → Result (Bool × D) × W → Type 0
  Tracks i n answer = FoundAt i n answer ⊎ MissedAt i n answer

  -- One more round in front that does not match.
  later :
      (n i : ℕ) (answer : Result (Bool × D) × W)
      → ¬ MatchesAt i
      → Tracks (i + 1) n answer
      → Tracks i (suc n) answer
  later n i answer no_match (inl f) = inl (record {
    k = f.k;
    from = omega (arith, f.from);
    within = omega (arith, f.within);
    matches = f.matches;
    first = λ j lo hi. elim (dec_lt i j) [
      | yes after ↦ f.first j (omega arith) hi
      | no here ↦ subst (λ x. ¬ MatchesAt x) (omega arith) no_match
    ];
    is = f.is;
  })
  later n i answer no_match (inr m) = inr (record {
    none_matches = λ j lo hi. elim (dec_lt i j) [
      | yes after ↦ m.none_matches j (omega arith) (omega arith)
      | no here ↦ subst (λ x. ¬ MatchesAt x) (omega arith) no_match
    ];
    is = m.is;
  })

  module _ (v : IsValid t) (held : 0 < length t.runtime.secret) (slice : IsSlice code)
      (fits : adjusted < 2 ^ 64) where
    round_skips :
        (n i : ℕ)
        → checked_add_signed adjusted (sub_ℕ i window) ≡ none
        → tracking_loop h detector (suc n) t code adjusted window (sub_ℕ i window) d w
          ≡ tracking_loop h detector n t code adjusted window (sub_ℕ (i + 1) window) d w
    unfolding tracking_loop
    round_skips n i out = rw (← next_offset i window) (ground (arith, out))

    round_compares :
        (n i c : ℕ)
        → checked_add_signed adjusted (sub_ℕ i window) ≡ some c
        → tracking_loop h detector (suc n) t code adjusted window (sub_ℕ i window) d w ≡ (
            if const_time_eq_bytes code (code_for h t w c [])
            then recorded i
            else tracking_loop h detector n t code adjusted window (sub_ℕ (i + 1) window) d w)
    unfolding tracking_loop
    round_compares n i c is =
        rw (← next_offset i window) (ground (arith, is, gen_digits_static h t w c [] v held))

    tracking_loop_lem :
        (n i : ℕ)
        → i + n < 2 ^ 63
        → Tracks i n (tracking_loop h detector n t code adjusted window (sub_ℕ i window) d w)
    tracking_loop_lem zero i small = inr (record {
      none_matches = λ j lo hi. absurd (omega arith);
      is = unfold tracking_loop in refl;
    })
    tracking_loop_lem (suc n) i small =
        let rest = tracking_loop h detector n t code adjusted window (sub_ℕ (i + 1) window) d w in
        let tail = tracking_loop_lem n (i + 1) (omega arith) in
        elim (Option-cases (checked_add_signed adjusted (sub_ℕ i window))) [
          | inl out ↦ rw (round_skips n i out) (
              later n i rest (λ m. tried_none adjusted window i m.0 fits (omega arith) out m.1 m.2)
                tail)
          | inr (c, is) ↦
              let step = tried_some adjusted window i c fits (omega arith) is in
              let same =
                const_time_eq_bytes_iff code (code_for h t w c []) slice
                  (code_for-IsSlice h t w c [] v) in
              elim (Bool-cases (const_time_eq_bytes code (code_for h t w c []))) [
                | inl hit ↦ inl (record {
                  k = i;
                  from = omega arith;
                  within = omega arith;
                  matches = (c, step.0, step.1, same.0 hit);
                  first = λ j lo hi. absurd (omega arith);
                  is = rw (round_compares n i c is, hit);
                })
                | inr miss ↦
                    rw (round_compares n i c is, miss)
                      (later n i rest
                        (λ m. absurd (
                          no_truth (
                            sym (
                              same.1
                                (m.3 ∙ ap (λ x. code_for h t w x []) (omega (arith, m.2, step.1))))
                            ∙ miss)))
                        tail)
              ]
        ]

starts :
    (h : Hmac) {W : Type 0} (t : Totp W) (w : W) (code : Bytes) {D : Type 0} (detector : Detector D)
    (window : ℕ) (d : D) (now : ℤ) (time_val : Option ℕ)
    → IsValid t
    → t.cleared ≡ false
    → window ≤ 1000
    → verify_tracking h detector t now code time_val window d w
      ≡ tracking_loop h detector
          (2 * window + 1)
          t
          code
          (adjusted_counter (now_or now time_val / t.period) (detector.current_offset d))
          window
          (sub_ℕ 0 window)
          d
          w
unfolding verify_tracking
starts h t w code detector window d now time_val v live small =
    ground (arith, counter_at_lem h t w now time_val v)

-- On a valid generator with a static secret that was not cleared, for any submitted bytes, at a uint64
-- time, with an int64 offset in the detector and a window of at most 1000 steps, `VerifyTracking`
-- takes as its middle the time's own step plus the detector's offset, or the time's own step where
-- that sum is no uint64, and tries the steps around the middle from the lowest one on, leaving out
-- those that are no uint64: at the first one with the submitted code it records the offset from the
-- middle in the detector and answers true, and where there is none it answers false and leaves the
-- detector alone.
pub verify_tracking-Tracks :
    (h : Hmac) {W : Type 0} (t : Totp W) (w : W) (code : Bytes) {D : Type 0} (detector : Detector D)
    (window : ℕ) (d : D) (now : ℤ) (time_val : Option ℕ)
    → IsValid t
    → 0 < length t.runtime.secret
    → t.cleared ≡ false
    → IsSlice code
    → window ≤ 1000
    → now_or now time_val < 2 ^ 64
    → pos_part (detector.current_offset d) < 2 ^ 63
    → (c : ℕ) × IsCentre (now_or now time_val / t.period) (detector.current_offset d) c
      × Tracks h t w code detector window d c 0
          (2 * window + 1)
          (verify_tracking h detector t now code time_val window d w)
verify_tracking-Tracks h t w code detector window d now time_val v held live slice small time_fits
      offset_fits =
    let base = now_or now time_val / t.period in
    let offset = detector.current_offset d in
    let fits : base < 2 ^ 64 = omega (arith, time_fits) in
    let centre = adjusted_counter-IsCentre base offset fits offset_fits in
    (
      adjusted_counter base offset,
      centre,
      rw (starts h t w code detector window d now time_val v live small) (
          tracking_loop_lem h t w code detector window d (adjusted_counter base offset) v held slice
            (centre-lt base offset (adjusted_counter base offset) fits centre) (2 * window + 1) 0
            (omega arith)),
    )
