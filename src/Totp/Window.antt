-- ===== src/Totp/Window.antt =====
-- `Verify` and `VerifyBound` over a static secret accept exactly the codes of the window.
use genotp_go.Base.{
  ℕ, zero, suc, ◌+◌, ◌-◌, ◌*◌, ◌/◌, ◌^◌, ◌≤◌, ◌<◌, bit_or, not, ◌==◌, Bool, true, false, Bytes, [],
  length, Option, ◌≡◌, ◌≢◌, ◌⊎◌, inl, inr, ◌↔◌, refl, ◌∙◌, arith, Bool-cases,
}
use genotp_go.Base.Bits.{le-bit_or, zero-bit_or}
use genotp_go.Base.Int.{ℤ, sub_ℕ}
use genotp_go.Errors.{Result, ok, err, invalid_time}
use genotp_go.ConstantTime.{const_time_eq_bytes, constant_time_eq_byte_result}
use genotp_go.ConstantTime.Equality.{
  IsSlice, const_time_eq_bytes_iff, constant_time_eq_byte_result_lem,
}
use genotp_go.Algorithm.{Hmac}
use genotp_go.Context.{OtpContext, context_bytes}
use mathlib.Core.Path.{subst}
use native.Mathlib.Decide.{dec_lt}
use genotp_go.Totp.{Totp, now_or, add_counter_signed, verify_loop, verify, verify_bound, minus}
use genotp_go.Totp.Counter.{next_offset, round_counter}
use genotp_go.Totp.Static.{IsValid, code_for, code_for-IsSlice, gen_digits_static, counter_at_lem}

bit_or_pos : (a b : ℕ) → (bit_or a b ≢ 0) ↔ ((a ≢ 0) ⊎ (b ≢ 0))
bit_or_pos a b = (split a, join)
  where
    split : (x : ℕ) → bit_or x b ≢ 0 → (x ≢ 0) ⊎ (b ≢ 0)
    split zero h = inr (omega (arith, zero-bit_or b))
    split (suc x) h = inl (omega arith)

    join : (a ≢ 0) ⊎ (b ≢ 0) → bit_or a b ≢ 0
    join (inl p) = omega (arith, le-bit_or a b)
    join (inr p) = omega (arith, le-bit_or a b)

result_iff :
    (a b : Bytes) → IsSlice a → IsSlice b → (constant_time_eq_byte_result a b ≢ 0) ↔ (a ≡ b)
result_iff a b ha hb =
    let same = const_time_eq_bytes_iff a b ha hb in
    rw (constant_time_eq_byte_result_lem a b ha hb) (elim (Bool-cases (const_time_eq_bytes a b)) [
      | inl hit ↦ ((λ _. same.0 hit), (λ _. rw hit (λ e. absurd (omega arith))))
      | inr miss ↦ ((λ p. absurd (rw miss at p refl)), (λ e. absurd (cc (same.1 e))))
    ])

module _ (h : Hmac) {W : Type 0} (t : Totp W) (w : W) (code context : Bytes)
    (counter window : ℕ) where
  -- Round `k` compares with the code for this counter.
  abbrev tried : ℕ → ℕ
  tried k = add_counter_signed counter (sub_ℕ k window)

  -- A match in one of the `n` rounds from round `k` on.
  abbrev Hit : ℕ → ℕ → Type 0
  Hit n k = (j : ℕ) × (k ≤ j) × (j < k + n) × (code ≡ code_for h t w (tried j) context)

  module _ (v : IsValid t) (held : 0 < length t.runtime.secret) (slice : IsSlice code) where
    round_matches :
        (k : ℕ)
        → (constant_time_eq_byte_result code (code_for h t w (tried k) context) ≢ 0)
          ↔ (code ≡ code_for h t w (tried k) context)
    round_matches k =
        result_iff code (code_for h t w (tried k) context) slice
          (code_for-IsSlice h t w (tried k) context v)

    round_step :
        (n k matched : ℕ)
        → verify_loop h (suc n) t code counter context (sub_ℕ k window) matched w
          ≡ verify_loop h n t code counter context
              (sub_ℕ (k + 1) window)
              (bit_or matched
                (constant_time_eq_byte_result code (code_for h t w (tried k) context)))
              w
    unfolding verify_loop
    round_step n k matched =
        rw (← next_offset k window)
          (ground (arith, gen_digits_static h t w (tried k) context v held))

    hits_now : (n k : ℕ) → (code ≡ code_for h t w (tried k) context) → Hit (suc n) k
    hits_now n k e = (k, omega arith, omega arith, e)

    hits_later : (n k : ℕ) → Hit n (k + 1) → Hit (suc n) k
    hits_later n k (j, lo, hi, e) = (j, omega arith, omega arith, e)

    hits_split :
        (n k : ℕ) → Hit (suc n) k → (code ≡ code_for h t w (tried k) context) ⊎ Hit n (k + 1)
    hits_split n k (j, lo, hi, e) = elim (dec_lt k j) [
      | yes after ↦ inr (j, omega arith, omega arith, e)
      | no here ↦ inl (subst (λ x. code ≡ code_for h t w (tried x) context) (omega arith) e)
    ]

    -- What is set after round `k` and the later ones, from what was set before.
    gathered :
        (n k matched : ℕ)
        → ((bit_or matched (constant_time_eq_byte_result code (code_for h t w (tried k) context))
              ≢ 0)
            ⊎ Hit n (k + 1))
          ↔ ((matched ≢ 0) ⊎ Hit (suc n) k)
    gathered n k matched = (
      elim [
        | inl p ↦ elim ((bit_or_pos matched _).0 p) [
          | inl before ↦ inl before
          | inr now ↦ inr (hits_now n k ((round_matches k).0 now))
        ]
        | inr later ↦ inr (hits_later n k later)
      ],
      elim [
        | inl before ↦ inl ((bit_or_pos matched _).1 (inl before))
        | inr hit ↦ elim (hits_split n k hit) [
          | inl now ↦ inl ((bit_or_pos matched _).1 (inr ((round_matches k).1 now)))
          | inr later ↦ inr later
        ]
      ],
    )

    loop_hits :
        (n k matched : ℕ)
        → (m : ℕ) × (verify_loop h n t code counter context (sub_ℕ k window) matched w ≡ (ok m, w))
          × ((m ≢ 0) ↔ ((matched ≢ 0) ⊎ Hit n k))
    loop_hits zero k matched = (
      matched,
      unfold verify_loop in refl,
      ((λ p. inl p), elim [ inl p ↦ p | inr (j, lo, hi, e) ↦ absurd (omega arith) ]),
    )
    loop_hits (suc n) k matched =
        let r = constant_time_eq_byte_result code (code_for h t w (tried k) context) in
        let (m, runs, iff) = loop_hits n (k + 1) (bit_or matched r) in
        let g = gathered n k matched in
        (m, round_step n k matched ∙ runs, ((λ p. g.0 (iff.0 p)), (λ q. iff.1 (g.1 q))))

    -- A whole run of the loop.
    pub window_hits :
        (m : ℕ) × (verify_loop h (2 * window + 1) t code counter context (minus window) 0 w
          ≡ (ok m, w))
        × ((m ≢ 0) ↔ Hit (2 * window + 1) 0)
    window_hits =
        let (m, runs, iff) = loop_hits (2 * window + 1) 0 0 in
        (
          m,
          runs,
          (
            (λ p. elim (iff.0 p) [ inl z ↦ absurd (z refl) | inr hit ↦ hit ]),
            (λ hit. iff.1 (inr hit)),
          ),
        )

-- The time steps that a window around `counter` covers: those at most `window` away, and step 0
-- as well where the window leaves the uint64 range at its upper end.
abbrev pub InWindow : ℕ → ℕ → ℕ → Type 0
InWindow counter window c =
    ((c < 2 ^ 64) × (counter ≤ c + window) × (c ≤ counter + window))
    ⊎ ((c ≡ 0) × (2 ^ 64 ≤ counter + window))

tried-InWindow :
    (counter window j : ℕ)
    → counter < 2 ^ 64
    → window ≤ 1000
    → j < 2 * window + 1
    → InWindow counter window (add_counter_signed counter (sub_ℕ j window))
tried-InWindow counter window j hc hw hj = elim (dec_lt (counter + j - window) (2 ^ 64)) [
  | yes fits ↦
      let e : add_counter_signed counter (sub_ℕ j window) ≡ counter + j - window =
        ground (arith, round_counter counter window j hc (omega arith) hw) in
      inl (omega (arith, e), omega (arith, e), omega (arith, e))
  | no over ↦
      let e : add_counter_signed counter (sub_ℕ j window) ≡ 0 =
        ground (arith, round_counter counter window j hc (omega arith) hw) in
      inr (e, omega arith)
]

InWindow-tried :
    (counter window c : ℕ)
    → counter < 2 ^ 64
    → window ≤ 1000
    → InWindow counter window c
    → (j : ℕ) × (j < 2 * window + 1) × (add_counter_signed counter (sub_ℕ j window) ≡ c)
InWindow-tried counter window c hc hw (inl (small, lo, hi)) = (
  c + window - counter,
  omega arith,
  ground (arith, round_counter counter window (c + window - counter) hc (omega arith) hw),
)
InWindow-tried counter window c hc hw (inr (is, over)) = (
  2 * window,
  omega arith,
  ground (arith, round_counter counter window (2 * window) hc (omega arith) hw),
)

module _ (h : Hmac) {W : Type 0} (t : Totp W) (w : W) (code : Bytes) where
  -- The code is that of a time step in the window, for this context.
  abbrev pub Accepts : Bytes → ℕ → ℕ → Type 0
  Accepts context counter window =
      (c : ℕ) × InWindow counter window c × (code ≡ code_for h t w c context)

  -- An answer with no error, true exactly for the accepted codes.
  abbrev pub Answers : Bytes → ℕ → ℕ → Result Bool × W → Type 0
  Answers context counter window answer =
      (b : Bool) × (answer ≡ (ok b, w)) × ((b ≡ true) ↔ Accepts context counter window)

  nonzero-true : (m : ℕ) → (not (m == 0) ≡ true) ↔ (m ≢ 0)
  nonzero-true zero = ((λ p. cc), (λ p. absurd (p refl)))
  nonzero-true (suc m) = ((λ p. omega arith), (λ p. ground arith))

  module _ (v : IsValid t) (held : 0 < length t.runtime.secret) (slice : IsSlice code) where
    loop_answers :
        (context : Bytes) (counter window : ℕ)
        → counter < 2 ^ 64
        → window ≤ 1000
        → (m : ℕ) × (verify_loop h (2 * window + 1) t code counter context (minus window) 0 w
            ≡ (ok m, w))
          × ((not (m == 0) ≡ true) ↔ Accepts context counter window)
    loop_answers context counter window hc hw =
        let (m, runs, iff) = window_hits h t w code context counter window v held slice in
        (
          m,
          runs,
          (
            (λ p.
                let (j, _, hi, e) = iff.0 ((nonzero-true m).0 p) in
                (
                  add_counter_signed counter (sub_ℕ j window),
                  tried-InWindow counter window j hc hw (omega arith),
                  e,
                )),
            (λ a.
                let (j, hi, at) = InWindow-tried counter window a.0 hc hw a.1 in
                (nonzero-true m).1 (iff.1 (j, omega arith, omega arith, rw at a.2))),
          ),
        )

    -- On a valid generator with a static secret that was not cleared, at a uint64 time and with a
    -- window of at most 1000 steps, `Verify` and `VerifyBound` return no error, and answer true
    -- exactly for the code of a time step in the window around the time's own step: one at most
    -- `window` steps away, or step 0 where the window leaves the uint64 range at its upper end.
    pub verify-Answers :
        (now : ℤ) (context : Option OtpContext) (time_val : Option ℕ) (window : ℕ)
        → t.cleared ≡ false
        → now_or now time_val < 2 ^ 64
        → window ≤ 1000
        → Answers [] (now_or now time_val / t.period) window (verify h t now code time_val window w)
          × Answers
              (context_bytes context)
              (now_or now time_val / t.period)
              window
              (verify_bound h t now code context time_val window w)
    verify-Answers now context time_val window live hn hw =
        let counter = now_or now time_val / t.period in
        let small : counter < 2 ^ 64 = omega arith in
        let (m, runs, iff) = loop_answers [] counter window small hw in
        let (m', runs', iff') = loop_answers (context_bytes context) counter window small hw in
        (
          (not (m == 0), unfold verify in ground (arith, counter_at_lem h t w now time_val v), iff),
          (
            not (m' == 0),
            unfold verify_bound in ground (arith, counter_at_lem h t w now time_val v),
            iff',
          ),
        )

-- On a valid generator that was not cleared, `Verify` and `VerifyBound` refuse a window of more than
-- 1000 steps with ErrInvalidTime and leave the world alone, whatever the secret.
pub verify_wide :
    (h : Hmac) {W : Type 0} (t : Totp W) (w : W) (code : Bytes) (now : ℤ)
    (context : Option OtpContext) (time_val : Option ℕ) (window : ℕ)
    → IsValid t
    → t.cleared ≡ false
    → 1000 < window
    → (verify h t now code time_val window w ≡ (err invalid_time, w))
      × (verify_bound h t now code context time_val window w ≡ (err invalid_time, w))
unfolding verify verify_bound
verify_wide h t w code now context time_val window v live wide = (
  ground (arith, counter_at_lem h t w now time_val v),
  ground (arith, counter_at_lem h t w now time_val v),
)
