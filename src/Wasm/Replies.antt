-- ===== src/Wasm/Replies.antt =====
-- The replies of the exported functions to requests that decode.
use genotp_go.Base.{
  ℕ, ◌+◌, ◌*◌, ◌/◌, ◌%◌, ◌^◌, ◌≤◌, ◌<◌, Bool, true, false, ◌&&◌, ◌==◌, Bytes, length, Option, none,
  some, codes, ◌≡◌, ◌≢◌, ◌↔◌, refl, ap, ◌∙◌, arith,
}
use mathlib.Core.Path.{subst}
use native.Mathlib.Nat.{
  add-mul, lt-div-mul-add, div-mul-le_self, le-div_iff_mul-le, div-lt_iff_lt-mul,
}
use genotp_go.Base.Int.{ℤ}
use genotp_go.Errors.{Result, ok, err, panic}
use genotp_go.Algorithm.{Algorithm, Hmac}
use genotp_go.ConstantTime.{wasm_const_time_eq_bytes}
use genotp_go.ConstantTime.Equality.{IsSlice, wasm_const_time_eq_bytes_iff}
use genotp_go.Context.{otp_context_from_bytes, context_bytes}
use genotp_go.Secret.{new_static_secret_runtime}
use genotp_go.Totp.{Totp, new_totp, now_or, verify_bound, gen_bound}
use genotp_go.Totp.Static.{IsValid, new_totp_with_runtime-IsValid, code_for, generate-code_for}
use genotp_go.Totp.Window.{verify-Answers, Accepts}
use genotp_go.Wasm.{
  Reply, replied, message, failed, crashed, parse_algo, VerifyIn, GenerateIn, GenerateOut,
  expires_at, wasm_verify, verify_with, wasm_generate, generate_with, time_or,
}

-- What `NewTOTP` makes of a secret.
made_totp :
    {W : Type 0} (secret : Bytes) (a : Algorithm) (d period : ℕ) (t : Totp W)
    → new_totp secret a d period ≡ ok t
    → IsValid t × (t.cleared ≡ false) × (t.runtime.secret ≡ secret) × (t.period ≡ period)
unfolding new_totp new_static_secret_runtime
made_totp secret a d period t e =
    let (v, live, runtime, _, _, p) =
      new_totp_with_runtime-IsValid (new_static_secret_runtime secret) a d period e in
    (v, live, ap (λ r. r.secret) runtime, p)

module _ (h : Hmac) {W : Type 0} (base64 : Bytes → Option Bytes) (w : W) (req : VerifyIn) (now : ℤ)
    (secret issued request : Bytes) (t : Totp W) where
  verify_with_contexts :
      (b : Bool)
      → length req.issued_context ≢ 0
      → base64 req.issued_context ≡ some issued
      → base64 req.request_context ≡ some request
      → verify_bound h t now req.code
          (some (otp_context_from_bytes issued))
          req.time_unix
          req.window
          w
        ≡ (ok b, w)
      → verify_with h base64 t req now w
        ≡ (replied (b && wasm_const_time_eq_bytes issued request), w)
  unfolding verify_with
  verify_with_contexts b given i r answer = rw (positive given) (rw i (rw r (rw answer refl)))
    where
      positive : {n : ℕ} → n ≢ 0 → (n == 0) ≡ false
      positive g = ground (arith, g)

both_answers :
    (b c : Bool) {P Q : Type 0} → (b ≡ true) ↔ P → (c ≡ true) ↔ Q → ((b && c) ≡ true) ↔ (Q × P)
both_answers b c f g =
    ((λ e. (g.0 (and_right b c e), f.0 (and_left b c e))), (λ p. rw (f.1 p.1) (g.1 p.0)))
  where
    and_left : (b c : Bool) → (b && c) ≡ true → b ≡ true
    and_left b c e = ground (arith, e)

    and_right : (b c : Bool) → (b && c) ≡ true → c ≡ true
    and_right b c e = ground (arith, e)

-- A request of `verify` whose secret and contexts decode, with a context of the issue, at a uint64
-- time and with a window of at most 1000 steps, for a secret that is not empty and parameters that
-- NewTOTP accepts: the reply has no error, and says that the code is valid exactly where both contexts are
-- equal and the code is that of a time step in the window, bound to the context.
pub wasm_verify_iff :
    (h : Hmac) {W : Type 0} (base64 : Bytes → Option Bytes) (w : W) (req : VerifyIn) (now : ℤ)
    (secret issued request : Bytes) (t : Totp W)
    → base64 req.secret ≡ some secret
    → new_totp secret (parse_algo req.algorithm) req.digits req.period ≡ ok t
    → 0 < length secret
    → length req.issued_context ≢ 0
    → base64 req.issued_context ≡ some issued
    → base64 req.request_context ≡ some request
    → now_or now req.time_unix < 2 ^ 64
    → req.window ≤ 1000
    → IsSlice req.code
    → (b : Bool) × (wasm_verify h base64 req now w ≡ (replied b, w))
      × ((b ≡ true) ↔ (
          (issued ≡ request)
          × Accepts h t w req.code issued (now_or now req.time_unix / req.period) req.window))
wasm_verify_iff h {W = W} base64 w req now secret issued request t decoded made held given i r small
      window slice =
    let (valid, live, key, period) =
      made_totp secret (parse_algo req.algorithm) req.digits req.period t made in
    let (b, answer, iff) =
      (verify-Answers h t w req.code valid (omega (arith, held, ap length key)) slice now
        (some (otp_context_from_bytes issued)) req.time_unix req.window live small window).1 in
    let equal = wasm_const_time_eq_bytes_iff issued request in
    (
      b && wasm_const_time_eq_bytes issued request,
      opened ∙ verify_with_contexts h base64 w req now secret issued request t b given i r answer,
      subst
          (λ x. (b && wasm_const_time_eq_bytes issued request ≡ true) ↔ (
            (issued ≡ request)
            × Accepts h t w req.code issued (now_or now req.time_unix / x) req.window))
          period (both_answers b (wasm_const_time_eq_bytes issued request) (bound_iff iff) equal),
    )
  where
    bound_iff :
        {b : Bool}
        → (b ≡ true)
          ↔ Accepts h t w req.code
              (context_bytes (some (otp_context_from_bytes issued)))
              (now_or now req.time_unix / t.period)
              req.window
        → (b ≡ true)
          ↔ Accepts h t w req.code issued (now_or now req.time_unix / t.period) req.window
    bound_iff f = unfold otp_context_from_bytes in f

    after_totp : Result (Totp W) → Reply Bool × W
    after_totp (ok totp) = verify_with h base64 totp req now w
    after_totp (err e) = (failed e, w)
    after_totp panic = (crashed, w)

    after_secret : Option Bytes → Reply Bool × W
    after_secret none = (message (codes "invalid secret encoding"), w)
    after_secret (some s) = after_totp (new_totp s (parse_algo req.algorithm) req.digits req.period)

    opened : wasm_verify h base64 req now w ≡ verify_with h base64 t req now w
    opened = unfold wasm_verify in ap after_secret decoded ∙ ap after_totp made

-- The end of a time step.
step_end : (time p : ℕ) → 0 < p → (time < (time / p + 1) * p) × ((time / p + 1) * p ≤ time + p)
step_end time p pos =
    let widened : (time / p + 1) * p ≡ time / p * p + p = add-mul (time / p) 1 p ∙ omega arith in
    (
      omega (arith, widened, lt-div-mul-add {a = time} pos),
      omega (arith, widened, div-mul-le_self time p),
    )

same_step :
    (time later p : ℕ) → 0 < p → time ≤ later → later < (time / p + 1) * p → later / p ≡ time / p
same_step time later p pos after before =
    let above : time / p ≤ later / p =
      (le-div_iff_mul-le pos).1 (omega (arith, div-mul-le_self time p, after)) in
    let below : later / p < time / p + 1 = (div-lt_iff_lt-mul pos).1 before in
    omega (arith, above, below)

module _ (h : Hmac) {W : Type 0} (base64 : Bytes → Option Bytes) (w : W) (req : GenerateIn)
    (now : ℤ) (clock : ℕ) (context : Bytes) (t : Totp W) (time : ℕ) where
  expiry :
      req.time_unix ≡ some time
      → (time / req.period + 1) * req.period < 2 ^ 64
      → expires_at (time_or req.time_unix clock) req.period ≡ (time / req.period + 1) * req.period
  unfolding expires_at
  expiry at fits =
      ap (λ o. (time_or o clock / req.period + 1) * req.period % 2 ^ 64) at
      ∙ small ((time / req.period + 1) * req.period) fits
    where
      small : (x : ℕ) → x < 2 ^ 64 → x % 2 ^ 64 ≡ x
      small x f = omega (arith, f)

  generate_with_context :
      (code : Bytes)
      → length req.context ≢ 0
      → base64 req.context ≡ some context
      → req.time_unix ≡ some time
      → (time / req.period + 1) * req.period < 2 ^ 64
      → gen_bound h t now (some (otp_context_from_bytes context)) req.time_unix w ≡ (ok code, w)
      → generate_with h base64 t req now clock w
        ≡ (replied (record { code = code; expires_at = (time / req.period + 1) * req.period }), w)
  unfolding generate_with
  generate_with_context code given c at fits bound = rw (positive given) (
      rw c (
        rw bound
          (ap (λ e. (replied (record { code = code; expires_at = e }), w)) (expiry at fits))))
    where
      positive : {n : ℕ} → n ≢ 0 → (n == 0) ≡ false
      positive g = ground (arith, g)

  bound_code_lem :
      req.time_unix ≡ some time
      → t.period ≡ req.period
      → code_for h t w
          (now_or now req.time_unix / t.period)
          (context_bytes (some (otp_context_from_bytes context)))
        ≡ code_for h t w (time / req.period) context
  unfolding now_or otp_context_from_bytes
  bound_code_lem at period =
      ap (λ o. code_for h t w (now_or now o / t.period) context) at
      ∙ ap (λ (p : ℕ). code_for h t w (time / p) context) period

-- A request of `generate` with a time, whose secret and context decode, for a secret that is not empty,
-- parameters that NewTOTP accepts, and a time step that ends within the uint64 range: the reply has the
-- RFC 6238 code of the time's step, bound to the context, and as its expiry the end of that step,
-- which is after the time and at most a period later; every time before the expiry has the same step.
pub wasm_generate_lem :
    (h : Hmac) {W : Type 0} (base64 : Bytes → Option Bytes) (w : W) (req : GenerateIn) (now : ℤ)
    (clock : ℕ) (secret context : Bytes) (t : Totp W) (time later : ℕ)
    → base64 req.secret ≡ some secret
    → new_totp secret (parse_algo req.algorithm) req.digits req.period ≡ ok t
    → 0 < length secret
    → length req.context ≢ 0
    → base64 req.context ≡ some context
    → req.time_unix ≡ some time
    → (time / req.period + 1) * req.period < 2 ^ 64
    → time ≤ later
    → later < (time / req.period + 1) * req.period
    → (wasm_generate h base64 req now clock w ≡ (
      replied (record {
        code = code_for h t w (time / req.period) context;
        expires_at = (time / req.period + 1) * req.period;
      }),
      w,
    ))
      × (time < (time / req.period + 1) * req.period)
      × ((time / req.period + 1) * req.period ≤ time + req.period)
      × (later / req.period ≡ time / req.period)
wasm_generate_lem h {W = W} base64 w req now clock secret context t time later decoded made held
      given c at fits after before =
    let (valid, live, key, period) =
      made_totp secret (parse_algo req.algorithm) req.digits req.period t made in
    let pos : 0 < req.period = omega (arith, valid.steps, period) in
    let (end_after, end_by) = step_end time req.period pos in
    let bound =
      (generate-code_for h t w now (some (otp_context_from_bytes context)) req.time_unix valid
        (omega (arith, held, ap length key)) live).1 in
    (
      opened
          ∙ generate_with_context h base64 w req now clock context t time
              (code_for h t w (time / req.period) context) given c at fits
              (bound
                ∙ ap (λ code. (ok code, w))
                    (bound_code_lem h base64 w req now clock context t time at period)),
      end_after,
      end_by,
      same_step time later req.period pos after before,
    )
  where
    after_totp : Result (Totp W) → Reply GenerateOut × W
    after_totp (ok totp) = generate_with h base64 totp req now clock w
    after_totp (err e) = (failed e, w)
    after_totp panic = (crashed, w)

    after_secret : Option Bytes → Reply GenerateOut × W
    after_secret none = (message (codes "invalid secret encoding"), w)
    after_secret (some s) = after_totp (new_totp s (parse_algo req.algorithm) req.digits req.period)

    opened : wasm_generate h base64 req now clock w ≡ generate_with h base64 t req now clock w
    opened = unfold wasm_generate in ap after_secret decoded ∙ ap after_totp made
