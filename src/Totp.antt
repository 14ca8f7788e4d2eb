-- ===== src/Totp.antt =====
-- totp.go: time-based codes. `now` is what time.Now().Unix() returns, read only where the caller
-- gave no time. As in Hotp, a pooled hash state is `mac hash_fn secret`.
pub mod Counter
pub mod Static
pub mod Tracking
pub mod Window
use genotp_go.Base.{
  ℕ, zero, suc, ◌+◌, ◌-◌, ◌*◌, ◌/◌, ◌%◌, ◌^◌, bit_or, Bool, true, false, not, ◌&&◌, ◌||◌, ltb, ◌==◌,
  if◌then◌else◌, Bytes, [], Option, none, some,
}
use genotp_go.Base.Int.{ℤ, pos, negsuc, ◌+ℤ◌, sub_ℕ}
use genotp_go.Errors.{
  Result, ok, err, panic, invalid_secret, invalid_digits, invalid_algorithm, invalid_time,
}
use genotp_go.ConstantTime.{const_time_eq_bytes, constant_time_eq_byte_result}
use genotp_go.Algorithm.{Algorithm, HashFn, Hmac, hash_func_for}
use genotp_go.Context.{OtpContext, context_bytes}
use genotp_go.Secret.{
  Action, ◌>>=◌, return, fail, lift, SecretProvider, HmacProvider, SecretRuntime,
  new_static_secret_runtime, new_provider_secret_runtime, new_hmac_provider_runtime,
  has_static_secret, clear_static_secret, has_external_provider, compute_hmac,
}
use genotp_go.Otp.{message_of, dynamic_truncate, format_otp, code_buf}

pub record Totp (W : Type 0) : Type 0 where
  pub runtime : SecretRuntime W
  pub algorithm : Algorithm
  pub digits : ℕ
  pub period : ℕ
  pub mod_value : ℕ
  pub hash_fn : HashFn
  pub cleared : Bool

unfoldable pub now_or : ℤ → Option ℕ → ℕ
now_or now (some t) = t
now_or (pos n) none = n
now_or (negsuc n) none = 0

-- A counter and an int64 offset; `none` where the sum is no uint64.
unfoldable pub checked_add_signed : ℕ → ℤ → Option ℕ
checked_add_signed counter (pos d) =
    let sum = (counter + d) % 2 ^ 64 in if ltb sum counter then none else some sum
checked_add_signed counter (negsuc n) =
    let d = suc n in if ltb counter d then none else some (counter - d)

unfoldable pub add_counter_signed : ℕ → ℤ → ℕ
add_counter_signed counter delta = elim (checked_add_signed counter delta) [ none ↦ 0 | some v ↦ v ]

-- In `VerifyTracking`: the base counter where the offset leads out of the uint64 range.
unfoldable pub adjusted_counter : ℕ → ℤ → ℕ
adjusted_counter base_counter offset = elim (checked_add_signed base_counter offset) [
  | none ↦ base_counter
  | some v ↦ v
]

module _ {W : Type 0} where
  unfoldable pub new_totp_with_runtime : SecretRuntime W → Algorithm → ℕ → ℕ → Result (Totp W)
  new_totp_with_runtime runtime algorithm digits period =
      if ltb digits 6 || ltb 8 digits
      then err invalid_digits
      else if period == 0
      then err invalid_time
      else if not (has_static_secret runtime) && not (has_external_provider runtime)
      then err invalid_secret
      else elim (hash_func_for algorithm) [
        | none ↦ err invalid_algorithm
        | some hash_fn ↦ ok (record {
          runtime = runtime;
          algorithm = algorithm;
          digits = digits;
          period = period;
          mod_value = 10 ^ digits % 2 ^ 32;
          hash_fn = hash_fn;
          cleared = false;
        })
      ]

  unfoldable pub new_totp : Bytes → Algorithm → ℕ → ℕ → Result (Totp W)
  new_totp secret algorithm digits period =
      new_totp_with_runtime (new_static_secret_runtime secret) algorithm digits period

  unfoldable pub new_totp_from_secret_provider :
      Option (SecretProvider W) → Algorithm → ℕ → ℕ → Result (Totp W)
  new_totp_from_secret_provider none algorithm digits period = err invalid_secret
  new_totp_from_secret_provider (some p) algorithm digits period =
      new_totp_with_runtime (new_provider_secret_runtime p) algorithm digits period

  unfoldable pub new_totp_from_hmac_provider :
      Option (HmacProvider W) → Algorithm → ℕ → ℕ → Result (Totp W)
  new_totp_from_hmac_provider none algorithm digits period = err invalid_secret
  new_totp_from_hmac_provider (some p) algorithm digits period =
      new_totp_with_runtime (new_hmac_provider_runtime p) algorithm digits period

  -- The cleared generator, and what the array of its secret holds after the call.
  unfoldable pub clear_secret : Totp W → Totp W × Bytes
  clear_secret t =
      let (runtime, memory) = clear_static_secret t.runtime in
      (record t { cleared = true; runtime = runtime }, memory)

  -- `nowOr(timeVal) / t.period`, a division that panics at 0.
  unfoldable pub counter_at : Totp W → ℤ → Option ℕ → Result ℕ
  counter_at t now time_val = if t.period == 0 then panic else ok (now_or now time_val / t.period)

-- What `VerifyTracking` needs of a *ClockSkewDetector: the offset to apply, and the record of a
-- match, which changes the detector and may panic.
pub record Detector (D : Type 0) : Type 0 where
  pub current_offset : D → ℤ
  pub record_match : ℤ → ℕ → D → Result D

-- -window, as an int64.
abbrev pub minus : ℕ → ℤ
minus window = sub_ℕ 0 window

module _ (h : Hmac) {W : Type 0} where
  unfoldable pub compute_truncated_static : Totp W → ℕ → Bytes → Result ℕ
  compute_truncated_static t counter context =
      dynamic_truncate (h.mac t.hash_fn t.runtime.secret (message_of counter context)) t.mod_value

  unfoldable pub compute_truncated : Totp W → ℕ → Bytes → Action W ℕ
  compute_truncated t counter context =
      if has_static_secret t.runtime then lift (compute_truncated_static t counter context) else (do
        hmac_bytes ← compute_hmac h t.runtime t.algorithm t.hash_fn (message_of counter context)
        lift (dynamic_truncate hmac_bytes t.mod_value))

  unfoldable pub gen_digits : Totp W → Bytes → ℕ → Bytes → Action W Bytes
  gen_digits t dst counter context = do
    code ← compute_truncated t counter context
    lift (format_otp dst code t.digits)

  unfoldable pub generate : Totp W → ℤ → Option ℕ → Action W Bytes
  generate t now time_val =
      if t.cleared
      then fail invalid_secret
      else (do counter ← lift (counter_at t now time_val); gen_digits t code_buf counter [])

  unfoldable pub gen_bound : Totp W → ℤ → Option OtpContext → Option ℕ → Action W Bytes
  gen_bound t now context time_val = if t.cleared then fail invalid_secret else (do
    counter ← lift (counter_at t now time_val)
    gen_digits t code_buf counter (context_bytes context))

  -- The loops of `Verify` and `VerifyBound`, which differ in the context only: `rounds` are left,
  -- at offset `i`. No round is left out, whatever has matched.
  unfoldable pub verify_loop : ℕ → Totp W → Bytes → ℕ → Bytes → ℤ → ℕ → Action W ℕ
  verify_loop zero t code counter context i matched = return matched
  verify_loop (suc rounds) t code counter context i matched = do
    expected ← gen_digits t code_buf (add_counter_signed counter i) context
    verify_loop rounds t code counter context (i +ℤ pos 1)
        (bit_or matched (constant_time_eq_byte_result code expected))

  unfoldable pub verify : Totp W → ℤ → Bytes → Option ℕ → ℕ → Action W Bool
  verify t now code time_val window = if t.cleared then fail invalid_secret else (do
    counter ← lift (counter_at t now time_val)
    if ltb 1000 window then fail invalid_time else (do
      matched ← verify_loop (2 * window + 1) t code counter [] (minus window) 0
      return (not (matched == 0))))

  unfoldable pub verify_bound :
      Totp W → ℤ → Bytes → Option OtpContext → Option ℕ → ℕ → Action W Bool
  verify_bound t now code context time_val window = if t.cleared then fail invalid_secret else (do
    counter ← lift (counter_at t now time_val)
    if ltb 1000 window then fail invalid_time else (do
      matched ← verify_loop (2 * window + 1) t code counter (context_bytes context) (minus window) 0
      return (not (matched == 0))))

  module _ {D : Type 0} (detector : Detector D) where
    -- The loop of `VerifyTracking`: a match ends it and is recorded.
    unfoldable pub tracking_loop : ℕ → Totp W → Bytes → ℕ → ℕ → ℤ → D → Action W (Bool × D)
    tracking_loop zero t code adjusted window i d = return (false, d)
    tracking_loop (suc rounds) t code adjusted window i d =
        let next = tracking_loop rounds t code adjusted window (i +ℤ pos 1) d in
        elim (checked_add_signed adjusted i) [
          | none ↦ next
          | some test_counter ↦ do
            expected ← gen_digits t code_buf test_counter []
            if const_time_eq_bytes code expected
                then (do d' ← lift (detector.record_match i window d); return (true, d'))
                else next
        ]

    unfoldable pub verify_tracking : Totp W → ℤ → Bytes → Option ℕ → ℕ → D → Action W (Bool × D)
    verify_tracking t now code time_val window d = if t.cleared then fail invalid_secret else (do
      base_counter ← lift (counter_at t now time_val)
      let adjusted = adjusted_counter base_counter (detector.current_offset d)
      if ltb 1000 window
          then fail invalid_time
          else tracking_loop (2 * window + 1) t code adjusted window (minus window) d)
