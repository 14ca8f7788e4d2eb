-- ===== src/Hotp.antt =====
-- hotp.go: counter-based codes. The hash states of `macPool` are keyed with the runtime's secret
-- and reset before each use, so a pooled state is `mac hash_fn secret`.
pub mod Static
pub mod Resync
pub mod Providers
use genotp_go.Base.{
  ℕ, zero, suc, ◌+◌, ◌%◌, ◌^◌, Bool, true, false, not, ◌&&◌, ◌||◌, ltb, if◌then◌else◌, Bytes, [],
  length, Option, none, some,
}
use genotp_go.Errors.{
  Result, ok, err, invalid_secret, invalid_digits, invalid_algorithm, invalid_counter,
}
use genotp_go.ConstantTime.{const_time_eq_bytes}
use genotp_go.Algorithm.{Algorithm, HashFn, Hmac, hash_func_for}
use genotp_go.Context.{OtpContext, context_bytes}
use genotp_go.Secret.{
  Action, ◌>>=◌, return, fail, lift, SecretProvider, HmacProvider, SecretRuntime,
  new_static_secret_runtime, new_provider_secret_runtime, new_hmac_provider_runtime,
  has_static_secret, clear_static_secret, has_external_provider, compute_hmac,
}
use genotp_go.Otp.{put_uint64, message_of, dynamic_truncate, format_otp, code_buf}

abbrev pub max_look_ahead : ℕ
max_look_ahead = 10000

pub record Hotp (W : Type 0) : Type 0 where
  pub runtime : SecretRuntime W
  pub algorithm : Algorithm
  pub digits : ℕ
  pub mod_value : ℕ
  pub hash_fn : HashFn
  pub cleared : Bool

module _ {W : Type 0} where
  unfoldable pub new_hotp_with_runtime : SecretRuntime W → Algorithm → ℕ → Result (Hotp W)
  new_hotp_with_runtime runtime algorithm digits =
      if ltb digits 6 || ltb 8 digits
      then err invalid_digits
      else if not (has_static_secret runtime) && not (has_external_provider runtime)
      then err invalid_secret
      else elim (hash_func_for algorithm) [
        | none ↦ err invalid_algorithm
        | some hash_fn ↦ ok (record {
          runtime = runtime;
          algorithm = algorithm;
          digits = digits;
          mod_value = 10 ^ digits % 2 ^ 32;
          hash_fn = hash_fn;
          cleared = false;
        })
      ]

  unfoldable pub new_hotp : Bytes → Algorithm → ℕ → Result (Hotp W)
  new_hotp secret algorithm digits =
      new_hotp_with_runtime (new_static_secret_runtime secret) algorithm digits

  unfoldable pub new_hotp_from_secret_provider :
      Option (SecretProvider W) → Algorithm → ℕ → Result (Hotp W)
  new_hotp_from_secret_provider none algorithm digits = err invalid_secret
  new_hotp_from_secret_provider (some p) algorithm digits =
      new_hotp_with_runtime (new_provider_secret_runtime p) algorithm digits

  unfoldable pub new_hotp_from_hmac_provider :
      Option (HmacProvider W) → Algorithm → ℕ → Result (Hotp W)
  new_hotp_from_hmac_provider none algorithm digits = err invalid_secret
  new_hotp_from_hmac_provider (some p) algorithm digits =
      new_hotp_with_runtime (new_hmac_provider_runtime p) algorithm digits

  -- The cleared generator, and what the array of its secret holds after the call.
  unfoldable pub clear_secret : Hotp W → Hotp W × Bytes
  clear_secret t =
      let (runtime, memory) = clear_static_secret t.runtime in
      (record t { cleared = true; runtime = runtime }, memory)

module _ (h : Hmac) {W : Type 0} where
  unfoldable pub compute_truncated_static : Hotp W → ℕ → Bytes → Result ℕ
  compute_truncated_static t counter context =
      dynamic_truncate (h.mac t.hash_fn t.runtime.secret (message_of counter context)) t.mod_value

  unfoldable pub compute_truncated : Hotp W → ℕ → Bytes → Action W ℕ
  compute_truncated t counter context =
      if has_static_secret t.runtime then lift (compute_truncated_static t counter context) else (do
        hmac_bytes ← compute_hmac h t.runtime t.algorithm t.hash_fn (message_of counter context)
        lift (dynamic_truncate hmac_bytes t.mod_value))

  unfoldable pub gen_digits : Hotp W → Bytes → ℕ → Bytes → Action W Bytes
  gen_digits t dst counter context = do
    code ← compute_truncated t counter context
    lift (format_otp dst code t.digits)

  unfoldable pub generate : Hotp W → ℕ → Action W Bytes
  generate t counter = if t.cleared then fail invalid_secret else gen_digits t code_buf counter []

  unfoldable pub verify : Hotp W → Bytes → ℕ → Action W Bool
  verify t code counter = if t.cleared then fail invalid_secret else (do
    expected ← gen_digits t code_buf counter []
    return (const_time_eq_bytes code expected))

  -- The rounds of the loop that are left, at offset `i`.
  unfoldable pub resync_loop : ℕ → Hotp W → Bytes → ℕ → ℕ → Action W (ℕ × Bool)
  resync_loop zero t code counter i = return (0, false)
  resync_loop (suc rounds) t code counter i =
      let next = resync_loop rounds t code counter (i + 1) in
      let test_counter = (counter + i) % 2 ^ 64 in
      if ltb test_counter counter then return (0, false) else (do
        expected ← gen_digits t code_buf test_counter []
        if const_time_eq_bytes code expected then return (test_counter, true) else next)

  unfoldable pub verify_with_resync : Hotp W → Bytes → ℕ → ℕ → Action W (ℕ × Bool)
  verify_with_resync t code counter look_ahead =
      if t.cleared
      then fail invalid_secret
      else if ltb max_look_ahead look_ahead
      then fail invalid_counter
      else resync_loop (look_ahead + 1) t code counter 0

  unfoldable pub gen_bound : Hotp W → ℕ → Option OtpContext → Action W Bytes
  gen_bound t counter context =
      if t.cleared
      then fail invalid_secret
      else gen_digits t code_buf counter (context_bytes context)

  unfoldable pub verify_bound : Hotp W → Bytes → ℕ → Option OtpContext → Action W Bool
  verify_bound t code counter context = if t.cleared then fail invalid_secret else (do
    expected ← gen_digits t code_buf counter (context_bytes context)
    return (const_time_eq_bytes code expected))
