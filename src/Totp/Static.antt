-- ===== src/Totp/Static.antt =====
-- TOTP over a static secret: the codes are those of RFC 6238.
use genotp_go.Base.{ℕ, ◌/◌, ◌%◌, ◌^◌, ◌≤◌, ◌<◌, false, Bytes, [], length, Option, some, ◌≡◌, arith}
use genotp_go.Base.Int.{ℤ}
use genotp_go.Errors.{ok}
use genotp_go.ConstantTime.Equality.{IsSlice}
use genotp_go.Algorithm.{Algorithm, Hmac, hash_func_for}
use genotp_go.Context.{OtpContext, context_bytes}
use genotp_go.Secret.{SecretRuntime, has_static_secret}
use genotp_go.Otp.{code_buf}
use genotp_go.Otp.Message.{rfc_message, message_of-rfc_message}
use genotp_go.Otp.Rfc.{rfc_code, pow10_small, rfc_code-IsSlice, truncate_digest, format_code}
use genotp_go.Otp.Truncate.{extracted}
use genotp_go.Totp.{
  Totp, new_totp_with_runtime, now_or, counter_at, compute_truncated_static, compute_truncated,
  gen_digits, generate, gen_bound,
}

-- What every constructor establishes and no method changes.
pub record IsValid {W : Type 0} (t : Totp W) : Type 0 where
  pub at_least : 6 ≤ t.digits
  pub at_most : t.digits ≤ 8
  pub steps : 0 < t.period
  pub modulus : t.mod_value ≡ 10 ^ t.digits
  pub hashes : hash_func_for t.algorithm ≡ some t.hash_fn

module _ {W : Type 0} where
  -- A generator that was constructed is valid (6 to 8 digits, their power of ten as the modulus, a
  -- period above 0, and the hash of a known algorithm), was not cleared, and holds the arguments.
  pub new_totp_with_runtime-IsValid :
      (r : SecretRuntime W) (a : Algorithm) (d period : ℕ) {t : Totp W}
      → new_totp_with_runtime r a d period ≡ ok t
      → IsValid t
        × (t.cleared ≡ false)
        × (t.runtime ≡ r)
        × (t.algorithm ≡ a)
        × (t.digits ≡ d)
        × (t.period ≡ period)
  unfolding new_totp_with_runtime
  new_totp_with_runtime-IsValid r a d period {t} e = ground (arith, pow10_small d)

module _ (h : Hmac) {W : Type 0} (t : Totp W) (w : W) where
  -- The code of the generator for a time step and a context.
  abbrev pub code_for : ℕ → Bytes → Bytes
  code_for counter context =
      rfc_code h t.hash_fn t.runtime.secret t.digits (rfc_message counter context)

  pub gen_digits_static :
      (counter : ℕ) (context : Bytes)
      → IsValid t
      → 0 < length t.runtime.secret
      → gen_digits h t code_buf counter context w ≡ (ok (code_for counter context), w)
  unfolding gen_digits compute_truncated compute_truncated_static has_static_secret rfc_code
  gen_digits_static counter context v held =
      let key = t.runtime.secret in
      let message = rfc_message counter context in
      ground (
        arith,
        message_of-rfc_message counter context,
        truncate_digest h t.hash_fn key message t.digits t.mod_value v.modulus,
        format_code t.digits (extracted (h.mac t.hash_fn key message) % 10 ^ t.digits) v.at_most,
      )

  pub code_for-IsSlice :
      (counter : ℕ) (context : Bytes) → IsValid t → IsSlice (code_for counter context)
  code_for-IsSlice counter context v =
      rfc_code-IsSlice h t.hash_fn t.runtime.secret (rfc_message counter context) t.digits v.at_most

  pub counter_at_lem :
      (now : ℤ) (time_val : Option ℕ)
      → IsValid t
      → counter_at t now time_val ≡ ok (now_or now time_val / t.period)
  unfolding counter_at
  counter_at_lem now time_val v = ground arith

  -- `Generate` and `GenBound` of a valid generator with a static secret that was not cleared return
  -- the RFC 6238 code of the time step that holds the given time, or the clock's time where none is
  -- given, and leave the world alone.
  pub generate-code_for :
      (now : ℤ) (context : Option OtpContext) (time_val : Option ℕ)
      → IsValid t
      → 0 < length t.runtime.secret
      → t.cleared ≡ false
      → (generate h t now time_val w ≡ (ok (code_for (now_or now time_val / t.period) []), w))
        × (gen_bound h t now context time_val w
            ≡ (ok (code_for (now_or now time_val / t.period) (context_bytes context)), w))
  unfolding generate gen_bound
  generate-code_for now context time_val v held live = (
    ground (
      arith,
      counter_at_lem now time_val v,
      gen_digits_static (now_or now time_val / t.period) [] v held,
    ),
    ground (
      arith,
      counter_at_lem now time_val v,
      gen_digits_static (now_or now time_val / t.period) (context_bytes context) v held,
    ),
  )
