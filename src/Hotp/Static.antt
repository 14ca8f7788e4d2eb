-- ===== src/Hotp/Static.antt =====
-- HOTP over a static secret: the codes are those of RFC 4226, and verification decides them.
use genotp_go.Base.{
  ℕ, ◌%◌, ◌^◌, ◌≤◌, ◌<◌, Bool, true, false, Bytes, [], length, Option, some, ◌≡◌, ◌↔◌, arith,
}
use genotp_go.Errors.{Result, ok}
use genotp_go.ConstantTime.{const_time_eq_bytes}
use genotp_go.ConstantTime.Equality.{IsSlice, const_time_eq_bytes_iff}
use genotp_go.Algorithm.{Algorithm, Hmac, hash_func_for}
use genotp_go.Context.{OtpContext, context_bytes}
use genotp_go.Secret.{SecretRuntime, has_static_secret}
use genotp_go.Otp.{code_buf}
use genotp_go.Otp.Message.{rfc_message, message_of-rfc_message}
use genotp_go.Otp.Rfc.{rfc_code, pow10_small, rfc_code-IsSlice, truncate_digest, format_code}
use genotp_go.Otp.Truncate.{extracted}
use genotp_go.Hotp.{
  Hotp, new_hotp_with_runtime, compute_truncated_static, compute_truncated, gen_digits, generate,
  verify, gen_bound, verify_bound,
}

-- What every constructor establishes and no method changes.
pub record IsValid {W : Type 0} (t : Hotp W) : Type 0 where
  pub at_least : 6 ≤ t.digits
  pub at_most : t.digits ≤ 8
  pub modulus : t.mod_value ≡ 10 ^ t.digits
  pub hashes : hash_func_for t.algorithm ≡ some t.hash_fn

module _ {W : Type 0} where
  -- A generator that was constructed is valid (6 to 8 digits, their power of ten as the modulus, and
  -- the hash of a known algorithm), was not cleared, and holds the arguments.
  pub new_hotp_with_runtime-IsValid :
      (r : SecretRuntime W) (a : Algorithm) (d : ℕ) {t : Hotp W}
      → new_hotp_with_runtime r a d ≡ ok t
      → IsValid t × (t.cleared ≡ false) × (t.runtime ≡ r) × (t.algorithm ≡ a) × (t.digits ≡ d)
  unfolding new_hotp_with_runtime
  new_hotp_with_runtime-IsValid r a d {t} e = ground (arith, pow10_small d)

module _ (h : Hmac) {W : Type 0} (t : Hotp W) (w : W) where
  -- The code of the generator for a counter and a context.
  abbrev pub code_for : ℕ → Bytes → Bytes
  code_for counter context =
      rfc_code h t.hash_fn t.runtime.secret t.digits (rfc_message counter context)

  pub gen_digits_static :
      (counter : ℕ) (context : Bytes)
      → IsValid t
      → 0 < length t.runtime.secret
      → gen_digits h t code_buf counter context w ≡ (ok (code_for counter context), w)
  unfolding gen_digits compute_truncated compute_truncated_static has_static_secret rfc_code
  gen_digits_static counter context v held =
      let key = t.runtime.secret in
      let message = rfc_message counter context in
      ground (
        arith,
        message_of-rfc_message counter context,
        truncate_digest h t.hash_fn key message t.digits t.mod_value v.modulus,
        format_code t.digits (extracted (h.mac t.hash_fn key message) % 10 ^ t.digits) v.at_most,
      )

  -- `Generate` and `GenBound` of a valid generator with a static secret that was not cleared return
  -- the RFC 4226 code of the counter's eight bytes, the highest first, and leave the world alone;
  -- for `GenBound` with a context that is not empty, what is hashed are these bytes with the text
  -- "genotp-ctx-v1", a zero byte and the context behind them.
  pub generate-rfc_code :
      (counter : ℕ) (context : Option OtpContext)
      → IsValid t
      → 0 < length t.runtime.secret
      → t.cleared ≡ false
      → (generate h t counter w ≡ (ok (code_for counter []), w))
        × (gen_bound h t counter context w ≡ (ok (code_for counter (context_bytes context)), w))
  unfolding generate gen_bound
  generate-rfc_code counter context v held live = (
    ground (arith, gen_digits_static counter [] v held),
    ground (arith, gen_digits_static counter (context_bytes context) v held),
  )

  -- The answer of a comparison that was reached, for a submitted code and the expected one.
  abbrev pub Decides : Bytes → Bytes → Result Bool × W → Type 0
  Decides code expected answer =
      (b : Bool) × (answer ≡ (ok b, w)) × ((b ≡ true) ↔ (code ≡ expected))

  pub code_for-IsSlice :
      (counter : ℕ) (context : Bytes) → IsValid t → IsSlice (code_for counter context)
  code_for-IsSlice counter context v =
      rfc_code-IsSlice h t.hash_fn t.runtime.secret (rfc_message counter context) t.digits v.at_most

  -- On a valid generator with a static secret that was not cleared, `Verify` and `VerifyBound` return
  -- an answer and no error for any submitted bytes, and the answer is true exactly for the RFC 4226
  -- code of the counter, with the context for `VerifyBound`.
  pub verify-Decides :
      (code : Bytes) (counter : ℕ) (context : Option OtpContext)
      → IsValid t
      → 0 < length t.runtime.secret
      → t.cleared ≡ false
      → IsSlice code
      → Decides code (code_for counter []) (verify h t code counter w)
        × Decides code
            (code_for counter (context_bytes context))
            (verify_bound h t code counter context w)
  unfolding verify verify_bound
  verify-Decides code counter context v held live slice = (
    (
      const_time_eq_bytes code (code_for counter []),
      ground (arith, gen_digits_static counter [] v held),
      const_time_eq_bytes_iff code (code_for counter []) slice (code_for-IsSlice counter [] v),
    ),
    (
      const_time_eq_bytes code (code_for counter (context_bytes context)),
      ground (arith, gen_digits_static counter (context_bytes context) v held),
      const_time_eq_bytes_iff code (code_for counter (context_bytes context)) slice
          (code_for-IsSlice counter (context_bytes context) v),
    ),
  )
