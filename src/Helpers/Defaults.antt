-- ===== src/Helpers/Defaults.antt =====
-- The helpers: what is generated is accepted, and what else is.
use genotp_go.Base.{
  ℕ, ◌+◌, ◌/◌, ◌^◌, ◌≤◌, ◌<◌, Bool, true, false, Bytes, [], length, none, ◌≡◌, ◌↔◌, refl, sym, ap,
  ◌∙◌, arith, inl,
}
use mathlib.Core.Path.{subst}
use genotp_go.Base.Int.{pos}
use genotp_go.Errors.{ok}
use genotp_go.ConstantTime.Equality.{IsSlice}
use genotp_go.Algorithm.{Hmac, sha1, sha1_new, hash_func_for}
use genotp_go.Secret.{new_static_secret_runtime, has_static_secret}
use genotp_go.Otp.Message.{rfc_message}
use genotp_go.Otp.Rfc.{rfc_code, rfc_code-IsSlice}
use genotp_go.Hotp.{Hotp, new_hotp, new_hotp_with_runtime}
use genotp_go.Totp.{Totp, new_totp, new_totp_with_runtime, now_or}
use genotp_go.Hotp.Static as HotpStatic
use genotp_go.Totp.Static as TotpStatic
use genotp_go.Totp.Window.{verify-Answers, InWindow}
use genotp_go.Helpers.{gen_hotp_default, gen_totp_default, verify_hotp_default, verify_totp_default}

module _ (h : Hmac) {W : Type 0} (w : W) (secret : Bytes) where
  abbrev default_hotp : Hotp W
  default_hotp = record {
    runtime = new_static_secret_runtime secret;
    algorithm = sha1;
    digits = 6;
    mod_value = 1000000;
    hash_fn = sha1_new;
    cleared = false;
  }

  abbrev default_totp : Totp W
  default_totp = record {
    runtime = new_static_secret_runtime secret;
    algorithm = sha1;
    digits = 6;
    period = 30;
    mod_value = 1000000;
    hash_fn = sha1_new;
    cleared = false;
  }

  hotp_made : 0 < length secret → new_hotp {W = W} secret sha1 6 ≡ ok default_hotp
  unfolding new_hotp new_hotp_with_runtime new_static_secret_runtime has_static_secret hash_func_for
  hotp_made held = ground (arith, held)

  totp_made : 0 < length secret → new_totp {W = W} secret sha1 6 30 ≡ ok default_totp
  unfolding new_totp new_totp_with_runtime new_static_secret_runtime has_static_secret hash_func_for
  totp_made held = ground (arith, held)

  hotp-IsValid : HotpStatic.IsValid default_hotp
  unfolding hash_func_for
  hotp-IsValid = record {
    at_least = omega arith;
    at_most = omega arith;
    modulus = refl;
    hashes = refl;
  }

  totp-IsValid : TotpStatic.IsValid default_totp
  unfolding hash_func_for
  totp-IsValid = record {
    at_least = omega arith;
    at_most = omega arith;
    steps = omega arith;
    modulus = refl;
    hashes = refl;
  }

  static_held : 0 < length secret → 0 < length default_hotp.runtime.secret
  unfolding new_static_secret_runtime
  static_held held = held

  -- The six digits of RFC 4226 for a counter, under HMAC-SHA-1.
  abbrev pub default_code : ℕ → Bytes
  default_code counter = rfc_code h sha1_new secret 6 (rfc_message counter [])

  hotp_code_lem :
      (counter : ℕ) → HotpStatic.code_for h default_hotp w counter [] ≡ default_code counter
  unfolding new_static_secret_runtime
  hotp_code_lem counter = refl

  totp_code_lem :
      (counter : ℕ) → TotpStatic.code_for h default_totp w counter [] ≡ default_code counter
  unfolding new_static_secret_runtime
  totp_code_lem counter = refl

  -- `GenHotpDefault` with a secret returns the RFC 4226 code of six digits for the counter, and
  -- `VerifyHotpDefault` returns no error for any submitted bytes and answers true exactly for that code.
  pub verify_hotp_default_iff :
      (code : Bytes) (counter : ℕ)
      → 0 < length secret
      → IsSlice code
      → (gen_hotp_default h secret counter w ≡ (ok (default_code counter), w))
        × ((b : Bool) × (verify_hotp_default h secret code counter w ≡ (ok b, w))
            × ((b ≡ true) ↔ (code ≡ default_code counter)))
  unfolding gen_hotp_default verify_hotp_default
  verify_hotp_default_iff code counter held slice =
      let t = default_hotp in
      let generated =
        (HotpStatic.generate-rfc_code h t w counter none hotp-IsValid (static_held held) refl).0 in
      let (b, answered, iff) =
        (HotpStatic.verify-Decides h t w code counter none hotp-IsValid (static_held held) refl
          slice).0 in
      (
        rw (hotp_made held) (generated ∙ ap (λ c. (ok c, w)) (hotp_code_lem counter)),
        (
          b,
          rw (hotp_made held) answered,
          subst (λ c. (b ≡ true) ↔ (code ≡ c)) (hotp_code_lem counter) iff,
        ),
      )

  -- With a secret that is not empty, and at times from 1970 on that an int64 of seconds can hold, a
  -- code that `GenTotpDefault` returns is the RFC 6238 code of six digits and steps of 30 seconds, and
  -- `VerifyTotpDefault` accepts it at every time whose step is the same as its own or next to it.
  pub verify_totp_default_accepts :
      (n m : ℕ)
      → 0 < length secret
      → n < 2 ^ 63
      → m < 2 ^ 63
      → n / 30 ≤ m / 30 + 1
      → m / 30 ≤ n / 30 + 1
      → (gen_totp_default h secret (pos n) w ≡ (ok (default_code (n / 30)), w))
        × (verify_totp_default h secret (pos m) (default_code (n / 30)) w ≡ (ok true, w))
  unfolding gen_totp_default verify_totp_default now_or
  verify_totp_default_accepts n m held hn hm before after =
      let t = default_totp in
      let slice = rfc_code-IsSlice h sha1_new secret (rfc_message (n / 30) []) 6 (omega arith) in
      let generated =
        (TotpStatic.generate-code_for h t w (pos n) none none totp-IsValid (static_held held)
          refl).0 in
      let (b, answered, iff) =
        (verify-Answers h t w (default_code (n / 30)) totp-IsValid (static_held held) slice (pos m)
          none none 1 refl (omega (arith, hm)) (omega arith)).0 in
      let near : InWindow (m / 30) 1 (n / 30) =
        inl (omega (arith, hn), omega (arith, after), omega (arith, before)) in
      let accepted : b ≡ true = iff.1 (n / 30, near, sym (totp_code_lem (n / 30))) in
      (
        rw (totp_made held) (generated ∙ ap (λ c. (ok c, w)) (totp_code_lem (n / 30))),
        rw (totp_made held) (answered ∙ ap (λ x. (ok x, w)) accepted),
      )
