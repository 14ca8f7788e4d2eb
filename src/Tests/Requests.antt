-- ===== src/Tests/Requests.antt =====
-- A request of the exported function `verify`: Base64 is stood for by the text itself.
use genotp_go.Base.{
  ℕ, ◌+◌, ◌*◌, ◌/◌, ◌<◌, ◌≤◌, Bool, true, false, Bytes, Option, some, codes, ◌≡◌, ◌↔◌, refl, arith,
}
use genotp_go.Base.Int.{pos}
use genotp_go.Base.Keys.{equal}
use genotp_go.Errors.{ok}
use genotp_go.ConstantTime.Equality.{IsSlice}
use genotp_go.Algorithm.{sha256, sha256_new, hash_func_for}
use genotp_go.Secret.{new_static_secret_runtime, has_static_secret}
use genotp_go.Totp.{Totp, new_totp, new_totp_with_runtime, now_or}
use genotp_go.Totp.Window.{Accepts}
use genotp_go.Wasm.{VerifyIn, GenerateIn, replied, parse_algo, wasm_verify, wasm_generate}
use genotp_go.Wasm.Replies.{wasm_verify_iff, wasm_generate_lem}
use genotp_go.Totp.Static.{code_for}
use genotp_go.Tests.Data.{checked, mix_hmac}

abbrev toy_base64 : Bytes → Option Bytes
toy_base64 s = some s

abbrev request : VerifyIn
request = record {
  code = codes "123456";
  secret = codes "12345678901234567890";
  issued_context = codes "ip=10.0.0.1";
  request_context = codes "ip=10.0.0.2";
  algorithm = codes "SHA256";
  digits = 6;
  period = 30;
  window = 1;
  time_unix = some 1800000000;
}

abbrev totp : Totp ℕ
totp = record {
  runtime = new_static_secret_runtime request.secret;
  algorithm = sha256;
  digits = 6;
  period = 30;
  mod_value = 1000000;
  hash_fn = sha256_new;
  cleared = false;
}

made :
    new_totp {W = ℕ} request.secret (parse_algo request.algorithm) request.digits request.period
    ≡ ok totp
unfolding new_totp new_totp_with_runtime parse_algo equal hash_func_for has_static_secret
    new_static_secret_runtime
made = refl

code-IsSlice : IsSlice request.code
code-IsSlice = (checked request.code refl, omega arith)

time_small : now_or (pos 7) request.time_unix < 18446744073709551616
unfolding now_or
time_small = omega arith

wasm_verify_iff_example :
    (b : Bool) × (wasm_verify mix_hmac {W = ℕ} toy_base64 request (pos 7) 0 ≡ (replied b, 0))
    × ((b ≡ true) ↔ (
        (request.issued_context ≡ request.request_context)
        × Accepts mix_hmac totp 0 request.code request.issued_context
            (now_or (pos 7) request.time_unix / request.period)
            request.window))
wasm_verify_iff_example =
    wasm_verify_iff mix_hmac toy_base64 0 request (pos 7) request.secret request.issued_context
      request.request_context totp refl made (omega arith) (λ e. ground (arith, e)) refl refl
      time_small (omega arith) code-IsSlice

abbrev generation : GenerateIn
generation = record {
  secret = codes "12345678901234567890";
  context = codes "ip=10.0.0.1";
  algorithm = codes "SHA256";
  digits = 6;
  period = 30;
  time_unix = some 1800000017;
}

wasm_generate_lem_example :
    (wasm_generate mix_hmac {W = ℕ} toy_base64 generation (pos 7) 9 0 ≡ (
      replied (record {
        code = code_for mix_hmac totp 0 (1800000017 / generation.period) generation.context;
        expires_at = (1800000017 / generation.period + 1) * generation.period;
      }),
      0,
    ))
    × (1800000017 < (1800000017 / generation.period + 1) * generation.period)
    × ((1800000017 / generation.period + 1) * generation.period ≤ 1800000017 + generation.period)
    × (1800000029 / generation.period ≡ 1800000017 / generation.period)
wasm_generate_lem_example =
    wasm_generate_lem mix_hmac toy_base64 0 generation (pos 7) 9 generation.secret
      generation.context totp 1800000017 1800000029 refl made (omega arith) (λ e. ground (arith, e))
      refl refl (omega arith) (omega arith) (omega arith)
