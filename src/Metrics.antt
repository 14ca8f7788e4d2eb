-- ===== src/Metrics.antt =====
-- metrics.go: counters of events, each an atomic uint64. Calls of several goroutines are calls in
-- some order.
pub mod Counts
use genotp_go.Base.{ℕ, ◌+◌, ◌%◌, ◌^◌}

pub record Metrics : Type 0 where
  pub hotp_generations : ℕ
  pub hotp_verifications : ℕ
  pub totp_generations : ℕ
  pub totp_verifications : ℕ
  pub errors : ℕ

unfoldable pub new_metrics : Metrics
new_metrics = record {
  hotp_generations = 0;
  hotp_verifications = 0;
  totp_generations = 0;
  totp_verifications = 0;
  errors = 0;
}

-- `Add(1)` of an atomic.Uint64.
abbrev pub add_one : ℕ → ℕ
add_one n = (n + 1) % 2 ^ 64

unfoldable pub increment_hotp_generation : Metrics → Metrics
increment_hotp_generation m = record m { hotp_generations = add_one m.hotp_generations }

unfoldable pub increment_hotp_verification : Metrics → Metrics
increment_hotp_verification m = record m { hotp_verifications = add_one m.hotp_verifications }

unfoldable pub increment_totp_generation : Metrics → Metrics
increment_totp_generation m = record m { totp_generations = add_one m.totp_generations }

unfoldable pub increment_totp_verification : Metrics → Metrics
increment_totp_verification m = record m { totp_verifications = add_one m.totp_verifications }

unfoldable pub increment_error : Metrics → Metrics
increment_error m = record m { errors = add_one m.errors }

unfoldable pub get_hotp_generations : Metrics → ℕ
get_hotp_generations m = m.hotp_generations

unfoldable pub get_hotp_verifications : Metrics → ℕ
get_hotp_verifications m = m.hotp_verifications

unfoldable pub get_totp_generations : Metrics → ℕ
get_totp_generations m = m.totp_generations

unfoldable pub get_totp_verifications : Metrics → ℕ
get_totp_verifications m = m.totp_verifications

unfoldable pub get_errors : Metrics → ℕ
get_errors m = m.errors

unfoldable pub reset : Metrics → Metrics
reset m = record m {
  hotp_generations = 0;
  hotp_verifications = 0;
  totp_generations = 0;
  totp_verifications = 0;
  errors = 0;
}
