-- ===== src/Metrics/Counts.antt =====
-- What the counters count.
use genotp_go.Base.{
  ℕ, suc, ◌+◌, ◌%◌, ◌^◌, List, [], ◌∷◌, Bool, true, false, if◌then◌else◌, ◌≡◌, refl, arith,
}
use genotp_go.Metrics.{
  Metrics, new_metrics, increment_hotp_generation, increment_hotp_verification,
  increment_totp_generation, increment_totp_verification, increment_error, get_hotp_generations,
  get_hotp_verifications, get_totp_generations, get_totp_verifications, get_errors, reset,
}

-- The calls on a Metrics that change it.
pub data Call : Type 0 where
  hotp_generation hotp_verification totp_generation totp_verification error reset_call : Call

pub step : Metrics → Call → Metrics
step m hotp_generation = increment_hotp_generation m
step m hotp_verification = increment_hotp_verification m
step m totp_generation = increment_totp_generation m
step m totp_verification = increment_totp_verification m
step m error = increment_error m
step m reset_call = reset m

unfoldable pub run : Metrics → List Call → Metrics
run m [] = m
run m (c ∷ cs) = run (step m c) cs

abbrev same : Call → Call → Bool
same hotp_generation hotp_generation = true
same hotp_verification hotp_verification = true
same totp_generation totp_generation = true
same totp_verification totp_verification = true
same error error = true
same _ _ = false

-- How many calls of a kind there are since the last reset, if there were `n` before.
unfoldable pub since_reset : Call → ℕ → List Call → ℕ
since_reset kind n [] = n
since_reset kind n (reset_call ∷ cs) = since_reset kind 0 cs
since_reset kind n (c ∷ cs) = since_reset kind (if same c kind then suc n else n) cs

-- A metrics that counted these numbers.
record Counted (m : Metrics) (a b c d e : ℕ) : Type 0 where
  hotp_generations : m.hotp_generations ≡ a % 2 ^ 64
  hotp_verifications : m.hotp_verifications ≡ b % 2 ^ 64
  totp_generations : m.totp_generations ≡ c % 2 ^ 64
  totp_verifications : m.totp_verifications ≡ d % 2 ^ 64
  errors : m.errors ≡ e % 2 ^ 64

one_more : (x a : ℕ) → x ≡ a % 2 ^ 64 → (x + 1) % 2 ^ 64 ≡ suc a % 2 ^ 64
one_more x a h = omega (arith, h)

run_counts :
    (m : Metrics) (a b c d e : ℕ) (cs : List Call)
    → Counted m a b c d e
    → Counted
        (run m cs)
        (since_reset hotp_generation a cs)
        (since_reset hotp_verification b cs)
        (since_reset totp_generation c cs)
        (since_reset totp_verification d cs)
        (since_reset error e cs)
unfolding run step since_reset increment_hotp_generation increment_hotp_verification
    increment_totp_generation increment_totp_verification increment_error reset
run_counts m a b c d e [] k = k
run_counts m a b c d e (hotp_generation ∷ cs) k =
    run_counts (increment_hotp_generation m) (suc a) b c d e cs (record {
      hotp_generations = one_more m.hotp_generations a k.hotp_generations;
      hotp_verifications = k.hotp_verifications;
      totp_generations = k.totp_generations;
      totp_verifications = k.totp_verifications;
      errors = k.errors;
    })
run_counts m a b c d e (hotp_verification ∷ cs) k =
    run_counts (increment_hotp_verification m) a (suc b) c d e cs (record {
      hotp_generations = k.hotp_generations;
      hotp_verifications = one_more m.hotp_verifications b k.hotp_verifications;
      totp_generations = k.totp_generations;
      totp_verifications = k.totp_verifications;
      errors = k.errors;
    })
run_counts m a b c d e (totp_generation ∷ cs) k =
    run_counts (increment_totp_generation m) a b (suc c) d e cs (record {
      hotp_generations = k.hotp_generations;
      hotp_verifications = k.hotp_verifications;
      totp_generations = one_more m.totp_generations c k.totp_generations;
      totp_verifications = k.totp_verifications;
      errors = k.errors;
    })
run_counts m a b c d e (totp_verification ∷ cs) k =
    run_counts (increment_totp_verification m) a b c (suc d) e cs (record {
      hotp_generations = k.hotp_generations;
      hotp_verifications = k.hotp_verifications;
      totp_generations = k.totp_generations;
      totp_verifications = one_more m.totp_verifications d k.totp_verifications;
      errors = k.errors;
    })
run_counts m a b c d e (error ∷ cs) k = run_counts (increment_error m) a b c d (suc e) cs (record {
  hotp_generations = k.hotp_generations;
  hotp_verifications = k.hotp_verifications;
  totp_generations = k.totp_generations;
  totp_verifications = k.totp_verifications;
  errors = one_more m.errors e k.errors;
})
run_counts m a b c d e (reset_call ∷ cs) k = run_counts (reset m) 0 0 0 0 0 cs (record {
  hotp_generations = refl;
  hotp_verifications = refl;
  totp_generations = refl;
  totp_verifications = refl;
  errors = refl;
})

-- After any calls on a new Metrics, in whatever order, each getter returns the number of calls of its
-- kind since the last Reset, modulo 2^64.
pub run-since_reset :
    (cs : List Call)
    → (get_hotp_generations (run new_metrics cs) ≡ since_reset hotp_generation 0 cs % 2 ^ 64)
      × (get_hotp_verifications (run new_metrics cs) ≡ since_reset hotp_verification 0 cs % 2 ^ 64)
      × (get_totp_generations (run new_metrics cs) ≡ since_reset totp_generation 0 cs % 2 ^ 64)
      × (get_totp_verifications (run new_metrics cs) ≡ since_reset totp_verification 0 cs % 2 ^ 64)
      × (get_errors (run new_metrics cs) ≡ since_reset error 0 cs % 2 ^ 64)
unfolding get_hotp_generations get_hotp_verifications get_totp_generations get_totp_verifications
    get_errors new_metrics
run-since_reset cs =
    let k = run_counts new_metrics 0 0 0 0 0 cs (record {
      hotp_generations = refl;
      hotp_verifications = refl;
      totp_generations = refl;
      totp_verifications = refl;
      errors = refl;
    }) in
    (k.hotp_generations, k.hotp_verifications, k.totp_generations, k.totp_verifications, k.errors)
