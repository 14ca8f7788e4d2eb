-- ===== src/Verifier.antt =====
-- verifier.go: the verifier, which limits failed attempts and refuses replays, over any
-- ReplayStore. A call is run as a whole; where the source passes a buffer from its pool to the
-- store, the key is passed.
pub mod Limit
pub mod Outcome
pub mod Replays
pub mod Sections
pub mod Resumed
pub mod Interleaved
use genotp_go.Base.{
  ℕ, suc, ◌+◌, ◌%◌, ◌^◌, Bool, true, false, not, ◌||◌, leb, if◌then◌else◌, [], ◌∷◌, ◌++◌, Bytes,
  Option, none, some,
}
use genotp_go.Base.Int.{ℤ, pos}
use genotp_go.ConstantTime.{const_time_eq_bytes, constant_time_eq}
use genotp_go.Context.{OtpContext, context_bytes}
use genotp_go.Errors.{Result, ok, err, panic, ◌>>=◌}
use genotp_go.Replay.{ReplayStore, InMemoryReplayStore, new_in_memory_replay_store}

-- `maxAttempts` and `attempts` are uint32.
pub record Verifier (S : Type 0) : Type 0 where
  pub store : S
  pub ttl : ℤ
  pub max_attempts : ℕ
  pub attempts : ℕ

abbrev pub default_max_used_codes : ℤ
default_max_used_codes = pos 10000

abbrev pub default_replay_ttl : ℤ
default_replay_ttl = pos 90_000_000_000

unfoldable pub new_verifier_with_store : {S : Type 0} → ℕ → S → ℤ → Verifier S
new_verifier_with_store max_attempts store ttl = record {
  store = store;
  ttl = ttl;
  max_attempts = max_attempts;
  attempts = 0;
}

unfoldable pub new_verifier_with_capacity : ℕ → ℤ → Result (Verifier InMemoryReplayStore)
new_verifier_with_capacity max_attempts max_used_codes =
    new_in_memory_replay_store max_used_codes
    >>= (λ store. ok (new_verifier_with_store max_attempts store default_replay_ttl))

unfoldable pub new_verifier : ℕ → Result (Verifier InMemoryReplayStore)
new_verifier max_attempts = new_verifier_with_capacity max_attempts default_max_used_codes

-- The code, a NUL byte and the context, after what `dst` holds.
unfoldable pub replay_key : Bytes → Bytes → Bytes → Bytes
replay_key dst code context = ((dst ++ code) ++ (0 ∷ [])) ++ context

module _ {S : Type 0} where
  unfoldable pub is_rate_limited : Verifier S → Bool
  is_rate_limited v = leb v.max_attempts v.attempts

  unfoldable pub reset_attempts : Verifier S → Verifier S
  reset_attempts v = record v { attempts = 0 }

  -- `v.attempts++`
  unfoldable pub count_failure : Verifier S → Verifier S
  count_failure v = record v { attempts = (v.attempts + 1) % 2 ^ 32 }

module _ {S : Type 0} (replay : ReplayStore S) where
  unfoldable pub after_store : Verifier S → S × Result Bool → Verifier S × Result Bool
  after_store v (store, ok true) = (record v { store = store; attempts = 0 }, ok true)
  after_store v (store, ok false) = (count_failure (record v { store = store }), ok false)
  after_store v (store, err e) = (count_failure (record v { store = store }), ok false)
  after_store v (store, panic) = (record v { store = store }, panic)

  unfoldable pub verify_inner :
      Verifier S → ℤ → Bytes → Bytes → Bytes → Bytes → Verifier S × Result Bool
  verify_inner v now code expected issued_context request_context =
      if leb v.max_attempts v.attempts
      then (v, ok false)
      else (let ctx_match = const_time_eq_bytes issued_context request_context in
          let code_match = constant_time_eq code expected in
          if not ctx_match || not code_match
          then (count_failure v, ok false)
          else after_store v
              (replay.check_and_record v.store now (replay_key [] code issued_context) v.ttl))

  unfoldable pub verify_with_replay_protection :
      Verifier S → ℤ → Bytes → Bytes → Verifier S × Result Bool
  verify_with_replay_protection v now code expected = verify_inner v now code expected [] []

  unfoldable pub verify_with_context :
      Verifier S
      → ℤ
      → Bytes
      → Bytes
      → Option OtpContext
      → Option OtpContext
      → Verifier S × Result Bool
  verify_with_context v now code expected issued_context request_context =
      verify_inner v now code expected (context_bytes issued_context)
        (context_bytes request_context)

  unfoldable pub clear_used_codes : Verifier S → Verifier S
  clear_used_codes v = record v { store = (replay.reset v.store).0 }
