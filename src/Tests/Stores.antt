-- ===== src/Tests/Stores.antt =====
-- The store in memory and the verifier at concrete inputs.
use genotp_go.Base.{
  true, false, not, List, [], ◌∷◌, Bytes, All, codes, ◌≡◌, ◌≢◌, ◌↔◌, refl, arith, some,
}
use genotp_go.Base.Int.{ℤ, pos, ◌+ℤ◌, ◌-ℤ◌}
use genotp_go.Base.Keys.{equal, lookup, insert, delete}
use genotp_go.Errors.{ok}
use genotp_go.ConstantTime.{
  constant_time_eq, const_time_eq_bytes, difference, diff_loop, nonzero_bit,
}
use genotp_go.ConstantTime.Equality.{IsSlice}
use genotp_go.Replay.{
  InMemoryReplayStore, add_int64, is_live, check_and_record, in_memory, size, sweep_expired,
  sweep_loop, sweep_when_due, make_room, record_key,
}
use genotp_go.Replay.Invariant.{IsWell, check_and_record-IsWell}
use genotp_go.Replay.Live.{
  recorded, check_and_record_answer, check_and_record_refines, check_and_record_adds_nothing,
}
use genotp_go.Replay.Retention
use genotp_go.Replay.Retention.{Call, check_and_record_retains}
use genotp_go.Verifier.{
  Verifier, replay_key, verify_inner, after_store, count_failure, is_rate_limited,
}
use genotp_go.Verifier.Outcome.{IsAccepted, verify_inner-accepts_iff}
use genotp_go.Verifier.Limit.{Attempt, attempt, AreRefused, run, verify_inner_locks_out}
use genotp_go.Verifier.Replays.{verify_inner_refuses_replay, replay_key-injective}
use genotp_go.Tests.Data.{checked}

abbrev old_key : Bytes
old_key = codes "111111"

abbrev new_key : Bytes
new_key = codes "755224"

-- One entry, which expires at 90.
abbrev store : InMemoryReplayStore
store = record {
  entries = (old_key, pos 90) ∷ [];
  order = old_key ∷ [];
  max_size = 20;
  next_sweep = some (pos 30);
  sweep_every = pos 30;
}

store-IsWell : IsWell store
unfolding size
store-IsWell = record {
  ordered = record { listed = refl; distinct = (tt, tt) };
  bounded = omega arith;
}

check_and_record-IsWell_example : IsWell (check_and_record store (pos 40) new_key (pos 90)).0
check_and_record-IsWell_example =
    check_and_record-IsWell store (pos 40) new_key (pos 90) store-IsWell

check_and_record_answer_example :
    (check_and_record store (pos 40) old_key (pos 90)).1 ≡ ok (not (is_live store (pos 40) old_key))
check_and_record_answer_example =
    check_and_record_answer store (pos 40) old_key (pos 90) store-IsWell

check_and_record_refines_example :
    is_live (check_and_record store (pos 40) new_key (pos 90)).0 (pos 100) old_key
    ≡ recorded (is_live store) (pos 40) new_key (pos 90) (pos 100) old_key
unfolding size
check_and_record_refines_example =
    check_and_record_refines store (pos 40) new_key (pos 90) (pos 100) old_key store-IsWell
      (omega arith) (omega arith)

held_after : is_live (check_and_record store (pos 40) new_key (pos 90)).0 (pos 60) old_key ≡ true
unfolding check_and_record sweep_when_due sweep_expired sweep_loop make_room record_key insert
    delete lookup equal add_int64 ◌+ℤ◌
held_after = refl

check_and_record_adds_nothing_example : is_live store (pos 60) old_key ≡ true
check_and_record_adds_nothing_example =
    check_and_record_adds_nothing store (pos 40) new_key (pos 90) (pos 60) old_key store-IsWell
      (λ e. ground arith) (omega arith) held_after

abbrev calls : List Call
calls =
    record { time = pos 50; name = old_key; ttl = pos 90 }
    ∷ record { time = pos 100; name = old_key; ttl = pos 90 }
    ∷ []

check_and_record_retains_example :
    (check_and_record
      (Retention.run (check_and_record store (pos 40) new_key (pos 90)).0 calls)
      (pos 120)
      new_key
      (pos 90)).1
    ≡ ok false
unfolding add_int64 lookup equal ◌+ℤ◌ ◌-ℤ◌
check_and_record_retains_example =
    check_and_record_retains store (pos 40) new_key (pos 90) calls (pos 120) (pos 90) store-IsWell
      refl (omega arith, (omega arith, tt)) (omega arith) (omega arith)

abbrev verifier : Verifier InMemoryReplayStore
verifier = record { store = store; ttl = pos 90; max_attempts = 3; attempts = 1 }

abbrev right : ℤ → Attempt
right now = record {
  time = now;
  code = new_key;
  expected = new_key;
  issued = codes "ip=1";
  request = codes "ip=1";
}

abbrev wrong : ℤ → Attempt
wrong now = record { time = now; code = old_key; expected = new_key; issued = []; request = [] }

ip-IsSlice : IsSlice (codes "ip=1")
ip-IsSlice = (checked (codes "ip=1") refl, omega arith)

code-IsSlice : IsSlice new_key
code-IsSlice = (checked new_key refl, omega arith)

verify_inner-accepts_iff_example :
    ((verify_inner in_memory verifier (pos 40) new_key new_key (codes "ip=1") (codes "ip=1")).1
      ≡ ok true)
    ↔ IsAccepted in_memory verifier (pos 40) new_key new_key (codes "ip=1") (codes "ip=1")
verify_inner-accepts_iff_example =
    verify_inner-accepts_iff in_memory verifier (pos 40) new_key new_key (codes "ip=1")
      (codes "ip=1") code-IsSlice code-IsSlice ip-IsSlice ip-IsSlice

-- Two wrong codes reach the limit of three.
wrong_refused : AreRefused in_memory verifier (wrong (pos 40) ∷ wrong (pos 41) ∷ [])
unfolding verify_inner constant_time_eq const_time_eq_bytes difference diff_loop nonzero_bit
    after_store count_failure replay_key check_and_record sweep_when_due sweep_expired sweep_loop
    make_room record_key insert delete lookup equal add_int64 ◌+ℤ◌
wrong_refused = (refl, (refl, tt))

verify_inner_locks_out_example :
    (attempt in_memory
        (run in_memory verifier (wrong (pos 40) ∷ wrong (pos 41) ∷ []))
        (right (pos 42))
      ≡ (run in_memory verifier (wrong (pos 40) ∷ wrong (pos 41) ∷ []), ok false))
    × (is_rate_limited (run in_memory verifier (wrong (pos 40) ∷ wrong (pos 41) ∷ [])) ≡ true)
verify_inner_locks_out_example =
    verify_inner_locks_out in_memory verifier (wrong (pos 40) ∷ wrong (pos 41) ∷ [])
      (right (pos 42)) (omega arith) (omega arith) (omega arith) wrong_refused

right_accepted : (attempt in_memory verifier (right (pos 40))).1 ≡ ok true
unfolding verify_inner constant_time_eq const_time_eq_bytes difference diff_loop nonzero_bit
    after_store count_failure replay_key check_and_record sweep_when_due sweep_expired sweep_loop
    make_room record_key insert delete lookup equal add_int64 ◌+ℤ◌
right_accepted = refl

verify_inner_refuses_replay_example :
    (attempt in_memory
      (run in_memory (attempt in_memory verifier (right (pos 40))).0 (wrong (pos 50) ∷ []))
      (right (pos 60))).1
    ≡ ok false
unfolding add_int64 ◌+ℤ◌ ◌-ℤ◌
verify_inner_refuses_replay_example =
    verify_inner_refuses_replay verifier (right (pos 40)) (wrong (pos 50) ∷ []) (right (pos 60))
      store-IsWell right_accepted (omega arith, tt) (omega arith) refl refl (omega arith)

no_nul : All (λ b. b ≢ 0) new_key
no_nul =
    (omega arith, (omega arith, (omega arith, (omega arith, (omega arith, (omega arith, tt))))))

replay_key-injective_example : (new_key ≡ new_key) × (codes "ip=1" ≡ codes "ip=1")
replay_key-injective_example =
    replay_key-injective new_key new_key (codes "ip=1") (codes "ip=1") no_nul no_nul refl
