-- ===== src/Replay/Retention.antt =====
-- How long the bounded store holds a key that it has recorded: until its entry expires, while few
-- enough calls have followed.
use genotp_go.Base.{
  ℕ, suc, ◌+◌, ◌/◌, ◌≤◌, max, true, false, not, List, [], ◌∷◌, length, Bytes, ◌≡◌, refl, ap, ◌∙◌,
  arith, All,
}
use genotp_go.Base.Int.{ℤ, ltb_ℤ, ◌<ℤ◌}
use genotp_go.Base.Keys.{delete, insert}
use mathlib.Core.Path.{subst}
use genotp_go.Errors.{ok}
use genotp_go.Replay.{
  add_int64, InMemoryReplayStore, sweep_when_due, make_room, record_key, is_live, check_and_record,
}
use genotp_go.Replay.Invariant.{IsWell, check_and_record-IsWell, check_and_record-max_size}
use genotp_go.Replay.Live.{check_and_record_answer, is_live-sweep_when_due}
use genotp_go.Replay.Held.{IsHeld, check_and_record-IsHeld, is_live-IsHeld}

-- A call of CheckAndRecord, at its time.
pub record Call : Type 0 where
  pub time : ℤ
  pub name : Bytes
  pub ttl : ℤ

unfoldable pub run : InMemoryReplayStore → List Call → InMemoryReplayStore
run s [] = s
run s (c ∷ calls) = run (check_and_record s c.time c.name c.ttl).0 calls

run-IsHeld :
    (key : Bytes) (exp : ℤ) (c : ℕ) (s : InMemoryReplayStore) (calls : List Call)
    → IsWell s
    → All (λ x. x.time <ℤ exp) calls
    → max (s.max_size / 10) 1 + c + length calls ≤ s.max_size
    → IsHeld key exp c s.entries
    → IsWell (run s calls) × IsHeld key exp (c + length calls) (run s calls).entries
unfolding run
run-IsHeld key exp c s [] w early room h =
    (w, subst (λ n. IsHeld key exp n s.entries) (omega arith) h)
run-IsHeld key exp c s (x ∷ calls) w early room h =
    let s1 = (check_and_record s x.time x.name x.ttl).0 in
    let (w', h') =
      run-IsHeld key exp (suc c) s1 calls (check_and_record-IsWell s x.time x.name x.ttl w) early.1
        (omega (arith, room, check_and_record-max_size s x.time x.name x.ttl))
        (check_and_record-IsHeld key exp x.name x.time x.ttl c s w early.0 (omega (arith, room))
          h) in
    (w', subst (λ n. IsHeld key exp n (run s1 calls).entries) (omega arith) h')

recorded-IsHeld :
    (s : InMemoryReplayStore) (now : ℤ) (key : Bytes) (ttl : ℤ)
    → is_live (sweep_when_due now s) now key ≡ false
    → IsHeld key (add_int64 now ttl) 0 (check_and_record s now key ttl).0.entries
unfolding check_and_record record_key insert
recorded-IsHeld s now key ttl fresh = rw fresh (record {
  front = delete key (make_room now (sweep_when_due now s)).entries;
  back = [];
  split = refl;
  recent = omega arith;
})

before_expiry : (t e : ℤ) → t <ℤ e → ltb_ℤ t e ≡ true
before_expiry t e h = ground arith

-- A key that a well-formed store takes as new is refused by a call before its entry expires,
-- though the store is bounded, as long as the calls in between (of whatever keys, all before the
-- expiry too) number at most `max_size` less the largest batch that an eviction removes.
pub check_and_record_retains :
    (s : InMemoryReplayStore) (now : ℤ) (key : Bytes) (ttl : ℤ) (calls : List Call) (t ttl' : ℤ)
    → IsWell s
    → is_live s now key ≡ false
    → All (λ c. c.time <ℤ add_int64 now ttl) calls
    → t <ℤ add_int64 now ttl
    → max (s.max_size / 10) 1 + length calls ≤ s.max_size
    → (check_and_record (run (check_and_record s now key ttl).0 calls) t key ttl').1 ≡ ok false
check_and_record_retains s now key ttl calls t ttl' w fresh early lt room =
    let exp = add_int64 now ttl in
    let s1 = (check_and_record s now key ttl).0 in
    let (w', h) =
      run-IsHeld key exp 0 s1 calls (check_and_record-IsWell s now key ttl w) early
        (omega (arith, room, check_and_record-max_size s now key ttl))
        (recorded-IsHeld s now key ttl
          (is_live-sweep_when_due now now key s w.ordered (omega arith) ∙ fresh)) in
    check_and_record_answer (run s1 calls) t key ttl' w'
    ∙ ap (λ b. ok (not b))
        (is_live-IsHeld key exp (0 + length calls) t (run s1 calls) w'.ordered h
          ∙ before_expiry t exp lt)
