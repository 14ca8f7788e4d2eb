-- ===== src/Replay/Held.antt =====
-- The place of one entry in the store: evictions take the oldest keys first, so an entry that few
-- enough newer ones have followed is safe from them.
use genotp_go.Base.{
  ℕ, zero, suc, ◌+◌, ◌/◌, ◌≤◌, ◌<◌, max, true, false, leb, [], ◌∷◌, ◌++◌, none, some, length,
  length-append, drop, Bytes, ◌≡◌, ◌≢◌, refl, ap, ◌∙◌, inl, inr, arith, Bool-cases,
}
use genotp_go.Base.Int.{ℤ, ltb_ℤ, leb_ℤ, ◌<ℤ◌}
use genotp_go.Base.Keys.{length-delete, equal, equal_ne, IsDistinct, keys, lookup, delete, insert}
use mathlib.Core.Path.{subst}
use mathlib.Core.List.{append_assoc}
use genotp_go.Replay.{
  add_int64, InMemoryReplayStore, sweep_expired, evict_batch, sweep_due, sweep_when_due, make_room,
  record_key, is_live, check_and_record, size,
}
use genotp_go.Replay.Log.{length-unexpired, Log, unexpired, distinct-Middle, lookup_middle}
use genotp_go.Replay.Invariant.{
  IsOrdered, IsWell, batch, sweep_expired-unexpired, evict_batch-drop, sweep_expired-IsOrdered,
  sweep_when_due-max_size, sweep_expired-max_size, sweep_when_due-IsWell, size-sweep_expired,
}

-- The entry of `key`, with at most `c` newer ones.
pub record IsHeld (key : Bytes) (exp : ℤ) (c : ℕ) (m : Log) : Type 0 where
  pub front : Log
  pub back : Log
  pub split : m ≡ front ++ ((key, exp) ∷ back)
  pub recent : length back ≤ c

unexpired-split :
    (now : ℤ) (front : Log) (k : Bytes) (e : ℤ) (back : Log)
    → leb_ℤ e now ≡ false
    → unexpired now (front ++ ((k, e) ∷ back))
      ≡ unexpired now front ++ ((k, e) ∷ unexpired now back)
unfolding unexpired
unexpired-split now [] k e back f = rw f refl
unexpired-split now ((j, x) ∷ front) k e back f = elim (Bool-cases (leb_ℤ x now)) [
  | inl t ↦ rw t (unexpired-split now front k e back f)
  | inr g ↦ rw g (ap (◌∷◌ (j, x)) (unexpired-split now front k e back f))
]

drop-split :
    (n : ℕ) (front back : Log) → n ≤ length front → drop n (front ++ back) ≡ drop n front ++ back
drop-split zero front back h = refl
drop-split (suc n) [] back h = absurd (omega arith)
drop-split (suc n) (x ∷ front) back h = drop-split n front back (omega arith)

delete-split :
    (q : Bytes) (front : Log) (k : Bytes) (e : ℤ) (back : Log)
    → k ≢ q
    → delete q (front ++ ((k, e) ∷ back)) ≡ delete q front ++ ((k, e) ∷ delete q back)
unfolding delete
delete-split q [] k e back ne = rw (equal_ne k q ne) refl
delete-split q ((j, x) ∷ front) k e back ne = elim (Bool-cases (equal j q)) [
  | inl t ↦ rw t (delete-split q front k e back ne)
  | inr f ↦ rw f (ap (◌∷◌ (j, x)) (delete-split q front k e back ne))
]

module _ (key : Bytes) (exp : ℤ) where
  weaken : (c : ℕ) (m : Log) → IsHeld key exp c m → IsHeld key exp (suc c) m
  weaken c m h = record {
    front = h.front;
    back = h.back;
    split = h.split;
    recent = omega (arith, h.recent);
  }

  sweep_expired-IsHeld :
      (now : ℤ) (c : ℕ) (s : InMemoryReplayStore)
      → IsOrdered s
      → leb_ℤ exp now ≡ false
      → IsHeld key exp c s.entries
      → IsHeld key exp c (sweep_expired now s).entries
  sweep_expired-IsHeld now c s o f h = record {
    front = unexpired now h.front;
    back = unexpired now h.back;
    split =
        ap (λ x. x.entries) (sweep_expired-unexpired now s o)
        ∙ ap (unexpired now) h.split
        ∙ unexpired-split now h.front key exp h.back f;
    recent = omega (arith, h.recent, length-unexpired now h.back);
  }

  sweep_when_due-IsHeld :
      (now : ℤ) (c : ℕ) (s : InMemoryReplayStore)
      → IsOrdered s
      → leb_ℤ exp now ≡ false
      → IsHeld key exp c s.entries
      → IsHeld key exp c (sweep_when_due now s).entries
  unfolding sweep_when_due
  sweep_when_due-IsHeld now c s o f h = elim (Bool-cases (sweep_due now s)) [
    | inl t ↦ rw t (sweep_expired-IsHeld now c s o f h)
    | inr g ↦ rw g h
  ]

  evict_batch-IsHeld :
      (c : ℕ) (s : InMemoryReplayStore)
      → IsOrdered s
      → batch s + c < length s.entries
      → IsHeld key exp c s.entries
      → IsHeld key exp c (evict_batch s).entries
  evict_batch-IsHeld c s o room h = record {
    front = drop (batch s) h.front;
    back = h.back;
    split =
        ap (λ x. x.entries) (evict_batch-drop s o)
        ∙ ap (drop (batch s)) h.split
        ∙ drop-split (batch s) h.front ((key, exp) ∷ h.back) (
            omega (
              arith,
              h.recent,
              room,
              length-append h.front ((key, exp) ∷ h.back),
              ap length h.split,
            ));
    recent = h.recent;
  }

  record_key-IsHeld :
      (q : Bytes) (e : ℤ) (c : ℕ) (s : InMemoryReplayStore)
      → key ≢ q
      → IsHeld key exp c s.entries
      → IsHeld key exp (suc c) (record_key q e s).entries
  unfolding record_key insert
  record_key-IsHeld q e c s ne h = record {
    front = delete q h.front;
    back = delete q h.back ++ ((q, e) ∷ []);
    split =
        ap (λ m. delete q m ++ ((q, e) ∷ [])) h.split
        ∙ ap (◌++ ((q, e) ∷ [])) (delete-split q h.front key exp h.back ne)
        ∙ append_assoc (delete q h.front) ((key, exp) ∷ delete q h.back) ((q, e) ∷ []);
    recent =
        omega
          (arith, h.recent, length-delete q h.back, length-append (delete q h.back) ((q, e) ∷ []));
  }

  batch_small :
      (now : ℤ) (c : ℕ) (s : InMemoryReplayStore)
      → IsWell s
      → max (s.max_size / 10) 1 + c < s.max_size
      → leb (sweep_expired now s).max_size (length (sweep_expired now s).entries) ≡ true
      → batch (sweep_expired now s) + c < length (sweep_expired now s).entries
  unfolding size
  batch_small now c s w room full = ground (
    arith,
    room,
    full,
    w.bounded,
    sweep_expired-max_size now s,
    size-sweep_expired now s w.ordered,
  )

  make_room-IsHeld :
      (now : ℤ) (c : ℕ) (s : InMemoryReplayStore)
      → IsWell s
      → leb_ℤ exp now ≡ false
      → max (s.max_size / 10) 1 + c < s.max_size
      → IsHeld key exp c s.entries
      → IsHeld key exp c (make_room now s).entries
  unfolding make_room
  make_room-IsHeld now c s w f room h =
      let swept = sweep_expired now s in
      let o = sweep_expired-IsOrdered now s w.ordered in
      let held = sweep_expired-IsHeld now c s w.ordered f h in
      elim (Bool-cases (leb s.max_size (length s.entries))) [
        | inr g ↦ rw g h
        | inl t ↦ elim (Bool-cases (leb swept.max_size (length swept.entries))) [
          | inr g ↦ rw (t, g) held
          | inl full ↦
              rw (t, full) (evict_batch-IsHeld c swept o (batch_small now c s w room full) held)
        ]
      ]

  pub is_live-IsHeld :
      (c : ℕ) (t : ℤ) (s : InMemoryReplayStore)
      → IsOrdered s
      → IsHeld key exp c s.entries
      → is_live s t key ≡ ltb_ℤ t exp
  is_live-IsHeld c t s o h =
      let m =
        distinct-Middle h.front key exp h.back
          (subst (λ x. IsDistinct (keys x)) h.split o.distinct) in
      ap (λ x. elim (lookup key x) [ none ↦ false | some e ↦ ltb_ℤ t e ]) h.split
      ∙ ap (λ x. elim x [ none ↦ false | some e ↦ ltb_ℤ t e ])
          (lookup_middle h.front key exp h.back m.before)

  -- One more call before the expiry, with whatever key.
  pub check_and_record-IsHeld :
      (q : Bytes) (now ttl : ℤ) (c : ℕ) (s : InMemoryReplayStore)
      → IsWell s
      → now <ℤ exp
      → max (s.max_size / 10) 1 + c < s.max_size
      → IsHeld key exp c s.entries
      → IsHeld key exp (suc c) (check_and_record s now q ttl).0.entries
  unfolding check_and_record
  check_and_record-IsHeld q now ttl c s w lt room h =
      let s1 = sweep_when_due now s in
      let w1 = sweep_when_due-IsWell now s w in
      let late : leb_ℤ exp now ≡ false = ground (arith, lt) in
      let h1 = sweep_when_due-IsHeld now c s w.ordered late h in
      elim (Bool-cases (is_live s1 now q)) [
        | inl t ↦ rw t (weaken c s1.entries h1)
        | inr f ↦ rw f (
            record_key-IsHeld q (add_int64 now ttl) c (make_room now s1)
              (λ same. absurd (
                ground
                  (arith, f, is_live-IsHeld c now s1 w1.ordered h1, ap (is_live s1 now) same, lt)))
              (make_room-IsHeld now c s1 w1 late
                (omega (arith, room, sweep_when_due-max_size now s)) h1))
      ]
