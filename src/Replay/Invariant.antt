-- ===== src/Replay/Invariant.antt =====
-- What every operation of the store keeps: `order` lists the keys of `entries`, each once, and no
-- more are held than `max_size`.
use genotp_go.Base.{
  ℕ, ◌+◌, ◌-◌, ◌/◌, ◌≤◌, max, leb, [], ◌∷◌, ◌++◌, length, length-append, drop, Bytes, none, some,
  ◌≡◌, refl, sym, ap, ◌∙◌, inl, inr, arith, Bool-cases, Option-cases,
}
use genotp_go.Base.Int.{ℤ, pos}
use genotp_go.Base.Keys.{
  length-delete, equal, IsDistinct, keys, lookup, delete, insert, remove_first, keys-delete,
  keys_concat, remove_first-IsDistinct, IsDistinct-concat,
}
use genotp_go.Errors.{ok}
use genotp_go.Replay.{
  add_int64, sweep_loop, evict_loop, InMemoryReplayStore, new_in_memory_replay_store, sweep_expired,
  evict_batch, sweep_due, sweep_when_due, make_room, record_key, is_live, check_and_record, reset,
  size,
}
use genotp_go.Replay.Log.{
  Log, unexpired, sweep_loop-unexpired, evict_loop-drop, unexpired-IsDistinct, length-unexpired,
  drop-IsDistinct, length-drop,
}
use mathlib.Core.Path.{subst}

-- `order` lists the keys of `entries`, each once.
pub record IsOrdered (s : InMemoryReplayStore) : Type 0 where
  pub listed : s.order ≡ keys s.entries
  pub distinct : IsDistinct (keys s.entries)

pub record IsWell (s : InMemoryReplayStore) : Type 0 where
  pub ordered : IsOrdered s
  pub bounded : size s ≤ max s.max_size 1

-- The sweep and the eviction as operations on the log.
abbrev pub with_log : InMemoryReplayStore → Log → InMemoryReplayStore
with_log s m = record s { entries = m; order = keys m }

pub sweep_expired-unexpired :
    (now : ℤ) (s : InMemoryReplayStore)
    → IsOrdered s
    → sweep_expired now s ≡ with_log s (unexpired now s.entries)
sweep_expired-unexpired now s o =
    unfold sweep_expired in
    ap (λ p. record s { entries = p.0; order = p.1 })
      (ap (λ ks. sweep_loop now ks s.entries []) o.listed
        ∙ sweep_loop-unexpired now s.entries [] o.distinct)

abbrev pub batch : InMemoryReplayStore → ℕ
batch s = max (length s.entries / 10) 1

pub evict_batch-drop :
    (s : InMemoryReplayStore) → IsOrdered s → evict_batch s ≡ with_log s (drop (batch s) s.entries)
evict_batch-drop s o =
    unfold evict_batch in
    ap (λ p. record s { entries = p.0; order = p.1 })
      (ap (evict_loop (batch s) s.entries) o.listed
        ∙ evict_loop-drop (batch s) s.entries o.distinct)

with_log-IsOrdered :
    (s : InMemoryReplayStore) (m : Log) → IsDistinct (keys m) → IsOrdered (with_log s m)
with_log-IsOrdered s m d = record { listed = refl; distinct = d }

pub sweep_expired-IsOrdered :
    (now : ℤ) (s : InMemoryReplayStore) → IsOrdered s → IsOrdered (sweep_expired now s)
sweep_expired-IsOrdered now s o =
    subst IsOrdered (sym (sweep_expired-unexpired now s o)) (
      with_log-IsOrdered s (unexpired now s.entries)
        (unexpired-IsDistinct now s.entries o.distinct))

pub evict_batch-IsOrdered : (s : InMemoryReplayStore) → IsOrdered s → IsOrdered (evict_batch s)
evict_batch-IsOrdered s o = subst IsOrdered (sym (evict_batch-drop s o)) (
    with_log-IsOrdered s (drop (batch s) s.entries)
      (drop-IsDistinct (batch s) s.entries o.distinct))

pub sweep_when_due-IsOrdered :
    (now : ℤ) (s : InMemoryReplayStore) → IsOrdered s → IsOrdered (sweep_when_due now s)
unfolding sweep_when_due
sweep_when_due-IsOrdered now s o = elim (Bool-cases (sweep_due now s)) [
  | inl t ↦
      let after = sweep_expired-IsOrdered now s o in
      rw t (record { listed = after.listed; distinct = after.distinct })
  | inr f ↦ rw f o
]

pub make_room-IsOrdered :
    (now : ℤ) (s : InMemoryReplayStore) → IsOrdered s → IsOrdered (make_room now s)
unfolding make_room
make_room-IsOrdered now s o =
    let swept = sweep_expired-IsOrdered now s o in
    elim (Bool-cases (leb s.max_size (length s.entries))) [
      | inr f ↦ rw f o
      | inl t ↦
          elim (Bool-cases
            (leb (sweep_expired now s).max_size (length (sweep_expired now s).entries))) [
              | inl t' ↦ rw (t, t') (evict_batch-IsOrdered (sweep_expired now s) swept)
              | inr f' ↦ rw (t, f') swept
            ]
    ]

-- The sizes.
pub sweep_expired-max_size :
    (now : ℤ) (s : InMemoryReplayStore) → (sweep_expired now s).max_size ≡ s.max_size
unfolding sweep_expired
sweep_expired-max_size now s = refl

pub evict_batch-max_size : (s : InMemoryReplayStore) → (evict_batch s).max_size ≡ s.max_size
unfolding evict_batch
evict_batch-max_size s = refl

pub sweep_when_due-max_size :
    (now : ℤ) (s : InMemoryReplayStore) → (sweep_when_due now s).max_size ≡ s.max_size
unfolding sweep_when_due
sweep_when_due-max_size now s = ground (arith, sweep_expired-max_size now s)

pub make_room-max_size :
    (now : ℤ) (s : InMemoryReplayStore) → (make_room now s).max_size ≡ s.max_size
unfolding make_room
make_room-max_size now s =
    ground (arith, sweep_expired-max_size now s, evict_batch-max_size (sweep_expired now s))

pub size-sweep_expired :
    (now : ℤ) (s : InMemoryReplayStore) → IsOrdered s → size (sweep_expired now s) ≤ size s
unfolding size
size-sweep_expired now s o = rw (sweep_expired-unexpired now s o) (length-unexpired now s.entries)

pub size-sweep_when_due :
    (now : ℤ) (s : InMemoryReplayStore) → IsOrdered s → size (sweep_when_due now s) ≤ size s
unfolding sweep_when_due size
size-sweep_when_due now s o = ground (arith, size-sweep_expired now s o)

size-evict_batch : (s : InMemoryReplayStore) → IsOrdered s → size (evict_batch s) ≡ size s - batch s
unfolding size
size-evict_batch s o = rw (evict_batch-drop s o) (length-drop (batch s) s.entries)

-- There is room for one more key.
pub make_room-room :
    (now : ℤ) (s : InMemoryReplayStore) → IsWell s → size (make_room now s) + 1 ≤ max s.max_size 1
unfolding make_room size
make_room-room now s w =
    let swept = sweep_expired now s in
    let o = sweep_expired-IsOrdered now s w.ordered in
    ground (
      arith,
      w.bounded,
      sweep_expired-max_size now s,
      size-sweep_expired now s w.ordered,
      size-evict_batch swept o,
    )

-- Recording a key.
keys-insert-IsDistinct :
    (k : Bytes) (e : ℤ) (m : Log) → IsDistinct (keys m) → IsDistinct (keys (insert k e m))
unfolding insert
keys-insert-IsDistinct k e m d =
    let (rest, gone) = remove_first-IsDistinct k (keys m) d in
    rw (keys_concat k e (delete k m), keys-delete k m d)
      (IsDistinct-concat k (remove_first k (keys m)) rest gone)

keys-delete-none : (k : Bytes) (m : Log) → lookup k m ≡ none → keys (delete k m) ≡ keys m
unfolding lookup delete
keys-delete-none k [] h = refl
keys-delete-none k ((j, e) ∷ m) h = elim (Bool-cases (equal j k)) [
  | inl t ↦ absurd (ground (arith, t, h))
  | inr f ↦ rw f (ap (◌∷◌ j) (keys-delete-none k m (ground (arith, f, h))))
]

order-insert :
    (k : Bytes) (e : ℤ) (m : Log)
    → IsDistinct (keys m)
    → keys (insert k e m)
      ≡ elim (lookup k m) [ none ↦ keys m | some _ ↦ remove_first k (keys m) ] ++ (k ∷ [])
unfolding insert
order-insert k e m d = keys_concat k e (delete k m) ∙ elim (Option-cases (lookup k m)) [
  | inl gone ↦ rw gone (ap (◌++ (k ∷ [])) (keys-delete-none k m gone))
  | inr (e', found) ↦ rw found (ap (◌++ (k ∷ [])) (keys-delete k m d))
]

length-insert : (k : Bytes) (e : ℤ) (m : Log) → length (insert k e m) ≤ length m + 1
unfolding insert
length-insert k e m = omega (arith, length-append (delete k m) ((k, e) ∷ []), length-delete k m)

pub record_key-IsOrdered :
    (k : Bytes) (e : ℤ) (s : InMemoryReplayStore) → IsOrdered s → IsOrdered (record_key k e s)
unfolding record_key
record_key-IsOrdered k e s o = record {
  listed =
      ap (λ ks. elim (lookup k s.entries) [ none ↦ ks | some _ ↦ remove_first k ks ] ++ (k ∷ []))
        o.listed
      ∙ sym (order-insert k e s.entries o.distinct);
  distinct = keys-insert-IsDistinct k e s.entries o.distinct;
}

-- A call: the store stays well formed and keeps its capacity.
pub check_and_record-max_size :
    (s : InMemoryReplayStore) (now : ℤ) (key : Bytes) (ttl : ℤ)
    → (check_and_record s now key ttl).0.max_size ≡ s.max_size
unfolding check_and_record record_key
check_and_record-max_size s now key ttl =
    ground (arith, sweep_when_due-max_size now s, make_room-max_size now (sweep_when_due now s))

pub sweep_when_due-IsWell :
    (now : ℤ) (s : InMemoryReplayStore) → IsWell s → IsWell (sweep_when_due now s)
sweep_when_due-IsWell now s w = record {
  ordered = sweep_when_due-IsOrdered now s w.ordered;
  bounded =
      omega (arith, w.bounded, size-sweep_when_due now s w.ordered, sweep_when_due-max_size now s);
}

pub record_key-IsWell :
    (now : ℤ) (key : Bytes) (e : ℤ) (s : InMemoryReplayStore)
    → IsWell s
    → IsWell (record_key key e (make_room now s))
unfolding record_key size
record_key-IsWell now key e s w = record {
  ordered = record_key-IsOrdered key e (make_room now s) (make_room-IsOrdered now s w.ordered);
  bounded = omega (
    arith,
    length-insert key e (make_room now s).entries,
    make_room-room now s w,
    make_room-max_size now s,
  );
}

-- A call of CheckAndRecord keeps the store well formed: `order` lists the keys of `entries`, each
-- once, and there are at most `max_size` entries, or one where `max_size` is 0.
pub check_and_record-IsWell :
    (s : InMemoryReplayStore) (now : ℤ) (key : Bytes) (ttl : ℤ)
    → IsWell s
    → IsWell (check_and_record s now key ttl).0
unfolding check_and_record
check_and_record-IsWell s now key ttl w =
    let swept = sweep_when_due now s in
    let w1 = sweep_when_due-IsWell now s w in
    elim (Bool-cases (is_live swept now key)) [
      | inl t ↦ rw t w1
      | inr f ↦ rw f (record_key-IsWell now key (add_int64 now ttl) swept w1)
    ]

-- A new store, and a store after Reset, is well formed and empty.
pub new_in_memory_replay_store-IsWell :
    (n : ℕ)
    → (s : InMemoryReplayStore) × (new_in_memory_replay_store (pos n) ≡ ok s)
      × IsWell s
      × (s.entries ≡ [])
unfolding new_in_memory_replay_store size
new_in_memory_replay_store-IsWell n = (
  _,
  refl,
  record { ordered = record { listed = refl; distinct = tt }; bounded = omega arith },
  refl,
)

pub reset-IsWell : (s : InMemoryReplayStore) → IsWell (reset s).0
unfolding reset size
reset-IsWell s = record { ordered = record { listed = refl; distinct = tt }; bounded = omega arith }
