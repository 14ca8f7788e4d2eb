-- ===== src/Replay.antt =====
-- replay_store.go: the ReplayStore interface, and the bounded store in memory. Times and durations
-- are int64 nanoseconds; a call holds the lock from its first access to its last, so a run of
-- several goroutines is a sequence of calls.
pub mod Invariant
pub mod Live
pub mod Log
pub mod Held
pub mod Retention
use genotp_go.Base.{
  ℕ, zero, suc, ◌+◌, ◌-◌, ◌/◌, ◌^◌, max, Bool, true, false, leb, if◌then◌else◌, List, [], ◌∷◌, ◌++◌,
  length, Bytes, Option, none, some,
}
use genotp_go.Base.Int.{ℤ, pos, negsuc, ◌+ℤ◌, ◌-ℤ◌, ltb_ℤ, leb_ℤ}
use genotp_go.Base.Keys.{lookup, delete, insert, remove_first}
use genotp_go.Errors.{Result, ok, panic}

-- interface ReplayStore, over the state `S` of a store. `now` is what the store reads from the
-- clock.
pub record ReplayStore (S : Type 0) : Type 0 where
  pub check_and_record : S → ℤ → Bytes → ℤ → S × Result Bool
  pub reset : S → S × Result (Unit {0})

-- `next_sweep` is `none` for the zero time.Time, which lies before every time.
pub record InMemoryReplayStore : Type 0 where
  pub entries : List (Bytes × ℤ)
  pub order : List Bytes
  pub max_size : ℕ
  pub next_sweep : Option ℤ
  pub sweep_every : ℤ

-- `make([]string, 0, maxSize)` panics on a negative size.
unfoldable pub new_in_memory_replay_store : ℤ → Result InMemoryReplayStore
new_in_memory_replay_store (negsuc n) = panic
new_in_memory_replay_store (pos max_size) = ok (record {
  entries = [];
  order = [];
  max_size = max_size;
  next_sweep = none;
  sweep_every = pos 30_000_000_000;
})

-- int64 addition, which wraps.
unfoldable pub add_int64 : ℤ → ℤ → ℤ
add_int64 a b =
    let sum = a +ℤ b in
    if leb_ℤ (pos (2 ^ 63)) sum
    then sum -ℤ pos (2 ^ 64)
    else if ltb_ℤ sum (negsuc (2 ^ 63 - 1))
    then sum +ℤ pos (2 ^ 64)
    else sum

-- The loop of `sweepExpiredLocked` over what is left of `order`.
unfoldable pub sweep_loop :
    ℤ → List Bytes → List (Bytes × ℤ) → List Bytes → List (Bytes × ℤ) × List Bytes
sweep_loop now [] entries new_order = (entries, new_order)
sweep_loop now (k ∷ rest) entries new_order = elim (lookup k entries) [
  | none ↦ sweep_loop now rest entries new_order
  | some exp ↦ elim (leb_ℤ exp now) [
    | true ↦ sweep_loop now rest (delete k entries) new_order
    | false ↦ sweep_loop now rest entries (new_order ++ (k ∷ []))
  ]
]

unfoldable pub sweep_expired : ℤ → InMemoryReplayStore → InMemoryReplayStore
sweep_expired now s =
    let (entries, order) = sweep_loop now s.order s.entries [] in
    record s { entries = entries; order = order }

-- The loop of `evictBatchLocked`, with `left` evictions to go.
unfoldable pub evict_loop : ℕ → List (Bytes × ℤ) → List Bytes → List (Bytes × ℤ) × List Bytes
evict_loop zero entries order = (entries, order)
evict_loop (suc left) entries [] = (entries, [])
evict_loop (suc left) entries (oldest ∷ order) = evict_loop left (delete oldest entries) order

unfoldable pub evict_batch : InMemoryReplayStore → InMemoryReplayStore
evict_batch s =
    let (entries, order) = evict_loop (max (length s.entries / 10) 1) s.entries s.order in
    record s { entries = entries; order = order }

-- `now.After(s.nextSweep)`
abbrev pub sweep_due : ℤ → InMemoryReplayStore → Bool
sweep_due now s = elim s.next_sweep [ none ↦ true | some t ↦ ltb_ℤ t now ]

unfoldable pub sweep_when_due : ℤ → InMemoryReplayStore → InMemoryReplayStore
sweep_when_due now s =
    if sweep_due now s
    then record (sweep_expired now s) { next_sweep = some (now +ℤ s.sweep_every) }
    else s

-- `if len(s.entries) >= s.maxSize { … }`
unfoldable pub make_room : ℤ → InMemoryReplayStore → InMemoryReplayStore
make_room now s =
    let swept = sweep_expired now s in
    if leb s.max_size (length s.entries)
    then (if leb swept.max_size (length swept.entries) then evict_batch swept else swept)
    else s

-- The last steps: an expired entry of the key leaves `order`, and the key is recorded as the newest.
unfoldable pub record_key : Bytes → ℤ → InMemoryReplayStore → InMemoryReplayStore
record_key key expire_at s =
    let order : List Bytes = elim (lookup key s.entries) [
      | none ↦ s.order
      | some _ ↦ remove_first key s.order
    ] in
    record s { entries = insert key expire_at s.entries; order = order ++ (key ∷ []) }

-- `exp, ok := s.entries[keyStr]; ok && exp > nowNano`
abbrev pub is_live : InMemoryReplayStore → ℤ → Bytes → Bool
is_live s now key = elim (lookup key s.entries) [ none ↦ false | some exp ↦ ltb_ℤ now exp ]

unfoldable pub check_and_record :
    InMemoryReplayStore → ℤ → Bytes → ℤ → InMemoryReplayStore × Result Bool
check_and_record s now key ttl =
    let expire_at = add_int64 now ttl in
    let s1 = sweep_when_due now s in
    if is_live s1 now key
    then (s1, ok false)
    else (record_key key expire_at (make_room now s1), ok true)

unfoldable pub reset : InMemoryReplayStore → InMemoryReplayStore × Result (Unit {0})
reset s = (record s { entries = []; order = []; next_sweep = none }, ok tt)

unfoldable pub size : InMemoryReplayStore → ℕ
size s = length s.entries

abbrev pub in_memory : ReplayStore InMemoryReplayStore
in_memory = record { check_and_record = check_and_record; reset = reset }
