-- ===== src/Replay/Live.antt =====
-- Which keys a call of CheckAndRecord refuses: what the answer is, and what the store holds against
-- a key afterwards.
use genotp_go.Base.{
  ℕ, zero, suc, ◌<◌, Bool, true, false, not, ◌&&◌, if◌then◌else◌, [], ◌∷◌, drop, Bytes, Option,
  none, some, ◌≡◌, ◌≢◌, refl, sym, ap, ◌∙◌, inl, inr, arith, Bool-cases,
}
use genotp_go.Base.Int.{ℤ, ltb_ℤ, leb_ℤ, ◌≤ℤ◌}
use genotp_go.Base.Keys.{
  equal, equal_iff, equal_ne, IsAbsent, IsDistinct, keys, lookup, lookup_absent, lookup-insert,
}
use mathlib.Core.Path.{subst}
use genotp_go.Errors.{ok}
use genotp_go.Replay.{
  add_int64, InMemoryReplayStore, sweep_expired, evict_batch, sweep_due, sweep_when_due, make_room,
  record_key, is_live, check_and_record, size,
}
use genotp_go.Replay.Log.{Log, unexpired}
use genotp_go.Replay.Invariant.{
  IsOrdered, IsWell, batch, sweep_expired-unexpired, evict_batch-drop, sweep_when_due-IsOrdered,
  sweep_expired-IsOrdered, size-sweep_when_due, sweep_when_due-max_size,
}

-- A key found at the head is not in the tail.
lookup_tail : (k q : Bytes) (m : Log) → IsAbsent k (keys m) → equal k q ≡ true → lookup q m ≡ none
lookup_tail k q m h t = lookup_absent q m (subst (λ x. IsAbsent x (keys m)) ((equal_iff k q).0 t) h)

lookup-unexpired :
    (now : ℤ) (q : Bytes) (m : Log)
    → IsDistinct (keys m)
    → lookup q (unexpired now m)
      ≡ elim (lookup q m) [ none ↦ none | some e ↦ if leb_ℤ e now then none else some e ]
unfolding lookup unexpired
lookup-unexpired now q [] d = refl
lookup-unexpired now q ((k, e) ∷ m) d = elim (Bool-cases (equal k q)) [
  | inr f ↦ ground (arith, f, lookup-unexpired now q m d.1)
  | inl t ↦ elim (Bool-cases (leb_ℤ e now)) [
    | inr g ↦ ground (arith, t, g)
    | inl g ↦ rw (t, g) (lookup-unexpired now q m d.1 ∙ rw (lookup_tail k q m d.0 t) refl)
  ]
]

lookup-drop :
    (n : ℕ) (q : Bytes) (m : Log) (e : ℤ)
    → IsDistinct (keys m)
    → lookup q (drop n m) ≡ some e
    → lookup q m ≡ some e
unfolding lookup
lookup-drop zero q m e d h = h
lookup-drop (suc n) q [] e d h = h
lookup-drop (suc n) q ((k, e') ∷ m) e d h =
    let tail = lookup-drop n q m e d.1 h in
    elim (Bool-cases (equal k q)) [
      | inl t ↦ absurd (ground (arith, tail, lookup_tail k q m d.0 t))
      | inr f ↦ rw f tail
    ]

-- An entry, held against its key at the time `t`.
abbrev holds : ℤ → Option ℤ → Bool
holds t o = elim o [ none ↦ false | some e ↦ ltb_ℤ t e ]

holds_unexpired :
    (now t : ℤ) (o : Option ℤ)
    → now ≤ℤ t
    → holds t (elim o [ none ↦ none | some e ↦ if leb_ℤ e now then none else some e ]) ≡ holds t o
holds_unexpired now t none h = refl
holds_unexpired now t (some e) h = ground arith

-- What the store holds against a key, from any time after the sweep.
is_live-sweep_expired :
    (now t : ℤ) (q : Bytes) (s : InMemoryReplayStore)
    → IsOrdered s
    → now ≤ℤ t
    → is_live (sweep_expired now s) t q ≡ is_live s t q
is_live-sweep_expired now t q s o h =
    ap (λ x. is_live x t q) (sweep_expired-unexpired now s o)
    ∙ ap (holds t) (lookup-unexpired now q s.entries o.distinct)
    ∙ holds_unexpired now t (lookup q s.entries) h

pub is_live-sweep_when_due :
    (now t : ℤ) (q : Bytes) (s : InMemoryReplayStore)
    → IsOrdered s
    → now ≤ℤ t
    → is_live (sweep_when_due now s) t q ≡ is_live s t q
unfolding sweep_when_due
is_live-sweep_when_due now t q s o h = elim (Bool-cases (sweep_due now s)) [
  | inl due ↦ rw due (is_live-sweep_expired now t q s o h)
  | inr not_due ↦ rw not_due refl
]

-- An eviction forgets keys and adds none.
is_live-evict_batch :
    (t : ℤ) (q : Bytes) (s : InMemoryReplayStore)
    → IsOrdered s
    → is_live (evict_batch s) t q ≡ true
    → is_live s t q ≡ true
is_live-evict_batch t q s o h =
    go (lookup q (drop (batch s) s.entries)) refl
      (sym (ap (λ x. is_live x t q) (evict_batch-drop s o)) ∙ h)
  where
    go :
        (x : Option ℤ)
        → lookup q (drop (batch s) s.entries) ≡ x
        → holds t (lookup q (drop (batch s) s.entries)) ≡ true
        → is_live s t q ≡ true
    go none e held = absurd (ground (arith, sym (ap (holds t) e) ∙ held))
    go (some x) e held =
        ap (holds t) (lookup-drop (batch s) q s.entries x o.distinct e)
        ∙ sym (ap (holds t) e)
        ∙ held

is_live-make_room :
    (now t : ℤ) (q : Bytes) (s : InMemoryReplayStore)
    → IsOrdered s
    → now ≤ℤ t
    → is_live (make_room now s) t q ≡ true
    → is_live s t q ≡ true
unfolding make_room
is_live-make_room now t q s o h = ground (
  arith,
  is_live-sweep_expired now t q s o h,
  is_live-evict_batch t q (sweep_expired now s) (sweep_expired-IsOrdered now s o),
)

is_live-record_key :
    (t e : ℤ) (k q : Bytes) (s : InMemoryReplayStore)
    → is_live (record_key k e s) t q ≡ (if equal k q then ltb_ℤ t e else is_live s t q)
unfolding record_key
is_live-record_key t e k q s = ap (holds t) (lookup-insert k q e s.entries) ∙ ground arith

make_room_enough : (now : ℤ) (s : InMemoryReplayStore) → size s < s.max_size → make_room now s ≡ s
unfolding make_room size
make_room_enough now s h = ground (arith, h)

≤ℤ_refl : (t : ℤ) → t ≤ℤ t
≤ℤ_refl t = omega arith

-- The answer of CheckAndRecord on a well-formed store is whether the key is new: it is refused
-- exactly where an entry is held against it at the time of the call. There is no error.
pub check_and_record_answer :
    (s : InMemoryReplayStore) (now : ℤ) (key : Bytes) (ttl : ℤ)
    → IsWell s
    → (check_and_record s now key ttl).1 ≡ ok (not (is_live s now key))
unfolding check_and_record
check_and_record_answer s now key ttl w =
    ground (arith, is_live-sweep_when_due now now key s w.ordered (≤ℤ_refl now))

-- What a store holds against each key at each time, after the key is recorded.
abbrev pub recorded : (ℤ → Bytes → Bool) → ℤ → Bytes → ℤ → ℤ → Bytes → Bool
recorded live now key ttl t q =
    if equal key q && not (live now key) then ltb_ℤ t (add_int64 now ttl) else live t q

-- While fewer than `max_size` entries are held, CheckAndRecord on a well-formed store is the
-- abstract replay set: from the time of the call on, a key that was new is held against until its
-- time to live is over, and all other keys, and a refused one, as before.
pub check_and_record_refines :
    (s : InMemoryReplayStore) (now : ℤ) (key : Bytes) (ttl : ℤ) (t : ℤ) (q : Bytes)
    → IsWell s
    → size s < s.max_size
    → now ≤ℤ t
    → is_live (check_and_record s now key ttl).0 t q ≡ recorded (is_live s) now key ttl t q
unfolding check_and_record
check_and_record_refines s now key ttl t q w room h =
    let swept = sweep_when_due now s in
    ground (
      arith,
      is_live-sweep_when_due now now key s w.ordered (≤ℤ_refl now),
      is_live-sweep_when_due now t q s w.ordered h,
      make_room_enough now swept,
      size-sweep_when_due now s w.ordered,
      sweep_when_due-max_size now s,
      is_live-record_key t (add_int64 now ttl) key q (make_room now swept),
      room,
    )

-- However full a well-formed store is, a call of CheckAndRecord holds nothing against any other key,
-- at the time of the call or later, that was not held against it before.
pub check_and_record_adds_nothing :
    (s : InMemoryReplayStore) (now : ℤ) (key : Bytes) (ttl : ℤ) (t : ℤ) (q : Bytes)
    → IsWell s
    → key ≢ q
    → now ≤ℤ t
    → is_live (check_and_record s now key ttl).0 t q ≡ true
    → is_live s t q ≡ true
unfolding check_and_record
check_and_record_adds_nothing s now key ttl t q w ne h =
    let swept = sweep_when_due now s in
    ground (
      arith,
      is_live-sweep_when_due now t q s w.ordered h,
      sweep_when_due-IsOrdered now s w.ordered,
      is_live-make_room now t q swept (sweep_when_due-IsOrdered now s w.ordered) h,
      is_live-record_key t (add_int64 now ttl) key q (make_room now swept),
      equal_ne key q ne,
    )
