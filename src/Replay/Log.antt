-- ===== src/Replay/Log.antt =====
-- The store's loops as operations on one list: where `order` lists the keys of `entries`, a sweep
-- is a filter and an eviction a drop.
use genotp_go.Base.{
  ℕ, zero, suc, ◌-◌, ◌≤◌, true, false, if◌then◌else◌, List, [], ◌∷◌, ◌++◌, length, drop, Bytes,
  some, ◌≡◌, refl, sym, ap, ◌∙◌, inl, inr, arith, Bool-cases,
}
use genotp_go.Base.Int.{ℤ, leb_ℤ}
use genotp_go.Base.Keys.{
  equal_self, equal_ne, IsAbsent, IsDistinct, keys, lookup, delete, delete_absent, keys_concat,
}
use genotp_go.Replay.{sweep_loop, evict_loop}
use mathlib.Core.Path.{subst}
use mathlib.Core.List.{append_assoc, append-nil}

abbrev pub Log : Type 0
Log = List (Bytes × ℤ)

-- The entries that have not expired at `now`.
unfoldable pub unexpired : ℤ → Log → Log
unexpired now [] = []
unexpired now ((k, exp) ∷ m) =
    let rest = unexpired now m in if leb_ℤ exp now then rest else (k, exp) ∷ rest

pub keys-append : (xs ys : Log) → keys (xs ++ ys) ≡ keys xs ++ keys ys
keys-append [] ys = refl
keys-append ((k, e) ∷ xs) ys = ap (◌∷◌ k) (keys-append xs ys)

pub length-keys : (m : Log) → length (keys m) ≡ length m
length-keys [] = refl
length-keys ((k, e) ∷ m) = ap suc (length-keys m)

-- A key in the middle of a log without repetition.
IsAbsent-append :
    (k : Bytes) (xs ys : Log)
    → IsAbsent k (keys (xs ++ ys))
    → IsAbsent k (keys xs) × IsAbsent k (keys ys)
IsAbsent-append k [] ys h = (tt, h)
IsAbsent-append k ((j, e) ∷ xs) ys h = let (a, b) = IsAbsent-append k xs ys h.1 in ((h.0, a), b)

append-IsAbsent :
    (k : Bytes) (xs ys : Log)
    → IsAbsent k (keys xs)
    → IsAbsent k (keys ys)
    → IsAbsent k (keys (xs ++ ys))
append-IsAbsent k [] ys h g = g
append-IsAbsent k ((j, e) ∷ xs) ys h g = (h.0, append-IsAbsent k xs ys h.1 g)

pub record Middle (xs : Log) (k : Bytes) (ys : Log) : Type 0 where
  pub before : IsAbsent k (keys xs)
  pub after : IsAbsent k (keys ys)
  pub others : IsDistinct (keys (xs ++ ys))

pub distinct-Middle :
    (xs : Log) (k : Bytes) (e : ℤ) (ys : Log)
    → IsDistinct (keys (xs ++ ((k, e) ∷ ys)))
    → Middle xs k ys
distinct-Middle [] k e ys d = record { before = tt; after = d.0; others = d.1 }
distinct-Middle ((j, f) ∷ xs) k e ys d =
    let m = distinct-Middle xs k e ys d.1 in
    let (a, b) = IsAbsent-append j xs ((k, e) ∷ ys) d.0 in
    record {
      before = ((λ p. b.0 (sym p)), m.before);
      after = m.after;
      others = (append-IsAbsent j xs ys a b.1, m.others);
    }

pub lookup_middle :
    (xs : Log) (k : Bytes) (e : ℤ) (ys : Log)
    → IsAbsent k (keys xs)
    → lookup k (xs ++ ((k, e) ∷ ys)) ≡ some e
unfolding lookup
lookup_middle [] k e ys h = rw (equal_self k)
lookup_middle ((j, f) ∷ xs) k e ys h = rw (equal_ne j k h.0) (lookup_middle xs k e ys h.1)

pub delete_middle :
    (xs : Log) (k : Bytes) (e : ℤ) (ys : Log)
    → IsAbsent k (keys xs)
    → IsAbsent k (keys ys)
    → delete k (xs ++ ((k, e) ∷ ys)) ≡ xs ++ ys
unfolding delete
delete_middle [] k e ys h g = rw (equal_self k) (delete_absent k ys g)
delete_middle ((j, f) ∷ xs) k e ys h g =
    rw (equal_ne j k h.0) (ap (◌∷◌ (j, f)) (delete_middle xs k e ys h.1 g))

-- One more entry kept at the end of the front.
pub shift :
    (xs : Log) (k : Bytes) (e : ℤ) (ys : Log) → xs ++ ((k, e) ∷ ys) ≡ (xs ++ ((k, e) ∷ [])) ++ ys
shift xs k e ys = sym (append_assoc xs ((k, e) ∷ []) ys)

abbrev pub Split : Log → Log → Log × List Bytes
Split front kept = (front ++ kept, keys front ++ keys kept)

Split-shift :
    (xs : Log) (k : Bytes) (e : ℤ) (ys : Log)
    → Split (xs ++ ((k, e) ∷ [])) ys ≡ Split xs ((k, e) ∷ ys)
Split-shift [] k e ys = refl
Split-shift ((j, f) ∷ xs) k e ys = ap (λ p. ((j, f) ∷ p.0, j ∷ p.1)) (Split-shift xs k e ys)

-- The two steps of the sweep on a key that is recorded.
pub sweep_loop_expired :
    (now : ℤ) (k : Bytes) (e : ℤ) (ks front : List Bytes) (m : Log)
    → lookup k m ≡ some e
    → leb_ℤ e now ≡ true
    → sweep_loop now (k ∷ ks) m front ≡ sweep_loop now ks (delete k m) front
unfolding sweep_loop
sweep_loop_expired now k e ks front m found t = ground arith

pub sweep_loop_kept :
    (now : ℤ) (k : Bytes) (e : ℤ) (ks front : List Bytes) (m : Log)
    → lookup k m ≡ some e
    → leb_ℤ e now ≡ false
    → sweep_loop now (k ∷ ks) m front ≡ sweep_loop now ks m (front ++ (k ∷ []))
unfolding sweep_loop
sweep_loop_kept now k e ks front m found f = ground arith

pub unexpired_cons_expired :
    (now : ℤ) (k : Bytes) (e : ℤ) (m : Log)
    → leb_ℤ e now ≡ true
    → unexpired now ((k, e) ∷ m) ≡ unexpired now m
unfolding unexpired
unexpired_cons_expired now k e m t = rw t refl

pub unexpired_cons_kept :
    (now : ℤ) (k : Bytes) (e : ℤ) (m : Log)
    → leb_ℤ e now ≡ false
    → unexpired now ((k, e) ∷ m) ≡ (k, e) ∷ unexpired now m
unfolding unexpired
unexpired_cons_kept now k e m t = rw t refl

-- The sweep keeps the unexpired entries, in their order.
pub sweep_loop-unexpired :
    (now : ℤ) (todo front : Log)
    → IsDistinct (keys (front ++ todo))
    → sweep_loop now (keys todo) (front ++ todo) (keys front) ≡ Split front (unexpired now todo)
sweep_loop-unexpired now [] front d =
    unfold sweep_loop unexpired in ap (λ ks. (front ++ [], ks)) (sym (append-nil (keys front)))
sweep_loop-unexpired now ((k, e) ∷ todo) front d =
    let m = distinct-Middle front k e todo d in
    let found = lookup_middle front k e todo m.before in
    elim (Bool-cases (leb_ℤ e now)) [
      | inl t ↦
          sweep_loop_expired now k e (keys todo) (keys front) (front ++ ((k, e) ∷ todo)) found t
          ∙ ap (λ x. sweep_loop now (keys todo) x (keys front))
              (delete_middle front k e todo m.before m.after)
          ∙ sweep_loop-unexpired now todo front m.others
          ∙ ap (Split front) (sym (unexpired_cons_expired now k e todo t))
      | inr f ↦
          sweep_loop_kept now k e (keys todo) (keys front) (front ++ ((k, e) ∷ todo)) found f
          ∙ ap (λ x. sweep_loop now (keys todo) x (keys front ++ (k ∷ []))) (shift front k e todo)
          ∙ ap (sweep_loop now (keys todo) ((front ++ ((k, e) ∷ [])) ++ todo))
              (sym (keys_concat k e front))
          ∙ sweep_loop-unexpired now todo (front ++ ((k, e) ∷ []))
              (subst (λ x. IsDistinct (keys x)) (shift front k e todo) d)
          ∙ Split-shift front k e (unexpired now todo)
          ∙ ap (Split front) (sym (unexpired_cons_kept now k e todo f))
    ]

pub evict_loop-drop :
    (n : ℕ) (m : Log)
    → IsDistinct (keys m)
    → evict_loop n (m) (keys m) ≡ (drop n m, keys (drop n m))
unfolding evict_loop
evict_loop-drop zero m d = refl
evict_loop-drop (suc n) [] d = refl
evict_loop-drop (suc n) ((k, e) ∷ m) d =
    rw (delete_middle [] k e m tt d.0) (evict_loop-drop n m d.1)

-- The filter keeps a log distinct and no longer than it was.
pub unexpired-IsAbsent :
    (now : ℤ) (q : Bytes) (m : Log) → IsAbsent q (keys m) → IsAbsent q (keys (unexpired now m))
unfolding unexpired
unexpired-IsAbsent now q [] h = tt
unexpired-IsAbsent now q ((k, e) ∷ m) h = elim (Bool-cases (leb_ℤ e now)) [
  | inl t ↦ rw t (unexpired-IsAbsent now q m h.1)
  | inr f ↦ rw f (h.0, unexpired-IsAbsent now q m h.1)
]

pub unexpired-IsDistinct :
    (now : ℤ) (m : Log) → IsDistinct (keys m) → IsDistinct (keys (unexpired now m))
unfolding unexpired
unexpired-IsDistinct now [] d = tt
unexpired-IsDistinct now ((k, e) ∷ m) d = elim (Bool-cases (leb_ℤ e now)) [
  | inl t ↦ rw t (unexpired-IsDistinct now m d.1)
  | inr f ↦ rw f (unexpired-IsAbsent now k m d.0, unexpired-IsDistinct now m d.1)
]

pub length-unexpired : (now : ℤ) (m : Log) → length (unexpired now m) ≤ length m
unfolding unexpired
length-unexpired now [] = omega arith
length-unexpired now ((k, e) ∷ m) = ground (arith, length-unexpired now m)

pub drop-IsAbsent :
    (n : ℕ) (q : Bytes) (m : Log) → IsAbsent q (keys m) → IsAbsent q (keys (drop n m))
drop-IsAbsent zero q m h = h
drop-IsAbsent (suc n) q [] h = tt
drop-IsAbsent (suc n) q ((k, e) ∷ m) h = drop-IsAbsent n q m h.1

pub drop-IsDistinct : (n : ℕ) (m : Log) → IsDistinct (keys m) → IsDistinct (keys (drop n m))
drop-IsDistinct zero m d = d
drop-IsDistinct (suc n) [] d = tt
drop-IsDistinct (suc n) ((k, e) ∷ m) d = drop-IsDistinct n m d.1

pub length-drop : (n : ℕ) (m : Log) → length (drop n m) ≡ length m - n
length-drop zero m = omega arith
length-drop (suc n) [] = omega arith
length-drop (suc n) ((k, e) ∷ m) = length-drop n m ∙ omega arith
