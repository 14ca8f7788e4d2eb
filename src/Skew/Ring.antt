-- ===== src/Skew/Ring.antt =====
-- The ring buffer of the detector against the list of the offsets recorded last.
use genotp_go.Base.{
  ℕ, suc, ◌+◌, ◌-◌, ◌%◌, ◌≤◌, ◌<◌, ltb, if◌then◌else◌, List, [], ◌∷◌, ◌++◌, length, length-append,
  length-set, get_or, set, take, drop, ◌≡◌, refl, sym, ap, ◌∙◌, arith,
}
use genotp_go.Base.Int.{ℤ, pos, ◌+ℤ◌, ◌-ℤ◌}
use genotp_go.Errors.{Result, ok, panic}
use genotp_go.Skew.{
  SkewState, empty_state, count_in, count_out, append_sample, replace_sample, add_sample,
  wrap_int64,
}
use mathlib.Core.List.{append-nil}
use mathlib.Core.Path.{subst}
use native.Mathlib.Nat.{mod_self, mod-eq_of_lt}
use native.Mathlib.Decide.{dec_lt}
use genotp_go.Skew.Samples.{
  non_zeros, take_all, drop_all, length-rotated, rotated-set, get_elem?-some, unit,
  non_zeros-append, non_zeros-set, count_in-unit, count_out-unit, unit-le,
}

-- The state of a detector with a capacity above 0.
pub record IsRing (s : SkewState) : Type 0 where
  pub size : length s.buffer ≡ s.filled
  pub room : s.filled ≤ s.capacity
  pub inside : s.write_idx < s.capacity
  pub at_end : s.filled < s.capacity → s.write_idx ≡ s.filled
  pub counted : s.non_zero_count ≡ pos (non_zeros s.buffer)

-- The samples, the oldest first.
unfoldable pub held : SkewState → List ℤ
held s =
    if ltb s.filled s.capacity
    then s.buffer
    else drop s.write_idx s.buffer ++ take s.write_idx s.buffer

-- The last `n` elements.
unfoldable pub latest : ℕ → List ℤ → List ℤ
latest n xs = drop (length xs - n) xs

append_sample-IsRing :
    (s : SkewState) (v : ℤ) → IsRing s → s.filled < s.capacity → IsRing (append_sample s v)
unfolding append_sample
append_sample-IsRing s v r free = record {
  size = omega (arith, length-append s.buffer (v ∷ []), r.size);
  room = omega arith;
  inside = omega arith;
  at_end = λ h. mod-eq_of_lt h;
  counted =
      ap (count_in v) r.counted
      ∙ count_in-unit v (non_zeros s.buffer)
      ∙ ap pos (sym (non_zeros-append s.buffer v));
}

-- The state after a replacement.
abbrev replaced : SkewState → ℤ → ℤ → SkewState
replaced s old v = record s {
  buffer = set s.buffer s.write_idx v;
  sum = wrap_int64 (wrap_int64 (s.sum -ℤ old) +ℤ v);
  non_zero_count = count_in v (count_out old s.non_zero_count);
  write_idx = (s.write_idx + 1) % s.capacity;
}

replace_sample-replaced :
    (s : SkewState) (v : ℤ)
    → IsRing s
    → s.capacity ≤ s.filled
    → replace_sample s v ≡ ok (replaced s (get_or s.buffer s.write_idx (pos 0)) v)
unfolding replace_sample
replace_sample-replaced s v r full =
    ground (arith, get_elem?-some s.buffer s.write_idx (omega (arith, r.size, r.inside)), r.inside)

replaced-IsRing :
    (s : SkewState) (v : ℤ)
    → IsRing s
    → s.capacity ≤ s.filled
    → IsRing (replaced s (get_or s.buffer s.write_idx (pos 0)) v)
replaced-IsRing s v r full =
    let b = s.buffer in
    let w = s.write_idx in
    let here : w < length b = omega (arith, r.size, r.inside) in
    let old = get_or b w (pos 0) in
    record {
      size = omega (arith, length-set b w v, r.size);
      room = r.room;
      inside = omega (arith, r.inside);
      at_end = λ h. absurd (omega arith);
      counted =
          ap (λ n. count_in v (count_out old n)) r.counted
          ∙ ap (count_in v) (count_out-unit old (non_zeros b) (unit-le b w here))
          ∙ count_in-unit v (non_zeros b - unit old)
          ∙ ap pos (omega (arith, non_zeros-set b w v here, unit-le b w here));
    }

held_free : (s : SkewState) → s.filled < s.capacity → held s ≡ s.buffer
unfolding held
held_free s h = ground (arith, h)

held_full :
    (s : SkewState)
    → s.capacity ≤ s.filled
    → held s ≡ drop s.write_idx s.buffer ++ take s.write_idx s.buffer
unfolding held
held_full s h = ground (arith, h)

none_over : (c : ℕ) (xs : List ℤ) → length xs ≤ c → length xs - c ≡ 0
none_over c xs h = omega arith

one_over : (c : ℕ) (xs : List ℤ) → length xs ≡ c + 1 → length xs - c ≡ 1
one_over c xs h = omega arith

latest_short : (c : ℕ) (xs : List ℤ) → length xs ≤ c → latest c xs ≡ xs
unfolding latest
latest_short c xs h = ap (λ n. drop n xs) (none_over c xs h)

latest_one : (c : ℕ) (xs : List ℤ) → length xs ≡ c + 1 → latest c xs ≡ drop 1 xs
unfolding latest
latest_one c xs h = ap (λ n. drop n xs) (one_over c xs h)

wraps : (n c : ℕ) → n + 1 ≡ c → (n + 1) % c ≡ 0
wraps n c e = subst (λ x. (n + 1) % x ≡ 0) e (mod_self (n + 1))

-- The next index in a full buffer, of which the oldest sample was replaced.
turn :
    (b : List ℤ) (w c : ℕ)
    → w < length b
    → length b ≡ c
    → drop ((w + 1) % c) b ++ take ((w + 1) % c) b ≡ drop (w + 1) b ++ take (w + 1) b
turn b w c here whole = elim (dec_lt (w + 1) c) [
  | yes more ↦ ap (λ i. drop i b ++ take i b) (mod-eq_of_lt more)
  | no last ↦
      ap (λ i. drop i b ++ take i b) (wraps w c (omega arith))
      ∙ append-nil b
      ∙ sym (
          ap (◌++ (take (w + 1) b)) (drop_all b (w + 1) (omega arith))
          ∙ take_all b (w + 1) (omega arith))
]

plus_one : (w : ℕ) → w + 1 ≡ suc w
plus_one w = omega arith

held-append_sample :
    (s : SkewState) (v : ℤ)
    → IsRing s
    → s.filled < s.capacity
    → held (append_sample s v) ≡ latest s.capacity (held s ++ (v ∷ []))
unfolding append_sample
held-append_sample s v r free =
    let b = s.buffer ++ (v ∷ []) in
    let fits : length b ≤ s.capacity = omega (arith, length-append s.buffer (v ∷ []), r.size) in
    all_of b
    ∙ sym (latest_short s.capacity b fits)
    ∙ ap (λ x. latest s.capacity (x ++ (v ∷ []))) (sym (held_free s free))
  where
    all_of : (b : List ℤ) → held (record (append_sample s v) { buffer = b }) ≡ b
    all_of b = elim (dec_lt (s.filled + 1) s.capacity) [
      | yes more ↦ held_free (record (append_sample s v) { buffer = b }) more
      | no last ↦
          held_full (record (append_sample s v) { buffer = b }) (omega arith)
          ∙ ap (λ w. drop w b ++ take w b) (wraps s.filled s.capacity (omega arith))
          ∙ append-nil b
    ]

held-replaced :
    (s : SkewState) (v : ℤ)
    → IsRing s
    → s.capacity ≤ s.filled
    → held (replaced s (get_or s.buffer s.write_idx (pos 0)) v)
      ≡ latest s.capacity (held s ++ (v ∷ []))
held-replaced s v r full =
    let b = s.buffer in
    let w = s.write_idx in
    let here : w < length b = omega (arith, r.size, r.inside) in
    held_full (replaced s (get_or b w (pos 0)) v) full
    ∙ turn (set b w v) w s.capacity (omega (arith, length-set b w v))
        (omega (arith, length-set b w v, r.size, r.room))
    ∙ ap (λ i. drop i (set b w v) ++ take i (set b w v)) (plus_one w)
    ∙ rotated-set b w v here
    ∙ sym (
        latest_one s.capacity ((drop w b ++ take w b) ++ (v ∷ [])) (
          omega (
            arith,
            length-append (drop w b ++ take w b) (v ∷ []),
            length-rotated b w,
            r.size,
            r.room,
          )))
    ∙ ap (λ x. latest s.capacity (x ++ (v ∷ []))) (sym (held_full s full))

-- A sample that was added, with what it makes of a state.
pub record Added (s : SkewState) (v : ℤ) (answer : Result SkewState) : Type 0 where
  pub next : SkewState
  pub is : answer ≡ ok next
  pub ring : IsRing next
  pub same_capacity : next.capacity ≡ s.capacity
  pub samples : held next ≡ latest s.capacity (held s ++ (v ∷ []))

-- `Record` never panics on the buffer of a detector with a capacity above 0, and the buffer is a
-- sliding window: it then holds the last `capacity` of the offsets that it held before and the new
-- one, in their order, and the count of the offsets that are not 0 stays right.
pub add_sample-Added : (s : SkewState) (v : ℤ) → IsRing s → Added s v (add_sample s v)
unfolding add_sample
add_sample-Added s v r = elim (dec_lt s.filled s.capacity) [
  | yes free ↦ record {
    next = append_sample s v;
    is = ground (arith, free);
    ring = append_sample-IsRing s v r free;
    same_capacity = unfold append_sample in refl;
    samples = held-append_sample s v r free;
  }
  | no full ↦ record {
    next = replaced s (get_or s.buffer s.write_idx (pos 0)) v;
    is = ground (arith, full, replace_sample-replaced s v r (omega arith));
    ring = replaced-IsRing s v r (omega arith);
    same_capacity = refl;
    samples = held-replaced s v r (omega arith);
  }
]

-- A new buffer with a capacity above 0.
pub empty_state-IsRing : (c : ℕ) → 0 < c → IsRing (empty_state c)
unfolding non_zeros
empty_state-IsRing c h = record {
  size = refl;
  room = omega arith;
  inside = h;
  at_end = λ _. refl;
  counted = refl;
}

-- With capacity 0, which the constructor takes, the first sample is an index out of range.
pub empty_state_panics : (v : ℤ) → add_sample (empty_state 0) v ≡ panic
unfolding add_sample replace_sample
empty_state_panics v = refl
