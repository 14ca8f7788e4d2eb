-- ===== src/ConstantTime/Equality.antt =====
-- The comparisons decide equality of byte strings.
use genotp_go.Base.{
  ℕ, zero, suc, ◌+◌, ◌-◌, ◌%◌, ◌^◌, ◌≤◌, ◌<◌, max, bit_or, bit_xor, true, [], ◌∷◌, if◌then◌else◌,
  length, get_or, Bytes, IsByte, All, ◌≡◌, ◌≢◌, refl, ◌↔◌, arith,
}
use genotp_go.Base.Bits.{zero-bit_or, le-bit_or, bit_or-lt, bit_xor-lt, bit_xor_self, eq_of_bit_xor}
use genotp_go.ConstantTime.{
  byte_at, diff_loop, nonzero_bit, difference, const_time_eq_bytes, constant_time_eq_byte_result,
  wasm_diff, wasm_const_time_eq_bytes,
}
use mathlib.Core.Path.{subst, ap₂}
use native.Mathlib.Decide.{ℕ_discrete}

get_or-lt : (a : Bytes) (i : ℕ) → All IsByte a → get_or a i 0 < 256
get_or-lt [] i h = omega arith
get_or-lt (x ∷ a) zero h = h.0
get_or-lt (x ∷ a) (suc i) h = get_or-lt a i h.1

byte_at-lt : (a : Bytes) (i : ℕ) → All IsByte a → byte_at a i < 256
byte_at-lt a i h = ground (arith, get_or-lt a i h)

-- The flag is set exactly when the word is not zero.
pub nonzero_bit-zero : nonzero_bit 0 ≡ 0
unfolding nonzero_bit
nonzero_bit-zero = refl

pub nonzero_bit_pos : (d : ℕ) → d < 2 ^ 64 → d ≢ 0 → nonzero_bit d ≡ 1
unfolding nonzero_bit
nonzero_bit_pos d h ne = omega (
  arith,
  le-bit_or d ((2 ^ 64 - d) % 2 ^ 64),
  bit_or-lt 64 d ((2 ^ 64 - d) % 2 ^ 64) h (omega arith),
)

-- What the loop has gathered when it ends.
module _ (a b : Bytes) where
  diff_loop-lt :
      (n i d : ℕ) → All IsByte a → All IsByte b → d < 2 ^ 64 → diff_loop a b n i d < 2 ^ 64
  unfolding diff_loop
  diff_loop-lt zero i d ha hb h = h
  diff_loop-lt (suc n) i d ha hb h = diff_loop-lt n (i + 1) _ ha hb (
      bit_or-lt 64 d _ h
        (bit_xor-lt 64 _ _ (omega (arith, byte_at-lt a i ha)) (omega (arith, byte_at-lt b i hb))))

  diff_loop-ge : (n i d : ℕ) → d ≤ diff_loop a b n i d
  unfolding diff_loop
  diff_loop-ge zero i d = omega arith
  diff_loop-ge (suc n) i d =
      let x = bit_xor (byte_at a i) (byte_at b i) in
      omega (arith, diff_loop-ge n (i + 1) (bit_or d x), le-bit_or d x)

  diff_loop-eq-zero :
      (n i d : ℕ)
      → diff_loop a b n i d ≡ 0
      → (j : ℕ) → i ≤ j
      → j < i + n
      → byte_at a j ≡ byte_at b j
  unfolding diff_loop
  diff_loop-eq-zero zero i d h j lo hi = absurd (omega arith)
  diff_loop-eq-zero (suc n) i d h j lo hi =
      let x = bit_xor (byte_at a i) (byte_at b i) in
      let none_left = diff_loop-ge n (i + 1) (bit_or d x) in
      elim (ℕ_discrete i j) [
        | yes here ↦ rw (← here) (eq_of_bit_xor _ _ (omega (arith, none_left, le-bit_or d x)))
        | no later ↦ diff_loop-eq-zero n (i + 1) (bit_or d x) h j (omega arith) (omega arith)
      ]

diff_loop_self : (a : Bytes) (n i : ℕ) → diff_loop a a n i 0 ≡ 0
unfolding diff_loop
diff_loop_self a zero i = refl
diff_loop_self a (suc n) i =
    rw (bit_xor_self (byte_at a i), zero-bit_or 0) (diff_loop_self a n (i + 1))

pub difference_self : (a : Bytes) → difference a a ≡ 0
unfolding difference
difference_self a = rw (bit_xor_self (length a)) (diff_loop_self a (max (length a) (length a)) 0)

-- Byte strings of one length that agree at every index are equal.
eq_of_byte_at :
    (a b : Bytes)
    → length a ≡ length b
    → ((j : ℕ) → j < length a → byte_at a j ≡ byte_at b j)
    → a ≡ b
eq_of_byte_at [] [] h p = refl
eq_of_byte_at [] (y ∷ b) h p = absurd (omega arith)
eq_of_byte_at (x ∷ a) [] h p = absurd (omega arith)
eq_of_byte_at (x ∷ a) (y ∷ b) h p =
    ap₂ (◌∷◌) (ground (arith, p 0 (omega arith)))
      (eq_of_byte_at a b (omega arith) (λ j lt. ground (arith, p (suc j) (omega arith))))

pub difference-eq-zero : (a b : Bytes) → difference a b ≡ 0 → a ≡ b
unfolding difference
difference-eq-zero a b h =
    eq_of_byte_at a b same (λ j lt.
      diff_loop-eq-zero a b (max (length b) (length a)) 0 _ h j (omega arith) (omega arith))
  where
    same : length a ≡ length b
    same = eq_of_bit_xor _ _ (
        omega
          (arith, diff_loop-ge a b (max (length b) (length a)) 0 (bit_xor (length a) (length b))))

-- Go's slices have fewer than 2 ^ 63 bytes.
abbrev pub IsSlice : Bytes → Type 0
IsSlice a = All IsByte a × (length a < 2 ^ 63)

pub difference-lt : (a b : Bytes) → IsSlice a → IsSlice b → difference a b < 2 ^ 64
unfolding difference
difference-lt a b ha hb =
    diff_loop-lt a b (max (length b) (length a)) 0 _ ha.0 hb.0
      (bit_xor-lt 64 (length a) (length b) (omega arith) (omega arith))

-- For byte slices of Go's lengths, `constTimeEqBytes` answers true exactly when they are equal.
pub const_time_eq_bytes_iff :
    (a b : Bytes) → IsSlice a → IsSlice b → (const_time_eq_bytes a b ≡ true) ↔ (a ≡ b)
unfolding const_time_eq_bytes
const_time_eq_bytes_iff a b ha hb = (only, all)
  where
    only : const_time_eq_bytes a b ≡ true → a ≡ b
    only h = elim (ℕ_discrete (difference a b) 0) [
      | yes e ↦ difference-eq-zero a b e
      | no e ↦ absurd (ground (arith, nonzero_bit_pos (difference a b) (difference-lt a b ha hb) e))
    ]

    all : a ≡ b → const_time_eq_bytes a b ≡ true
    all e = subst (λ x. const_time_eq_bytes a x ≡ true) e (rw (difference_self a, nonzero_bit-zero))

-- For such slices `constantTimeEqByteResult` is the answer of `constTimeEqBytes` as a byte, 1 or 0.
pub constant_time_eq_byte_result_lem :
    (a b : Bytes)
    → IsSlice a
    → IsSlice b
    → constant_time_eq_byte_result a b ≡ (if const_time_eq_bytes a b then 1 else 0)
unfolding constant_time_eq_byte_result const_time_eq_bytes
constant_time_eq_byte_result_lem a b ha hb = elim (ℕ_discrete (difference a b) 0) [
  | yes e ↦ rw (e, nonzero_bit-zero)
  | no e ↦ rw (nonzero_bit_pos (difference a b) (difference-lt a b ha hb) e)
]

wasm_diff-ge : (a b : Bytes) (v : ℕ) → v ≤ wasm_diff a b v
unfolding wasm_diff
wasm_diff-ge [] b v = omega arith
wasm_diff-ge (x ∷ a) [] v = omega arith
wasm_diff-ge (x ∷ a) (y ∷ b) v =
    omega (arith, wasm_diff-ge a b (bit_or v (bit_xor x y)), le-bit_or v (bit_xor x y))

wasm_diff-eq-zero : (a b : Bytes) (v : ℕ) → length a ≡ length b → wasm_diff a b v ≡ 0 → a ≡ b
unfolding wasm_diff
wasm_diff-eq-zero [] [] v e h = refl
wasm_diff-eq-zero [] (y ∷ b) v e h = absurd (omega arith)
wasm_diff-eq-zero (x ∷ a) [] v e h = absurd (omega arith)
wasm_diff-eq-zero (x ∷ a) (y ∷ b) v e h =
    let w = bit_or v (bit_xor x y) in
    ap₂ (◌∷◌) (eq_of_bit_xor x y (omega (arith, wasm_diff-ge a b w, le-bit_or v (bit_xor x y))))
      (wasm_diff-eq-zero a b w (omega arith) h)

wasm_diff_self : (a : Bytes) → wasm_diff a a 0 ≡ 0
unfolding wasm_diff
wasm_diff_self [] = refl
wasm_diff_self (x ∷ a) = rw (bit_xor_self x, zero-bit_or 0) (wasm_diff_self a)

-- The comparison that wasm/main.go keeps for itself answers true exactly for equal slices.
pub wasm_const_time_eq_bytes_iff : (a b : Bytes) → (wasm_const_time_eq_bytes a b ≡ true) ↔ (a ≡ b)
unfolding wasm_const_time_eq_bytes
wasm_const_time_eq_bytes_iff a b = (only, all)
  where
    only : wasm_const_time_eq_bytes a b ≡ true → a ≡ b
    only h = wasm_diff-eq-zero a b 0 (ground arith) (ground arith)

    all : a ≡ b → wasm_const_time_eq_bytes a b ≡ true
    all e = subst (λ x. wasm_const_time_eq_bytes a x ≡ true) e (ground (arith, wasm_diff_self a))
