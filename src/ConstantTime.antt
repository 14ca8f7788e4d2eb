-- ===== src/ConstantTime.antt =====
-- constant_time.go: comparisons whose running time does not depend on the bytes compared, and the
-- comparison that wasm/main.go keeps for itself. `int` and `uint` have 64 bits.
pub mod Equality
use genotp_go.Base.{
  ℕ, zero, suc, ◌+◌, ◌-◌, ◌/◌, ◌%◌, ◌^◌, max, bit_or, bit_xor, Bool, true, false, not, List, [],
  ◌∷◌, ltb, ◌==◌, if◌then◌else◌, length, get_or, Bytes,
}

-- `var av byte; if i < lenA { av = a[i] }`
abbrev pub byte_at : Bytes → ℕ → ℕ
byte_at a i = if ltb i (length a) then get_or a i 0 else 0

-- The rounds of the loop that are left, from index `i` on.
unfoldable pub diff_loop : Bytes → Bytes → ℕ → ℕ → ℕ → ℕ
diff_loop a b zero i diff = diff
diff_loop a b (suc rounds) i diff =
    diff_loop a b rounds (i + 1) (bit_or diff (bit_xor (byte_at a i) (byte_at b i)))

-- `(diff | -diff) >> (bits.UintSize - 1)`
unfoldable pub nonzero_bit : ℕ → ℕ
nonzero_bit diff = bit_or diff ((2 ^ 64 - diff) % 2 ^ 64) / 2 ^ 63

unfoldable pub difference : Bytes → Bytes → ℕ
difference a b = diff_loop a b (max (length b) (length a)) 0 (bit_xor (length a) (length b))

unfoldable pub const_time_eq_bytes : Bytes → Bytes → Bool
const_time_eq_bytes a b = nonzero_bit (difference a b) == 0

-- `byte(1 - nonzero)`: a uint subtraction, cut to a byte.
unfoldable pub constant_time_eq_byte_result : Bytes → Bytes → ℕ
constant_time_eq_byte_result a b = (2 ^ 64 + 1 - nonzero_bit (difference a b)) % 2 ^ 64 % 2 ^ 8

-- A string is its bytes.
unfoldable pub constant_time_eq : Bytes → Bytes → Bool
constant_time_eq a b = const_time_eq_bytes a b

-- wasm/main.go: `v |= a[i] ^ b[i]` over slices of one length.
unfoldable pub wasm_diff : Bytes → Bytes → ℕ → ℕ
wasm_diff [] b v = v
wasm_diff (x ∷ a) [] v = v
wasm_diff (x ∷ a) (y ∷ b) v = wasm_diff a b (bit_or v (bit_xor x y))

unfoldable pub wasm_const_time_eq_bytes : Bytes → Bytes → Bool
wasm_const_time_eq_bytes a b = if not (length a == length b) then false else wasm_diff a b 0 == 0
