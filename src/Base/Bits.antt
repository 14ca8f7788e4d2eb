-- ===== src/Base/Bits.antt =====
-- `&`, `|` and `^` of machine words as arithmetic. The native operations mean `bitwise`, a
-- recursion on binary digits with fuel; here the fuel is dropped, one digit at a time.
mod Digits
pub use Digits.{bit_or_step, bit_and_step, bit_xor_step}
use Prim.Native.Nat.{ℕ, zero, suc, ◌+◌, ◌-◌, ◌*◌, ◌/◌, ◌%◌, ◌^◌, ◌≤◌, ◌<◌}
use Prim.Native.Nat.{bit_and, bit_or, bit_xor, bit_or-bitwise, bit_xor-bitwise}
use mathlib.Core.Path.{◌≡◌, refl, ap, sym, ◌∙◌}
use native.Mathlib.Nat.{pow-suc, one-le-pow}
use native.Mathlib.Omega.{arith}
use genotp_go.Base.Order.{by_halves}

-- Zero on either side.
pub zero-bit_or : (b : ℕ) → bit_or 0 b ≡ b
zero-bit_or b = bit_or-bitwise 0 b

pub zero-bit_xor : (b : ℕ) → bit_xor 0 b ≡ b
zero-bit_xor b = bit_xor-bitwise 0 b

pub bit_or-zero : (a : ℕ) → bit_or a 0 ≡ a
bit_or-zero =
    by_halves (λ a. bit_or a 0 ≡ a) (zero-bit_or 0)
      (λ n ih. omega (arith, bit_or_step (suc n) 0, ih))

pub bit_or_comm : (a b : ℕ) → bit_or a b ≡ bit_or b a
bit_or_comm =
    by_halves (λ a. (b : ℕ) → bit_or a b ≡ bit_or b a)
      (λ b. omega (arith, zero-bit_or b, bit_or-zero b))
      (λ n ih b. omega (arith, bit_or_step (suc n) b, bit_or_step b (suc n), ih (b / 2)))

pub bit_and-zero : (a : ℕ) → bit_and a 0 ≡ 0
bit_and-zero =
    by_halves (λ a. bit_and a 0 ≡ 0) refl (λ n ih. omega (arith, bit_and_step (suc n) 0, ih))

-- `|` keeps every bit of both sides.
pub le-bit_or : (a b : ℕ) → (a ≤ bit_or a b) × (b ≤ bit_or a b)
le-bit_or =
    by_halves (λ a. (b : ℕ) → (a ≤ bit_or a b) × (b ≤ bit_or a b))
      (λ b. omega (arith, zero-bit_or b))
      (λ n ih b. omega (arith, bit_or_step (suc n) b, ih (b / 2)))

-- A result has no more bits than the sides.
pub bit_or-lt : (k a b : ℕ) → a < 2 ^ k → b < 2 ^ k → bit_or a b < 2 ^ k
bit_or-lt zero zero zero p q = omega (arith, zero-bit_or 0)
bit_or-lt zero _ _ p q = absurd (omega arith)
bit_or-lt (suc k) a b p q = omega (
  arith,
  pow-suc 2 k,
  bit_or_step a b,
  bit_or-lt k (a / 2) (b / 2) (omega (arith, pow-suc 2 k)) (omega (arith, pow-suc 2 k)),
)

pub bit_xor-lt : (k a b : ℕ) → a < 2 ^ k → b < 2 ^ k → bit_xor a b < 2 ^ k
bit_xor-lt zero zero zero p q = omega (arith, zero-bit_xor 0)
bit_xor-lt zero _ _ p q = absurd (omega arith)
bit_xor-lt (suc k) a b p q = omega (
  arith,
  pow-suc 2 k,
  bit_xor_step a b,
  bit_xor-lt k (a / 2) (b / 2) (omega (arith, pow-suc 2 k)) (omega (arith, pow-suc 2 k)),
)

-- `^` vanishes exactly on equal sides.
pub bit_xor_self : (a : ℕ) → bit_xor a a ≡ 0
bit_xor_self =
    by_halves (λ a. bit_xor a a ≡ 0) (zero-bit_xor 0)
      (λ n ih. omega (arith, bit_xor_step (suc n) (suc n), ih))

pub eq_of_bit_xor : (a b : ℕ) → bit_xor a b ≡ 0 → a ≡ b
eq_of_bit_xor =
    by_halves (λ a. (b : ℕ) → bit_xor a b ≡ 0 → a ≡ b) (λ b h. omega (arith, zero-bit_xor b))
      (λ n ih b h.
        omega (arith, bit_xor_step (suc n) b, ih (b / 2) (omega (arith, bit_xor_step (suc n) b))))

two_pow-suc : (q k : ℕ) → q * 2 ^ suc k ≡ 2 * (q * 2 ^ k)
two_pow-suc q k = omega (arith, ap (λ (t : ℕ). q * t) (pow-suc 2 k))

double-div : (n : ℕ) → 2 * n / 2 ≡ n
double-div n = omega arith

shifted_half :
    (k q r : ℕ)
    → bit_or (q * 2 ^ k) (r / 2) ≡ q * 2 ^ k + r / 2
    → bit_or (q * 2 ^ suc k) r ≡ q * 2 ^ suc k + r
shifted_half k q r h =
    rw (two_pow-suc q k)
      (omega (arith, bit_or_step (2 * (q * 2 ^ k)) r, rw (← double-div (q * 2 ^ k)) at h))

-- `(q << k) | r` is a sum when `r` has at most `k` bits.
pub bit_or_shifted : (k q r : ℕ) → r < 2 ^ k → bit_or (q * 2 ^ k) r ≡ q * 2 ^ k + r
bit_or_shifted zero q zero fits = rw bit_or-zero (omega arith)
bit_or_shifted zero q (suc r) fits = absurd (omega arith)
bit_or_shifted (suc k) q r fits =
    shifted_half k q r (bit_or_shifted k q (r / 2) (omega (arith, pow-suc 2 k)))

-- A mask of `k` ones keeps the low `k` bits.
masked_half :
    (k q r m m' : ℕ)
    → suc m ≡ 2 ^ k
    → suc m' ≡ 2 ^ suc k
    → bit_and (q * 2 ^ k + r / 2) m ≡ r / 2
    → bit_and (q * 2 ^ suc k + r) m' ≡ r
masked_half k q r m m' hm hm' h = rw (two_pow-suc q k) (
    omega (
      arith,
      bit_and_step (2 * (q * 2 ^ k) + r) m',
      ap (λ (t : ℕ). bit_and t m) halves,
      ap (λ (t : ℕ). bit_and ((2 * (q * 2 ^ k) + r) / 2) t) mask_halves,
      odd,
      h,
    ))
  where
    halves : (2 * (q * 2 ^ k) + r) / 2 ≡ q * 2 ^ k + r / 2
    halves = omega arith

    mask_halves : m' / 2 ≡ m
    mask_halves = omega (arith, pow-suc 2 k)

    odd : m' % 2 ≡ 1
    odd = omega (arith, pow-suc 2 k)

bit_and_masked : (k q r m : ℕ) → suc m ≡ 2 ^ k → r < 2 ^ k → bit_and (q * 2 ^ k + r) m ≡ r
bit_and_masked zero q r zero hm fits = rw bit_and-zero (omega arith)
bit_and_masked zero q r (suc m) hm fits = absurd (omega arith)
bit_and_masked (suc k) q r m hm fits =
    masked_half k q r (m / 2) m (omega (arith, pow-suc 2 k)) hm
      (bit_and_masked k q (r / 2) (m / 2) (omega (arith, pow-suc 2 k)) (omega (arith, pow-suc 2 k)))

module _ (a : ℕ) where
  pub bit_and_0x07 : bit_and a 0x07 ≡ a % 8
  bit_and_0x07 = omega (arith, bit_and_masked 3 (a / 8) (a % 8) 0x07 refl (omega arith), whole)
    where
      whole : bit_and a 0x07 ≡ bit_and (a / 8 * 2 ^ 3 + a % 8) 0x07
      whole = ap (λ (t : ℕ). bit_and t 0x07) (omega arith)

  pub bit_and_0x0f : bit_and a 0x0f ≡ a % 16
  bit_and_0x0f = omega (arith, bit_and_masked 4 (a / 16) (a % 16) 0x0f refl (omega arith), whole)
    where
      whole : bit_and a 0x0f ≡ bit_and (a / 16 * 2 ^ 4 + a % 16) 0x0f
      whole = ap (λ (t : ℕ). bit_and t 0x0f) (omega arith)

  pub bit_and_0x7f : bit_and a 0x7f ≡ a % 128
  bit_and_0x7f = omega (arith, bit_and_masked 7 (a / 128) (a % 128) 0x7f refl (omega arith), whole)
    where
      whole : bit_and a 0x7f ≡ bit_and (a / 128 * 2 ^ 7 + a % 128) 0x7f
      whole = ap (λ (t : ℕ). bit_and t 0x7f) (omega arith)

  pub bit_and_0xff : bit_and a 0xff ≡ a % 256
  bit_and_0xff = omega (arith, bit_and_masked 8 (a / 256) (a % 256) 0xff refl (omega arith), whole)
    where
      whole : bit_and a 0xff ≡ bit_and (a / 256 * 2 ^ 8 + a % 256) 0xff
      whole = ap (λ (t : ℕ). bit_and t 0xff) (omega arith)
