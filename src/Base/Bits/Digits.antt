-- ===== src/Base/Bits/Digits.antt =====
-- One equation for the lowest binary digit of `&`, `|` and `^`.
use Prim.Native.Nat.{ℕ, zero, suc, ◌+◌, ◌-◌, ◌*◌, ◌/◌, ◌%◌, ◌≤◌, ◌<◌, min, max}
use Prim.Native.Nat.{bit_and, bit_or, bit_xor, digits, bitwise, differ}
use Prim.Native.Nat.{bit_and-bitwise, bit_or-bitwise, bit_xor-bitwise}
use mathlib.Core.Path.{◌≡◌, refl}
use mathlib.Core.WellFounded
use native.Mathlib.Omega.{arith}
use genotp_go.Base.Order.{lt_wf}

module _ (low : ℕ → ℕ) (op : ℕ → ℕ → ℕ) where
  -- Fuel beyond the first argument changes nothing.
  abbrev Settled : ℕ → Type 0
  Settled a = (fuel b : ℕ) → a ≤ fuel → digits low op fuel a b ≡ digits low op a a b

  settle : (a : ℕ) → ((m : ℕ) → m < a → Settled m) → Settled a
  settle zero ih zero b h = refl
  settle zero ih (suc fuel) b h = refl
  settle (suc a) ih zero b h = absurd (omega arith)
  settle (suc a) ih (suc fuel) b h =
      let half = ih (suc a / 2) (omega arith) in
      rw (half fuel (b / 2) (omega arith), half a (b / 2) (omega arith))

  settled : (a : ℕ) → Settled a
  settled a = WellFounded.induction lt_wf {C = Settled} a settle

  -- The lowest digit of a result, and the rest of it.
  lowest :
      (n y : ℕ)
      → bitwise low op (suc n) y ≡ op (suc n % 2) (y % 2) + 2 * bitwise low op (suc n / 2) (y / 2)
  lowest n y = omega (arith, settled (suc n / 2) n (y / 2) (omega arith))

differ-bits : (x y : ℕ) → x < 2 → y < 2 → differ x y ≡ max x y - min x y
differ-bits zero y p q = omega arith
differ-bits (suc zero) zero p q = refl
differ-bits (suc zero) (suc zero) p q = refl
differ-bits _ _ p q = absurd (omega arith)

pub bit_xor_step :
    (x y : ℕ)
    → bit_xor x y ≡ max (x % 2) (y % 2) - min (x % 2) (y % 2) + 2 * bit_xor (x / 2) (y / 2)
bit_xor_step zero y = omega (arith, bit_xor-bitwise 0 y, bit_xor-bitwise 0 (y / 2))
bit_xor_step (suc n) y =
    rw (← differ-bits (suc n % 2) (y % 2) (omega arith) (omega arith))
      (simp bit_xor-bitwise (lowest (λ t. t) differ n y))

pub bit_or_step : (x y : ℕ) → bit_or x y ≡ max (x % 2) (y % 2) + 2 * bit_or (x / 2) (y / 2)
bit_or_step zero y = omega (arith, bit_or-bitwise 0 y, bit_or-bitwise 0 (y / 2))
bit_or_step (suc n) y = simp bit_or-bitwise (lowest (λ t. t) max n y)

pub bit_and_step : (x y : ℕ) → bit_and x y ≡ min (x % 2) (y % 2) + 2 * bit_and (x / 2) (y / 2)
bit_and_step zero y = omega (arith, bit_and-bitwise 0 y, bit_and-bitwise 0 (y / 2))
bit_and_step (suc n) y = simp bit_and-bitwise (lowest (λ t. 0) min n y)
