-- ===== src/Base/Order.antt =====
-- `<` on the native numbers is well founded, and induction by halving.
use mathlib.Core.WellFounded.{Acc, WellFounded}
use mathlib.Core.WellFounded
use Prim.Native.Nat.{ℕ, zero, suc, ◌<◌, ◌/◌}
use native.Mathlib.Omega.{arith}

Acc-below : (k n : ℕ) → n < k → Acc ◌<◌ n
Acc-below zero n h = elim h [ ]
Acc-below (suc k) n h = Acc.intro n (λ m hm. Acc-below k m (omega arith))

pub lt_wf : WellFounded ◌<◌
lt_wf = record { apply = λ n. Acc-below (suc n) n (omega arith) }

-- To prove `P n`, prove it from `P` of the half.
pub by_halves {ℓ} : (P : ℕ → Type ℓ) → P 0 → ((n : ℕ) → P (suc n / 2) → P (suc n)) → (n : ℕ) → P n
by_halves P base half n = WellFounded.induction lt_wf {C = P} n step
  where
    step : (k : ℕ) → ((m : ℕ) → m < k → P m) → P k
    step zero ih = base
    step (suc k) ih = half k (ih (suc k / 2) (omega arith))
