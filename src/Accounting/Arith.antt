-- ===== src/Accounting/Arith.antt =====
-- The checked arithmetic of token_cost.hpp: exact where the result is an amount, an error elsewhere.
use native.Mathlib.Nat.{le-div_iff_mul-le, mul_comm}
use qbrain.Prelude.{ℕ, zero, suc, ◌+◌, ◌*◌, ◌/◌, ◌≤◌, ◌<◌, ◌≡◌, refl, arith, ok, error}
use qbrain.Accounting.{amount_max, add, multiply}

pub add-exact : (a b : ℕ) → a + b ≤ amount_max → add a b ≡ ok (a + b)
unfolding add
add-exact a b h = ground arith

pub add-overflow : (a b : ℕ) → amount_max < a + b → a ≤ amount_max → add a b ≡ error "cost_overflow"
unfolding add
add-overflow a b h ha = ground arith

pub multiply-exact : (a b : ℕ) → a * b ≤ amount_max → multiply a b ≡ ok (a * b)
unfolding multiply
multiply-exact zero b h = refl
multiply-exact (suc a) b h =
    let fits : b ≤ amount_max / suc a =
      (le-div_iff_mul-le {k = suc a} {x = b} {y = amount_max} (omega arith)).1
        (omega (arith, mul_comm (suc a) b)) in
    ground arith

pub multiply-overflow : (a b : ℕ) → amount_max < a * b → multiply a b ≡ error "cost_overflow"
unfolding multiply
multiply-overflow zero b h = absurd (omega arith)
multiply-overflow (suc a) b h =
    let back = (le-div_iff_mul-le {k = suc a} {x = b} {y = amount_max} (omega arith)).0 in
    ground (arith, mul_comm (suc a) b, back)
