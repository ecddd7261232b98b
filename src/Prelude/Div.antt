-- ===== src/Prelude/Div.antt =====
-- Division by powers of two.
use Prim.Native.Nat.{ℕ, zero, suc, ◌+◌, ◌-◌, ◌*◌, ◌/◌, ◌^◌, ◌≤◌, ◌<◌}
use mathlib.Core.Path.{◌≡◌, refl, ap, ◌∙◌}
use native.Mathlib.Nat.{div-div-eq-div-mul, pow-suc, mul_assoc, pow-zero, add-zero, add-suc}
use native.Mathlib.Omega.{arith}

pub two_pow_add : (i k : ℕ) → 2 ^ (i + k) ≡ 2 ^ i * 2 ^ k
two_pow_add i zero = rw (add-zero, pow-zero) (omega arith)
two_pow_add i (suc k) =
    rw (add-suc, pow-suc, pow-suc, two_pow_add i k) (mul_assoc (2 ^ i) (2 ^ k) 2)

pub two_pow_pos : (k : ℕ) → 0 < 2 ^ k
two_pow_pos zero = omega arith
two_pow_pos (suc k) = rw pow-suc (omega (arith, two_pow_pos k))

pow_split : (i j : ℕ) → i ≤ j → 2 ^ j ≡ 2 ^ i * 2 ^ (j - i)
pow_split i j h = let e : j ≡ i + (j - i) = omega arith in ap (λ n. 2 ^ n) e ∙ two_pow_add i (j - i)

-- Addresses that agree on a longer prefix agree on a shorter one.
pub shift_agree : (a b i j : ℕ) → i ≤ j → a / 2 ^ i ≡ b / 2 ^ i → a / 2 ^ j ≡ b / 2 ^ j
shift_agree a b i j h e =
    let split : 2 ^ j ≡ 2 ^ i * 2 ^ (j - i) = pow_split i j h in
    rw (split, ← div-div-eq-div-mul, ← div-div-eq-div-mul, e) refl
