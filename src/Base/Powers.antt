-- ===== src/Base/Powers.antt =====
-- Powers of ten, and cancelling a common factor.
use Prim.Native.Nat.{ℕ, zero, suc, ◌+◌, ◌*◌, ◌^◌, ◌≤◌}
use mathlib.Core.Path.{◌≡◌}
use native.Mathlib.Omega.{arith}
use native.Mathlib.Nat.{pow-suc, zero-add, suc-add, le_of_mul-le-mul_right}

pub ten_pow-suc : (n : ℕ) → 10 ^ suc n ≡ 10 ^ n * 10
ten_pow-suc n = pow-suc 10 n

pub ten_pow-pos : (n : ℕ) → 1 ≤ 10 ^ n
ten_pow-pos zero = omega arith
ten_pow-pos (suc n) = omega (arith, ten_pow-suc n, ten_pow-pos n)

pub ten_pow-add : (m n : ℕ) → 10 ^ (m + n) ≡ 10 ^ m * 10 ^ n
ten_pow-add zero n = rw zero-add (omega arith)
ten_pow-add (suc m) n =
    rw (suc-add m n, ten_pow-suc (m + n), ten_pow-suc m, ten_pow-add m n) (omega arith)

pub le_of_mul : (a b k : ℕ) → 1 ≤ k → a * k ≤ b * k → a ≤ b
le_of_mul a b k h e = le_of_mul-le-mul_right e h
