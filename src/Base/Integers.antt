-- ===== src/Base/Integers.antt =====
-- Integers over the native numbers, as the counters need them: steps by one, and tests.
use Prim.Native.Nat.{ℕ, zero, suc, ◌+◌, ◌≤◌}
use mathlib.Core.Path.{◌≡◌}
use mathlib.Core.Bool.{Bool, false}
use native.Mathlib.Omega.{arith}
use tonghuashun.Base.Tests.{leb}

pub data ℤ : Type 0 where
  pos : ℕ → ℤ
  negsuc : ℕ → ℤ

abbrev pub add_one : ℤ → ℤ
add_one (pos n) = pos (suc n)
add_one (negsuc zero) = pos zero
add_one (negsuc (suc n)) = negsuc n

abbrev pub sub_one : ℤ → ℤ
sub_one (pos zero) = negsuc zero
sub_one (pos (suc n)) = pos n
sub_one (negsuc n) = negsuc (suc n)

-- `i >= n` for a number that is not negative.
abbrev pub reaches : ℤ → ℕ → Bool
reaches (pos m) n = leb n m
reaches (negsuc m) n = false

-- `max(0, i)`
abbrev pub clamp : ℤ → ℕ
clamp (pos m) = m
clamp (negsuc m) = 0

-- i + d = n
abbrev pub Lags : ℕ → ℤ → ℕ → Type 0
Lags d (pos m) n = m + d ≡ n
Lags d (negsuc m) n = n + suc m ≡ d

pub add_one-Lags : (d : ℕ) (i : ℤ) (n : ℕ) → Lags d i n → Lags d (add_one i) (suc n)
add_one-Lags d (pos m) n h = omega (arith, h)
add_one-Lags d (negsuc zero) n h = omega (arith, h)
add_one-Lags d (negsuc (suc m)) n h = omega (arith, h)

pub sub_one-Lags : (d : ℕ) (i : ℤ) (n : ℕ) → Lags d i (suc n) → Lags d (sub_one i) n
sub_one-Lags d (pos zero) n h = omega (arith, h)
sub_one-Lags d (pos (suc m)) n h = omega (arith, h)
sub_one-Lags d (negsuc m) n h = omega (arith, h)

-- A counter below a bound that lags by d leaves the number below the bound and d.
pub reaches-Lags :
    (d : ℕ) (i : ℤ) (n cap : ℕ) → Lags d i n → reaches i cap ≡ false → suc n ≤ cap + d
reaches-Lags d (pos m) n cap h r = ground arith
reaches-Lags d (negsuc m) n cap h r = ground arith
