-- ===== src/Base/Step.antt =====
-- The recursion that `|` and `&` follow on binary digits.
use native.Mathlib.Omega.{arith}
use mathlib.Core.Path.{◌≡◌, refl}
use Prim.Native.Nat.{
  bit_or-bitwise, bit_and-bitwise, digits, bit_or, bit_and, max, min, ℕ, suc, zero, ◌%◌, ◌/◌, ◌*◌,
  ◌+◌, ◌≤◌,
}

-- Digit by digit, with `tail` for what is left of the second number when the first has run out.
module _ (tail : ℕ → ℕ) (join : ℕ → ℕ → ℕ) where
  abbrev join_digits : ℕ → ℕ → ℕ → ℕ
  join_digits left x y = digits tail join left x y

  -- A number that has run out leaves the tail, whatever rounds are left.
  run_out : (left y : ℕ) → join_digits left 0 y ≡ tail y
  run_out zero y = refl
  run_out (suc left) y = refl

  -- More rounds than the first number needs make no difference.
  rounds_spare :
      (x few many y : ℕ) → x ≤ few → few ≤ many → join_digits many x y ≡ join_digits few x y
  rounds_spare zero few many y le more = omega (arith, run_out few y, run_out many y)
  rounds_spare (suc x) zero many y le more = absurd (omega arith)
  rounds_spare (suc x) (suc few) zero y le more = absurd (omega arith)
  rounds_spare (suc x) (suc few) (suc many) y le more =
      omega (arith, rounds_spare (suc x / 2) few many (y / 2) (omega arith) (omega arith))

pub zero-bit_or : (y : ℕ) → bit_or 0 y ≡ y
zero-bit_or y = bit_or-bitwise 0 y

pub bit_or_step : (x y : ℕ) → bit_or x y ≡ bit_or (x / 2) (y / 2) * 2 + max (x % 2) (y % 2)
bit_or_step zero y = omega (arith, zero-bit_or (y / 2), zero-bit_or y)
bit_or_step (suc x) y =
    let half = suc x / 2 in
    omega (
      arith,
      rounds_spare (λ v. v) max half half x (y / 2) (omega arith) (omega arith),
      bit_or-bitwise half (y / 2),
      bit_or-bitwise (suc x) y,
    )

pub bit_and_step : (x y : ℕ) → bit_and x y ≡ bit_and (x / 2) (y / 2) * 2 + min (x % 2) (y % 2)
bit_and_step zero y = omega (arith, bit_and-bitwise 0 (y / 2), bit_and-bitwise 0 y)
bit_and_step (suc x) y =
    let half = suc x / 2 in
    omega (
      arith,
      rounds_spare (λ v. zero) min half half x (y / 2) (omega arith) (omega arith),
      bit_and-bitwise half (y / 2),
      bit_and-bitwise (suc x) y,
    )
