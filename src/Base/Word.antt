-- ===== src/Base/Word.antt =====
-- Machine words: fixed-width wrap-around, and the laws of shifts, masks and fields.
use mathlib.Core.Path.{ap}
use native.Mathlib.Nat.{pow-suc, pow-zero, one-le-pow, zero-add, one-mul, suc-add}
use mhi_for_quectel_modem.Base.Step.{bit_or_step, bit_and_step}
pub use mhi_for_quectel_modem.Base.Step.{zero-bit_or}
use mathlib.Core.Path.{◌≡◌, refl}
use Prim.Native.Nat.{ℕ, zero, suc, ◌+◌, ◌-◌, ◌*◌, ◌/◌, ◌%◌, ◌^◌, ◌≤◌, ◌<◌, bit_and, bit_or}
use native.Mathlib.Omega.{arith}

-- `u32` arithmetic wraps.
abbrev pub u32 : ℕ → ℕ
u32 n = n % 2 ^ 32

abbrev pub u64 : ℕ → ℕ
u64 n = n % 2 ^ 64

-- `x << k` before it is cut to its width, and `x >> k`.
abbrev pub shl : ℕ → ℕ → ℕ
shl x k = x * 2 ^ k

abbrev pub shr : ℕ → ℕ → ℕ
shr x k = x / 2 ^ k

-- Both operations with 0 on the right, by the number of digits.
zero_right_within : (size x : ℕ) → x ≤ size → (bit_or x 0 ≡ x) × (bit_and x 0 ≡ 0)
zero_right_within size zero le = (refl, refl)
zero_right_within zero (suc x) le = absurd (omega arith)
zero_right_within (suc size) (suc x) le =
    let (or_half, and_half) = zero_right_within size (suc x / 2) (omega arith) in
    (omega (arith, or_half, bit_or_step (suc x) 0), omega (arith, and_half, bit_and_step (suc x) 0))

pub bit_or-zero : (x : ℕ) → bit_or x 0 ≡ x
bit_or-zero x = (zero_right_within x x (omega arith)).0

pub bit_and-zero : (x : ℕ) → bit_and x 0 ≡ 0
bit_and-zero x = (zero_right_within x x (omega arith)).1

mul-two_pow-suc : (q k : ℕ) → q * 2 ^ suc k ≡ 2 * (q * 2 ^ k)
mul-two_pow-suc q k = omega (arith, ap (λ (t : ℕ). q * t) (pow-suc 2 k))

-- `(q << k) | r` is a sum when `r` fits below bit `k`.
pub bit_or-shl : (k q r : ℕ) → r < 2 ^ k → bit_or (shl q k) r ≡ q * 2 ^ k + r
bit_or-shl zero q r h = ground (arith, bit_or-zero q)
bit_or-shl (suc k) q r h = ground (
  arith,
  bit_or_step (q * 2 ^ suc k) r,
  mul-two_pow-suc q k,
  bit_or-shl k q (r / 2) (omega arith),
)

bit_and_fields : (k q r : ℕ) → r < 2 ^ k → bit_and (q * 2 ^ k + r) (2 ^ k - 1) ≡ r
bit_and_fields zero q r h = omega (arith, bit_and-zero (q * 2 ^ 0 + r))
bit_and_fields (suc k) q r h = ground (
  arith,
  bit_and_step (q * 2 ^ suc k + r) (2 ^ suc k - 1),
  mul-two_pow-suc q k,
  pow-suc 2 k,
  bit_and_fields k q (r / 2) (omega arith),
)

-- A mask of the `k` low bits is the remainder by `2 ^ k`.
pub bit_and_low : (k a : ℕ) → bit_and a (2 ^ k - 1) ≡ a % 2 ^ k
bit_and_low k a = ground (arith, one-le-pow k 2, bit_and_fields k (a / 2 ^ k) (a % 2 ^ k))

pub pow-add : (b n m : ℕ) → b ^ (n + m) ≡ b ^ n * b ^ m
pow-add b zero m = simp (pow-zero, zero-add, one-mul)
pow-add b (suc n) m = simp (suc-add, pow-suc, pow-add b n m) (grind arith)

-- `&` and `|` work apart on the parts above and below bit `k`.
pub bit_and_concat :
    (k a x b y : ℕ)
    → x < 2 ^ k
    → y < 2 ^ k
    → (bit_and (a * 2 ^ k + x) (b * 2 ^ k + y) ≡ bit_and a b * 2 ^ k + bit_and x y)
bit_and_concat zero a x b y hx hy = ground (arith, bit_and-zero 0)
bit_and_concat (suc k) a x b y hx hy = ground (
  arith,
  bit_and_step (a * 2 ^ suc k + x) (b * 2 ^ suc k + y),
  bit_and_step x y,
  mul-two_pow-suc a k,
  mul-two_pow-suc b k,
  mul-two_pow-suc (bit_and a b) k,
  bit_and_concat k a (x / 2) b (y / 2) (omega arith) (omega arith),
)

pub bit_or_concat :
    (k a x b y : ℕ)
    → x < 2 ^ k
    → y < 2 ^ k
    → (bit_or (a * 2 ^ k + x) (b * 2 ^ k + y) ≡ bit_or a b * 2 ^ k + bit_or x y)
bit_or_concat zero a x b y hx hy = ground (arith, bit_or-zero 0)
bit_or_concat (suc k) a x b y hx hy = ground (
  arith,
  bit_or_step (a * 2 ^ suc k + x) (b * 2 ^ suc k + y),
  bit_or_step x y,
  mul-two_pow-suc a k,
  mul-two_pow-suc b k,
  mul-two_pow-suc (bit_or a b) k,
  bit_or_concat k a (x / 2) b (y / 2) (omega arith) (omega arith),
)
