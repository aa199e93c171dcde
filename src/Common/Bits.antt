-- ===== src/Common/Bits.antt =====
-- Masks of ones: what `x & (2 ^ k - 1)` is, and when `n & ~(n - 1)` is `n`.
use Prim.Native.Nat.{
  ℕ, zero, suc, ◌+◌, ◌-◌, ◌*◌, ◌/◌, ◌%◌, ◌^◌, ◌≤◌, ◌<◌, min, bit_and, bit_and-bitwise,
}
use mathlib.Core.Path.{◌≡◌, refl}
use mathlib.Core.Logic.{◌⊎◌, inl, inr}
use native.Mathlib.Omega.{arith}
use native.Mathlib.Nat.{one-le-pow}
use swindle_bootloader_gd.Common.Digits.{bit_and-halves}

mod_cases : (n : ℕ) → (n % 2 ≡ 0) ⊎ (n % 2 ≡ 1)
mod_cases n = ground arith

nothing-bit_and : (n a : ℕ) → a ≤ n → bit_and a 0 ≡ 0
nothing-bit_and zero zero h = omega (arith, bit_and-bitwise 0 0)
nothing-bit_and zero (suc a) h = absurd (omega arith)
nothing-bit_and (suc n) zero h = omega (arith, bit_and-bitwise 0 0)
nothing-bit_and (suc n) (suc a) h =
    let rest = nothing-bit_and n (suc a / 2) (omega arith) in
    let step = bit_and-halves (suc a) 0 in omega arith

-- A step under rewriting both halves.
bit_and-step :
    (a b : ℕ) {a' b' c : ℕ}
    → a / 2 ≡ a'
    → b / 2 ≡ b'
    → bit_and a' b' ≡ c
    → bit_and a b ≡ 2 * c + min (a % 2) (b % 2)
bit_and-step a b p q e = rw (bit_and-halves a b, p, q, e) refl

-- A mask bounds what it lets through.
pub bit_and-mask : (k a m : ℕ) → m < 2 ^ k → bit_and a m < 2 ^ k
bit_and-mask zero a zero h = omega (arith, nothing-bit_and a a (omega arith))
bit_and-mask zero a (suc m) h = absurd (omega arith)
bit_and-mask (suc k) a m h =
    let rest = bit_and-mask k (a / 2) (m / 2) (omega arith) in omega (arith, bit_and-halves a m)

-- A mask of ones keeps a number that has no digit above it.
pub bit_and-fits : (k a : ℕ) → a < 2 ^ k → bit_and a (2 ^ k - 1) ≡ a
bit_and-fits zero a h = omega (arith, nothing-bit_and a a (omega arith))
bit_and-fits (suc k) a h =
    let step =
      bit_and-step a (2 ^ suc k - 1) refl (omega arith) (bit_and-fits k (a / 2) (omega arith)) in
    omega arith

-- It takes one digit above it off.
pub bit_and-wraps : (k a : ℕ) → a < 2 ^ k → bit_and (2 ^ k + a) (2 ^ k - 1) ≡ a
bit_and-wraps zero a h = omega (arith, nothing-bit_and (1 + a) (1 + a) (omega arith))
bit_and-wraps (suc k) a h =
    let step =
      bit_and-step (2 ^ suc k + a) (2 ^ suc k - 1) (omega arith) (omega arith)
        (bit_and-wraps k (a / 2) (omega arith)) in
    omega arith

-- A number and its complement in `w` digits share none.
complement : (w n : ℕ) → n < 2 ^ w → bit_and n (2 ^ w - 1 - n) ≡ 0
complement zero zero h = nothing-bit_and 0 0 (omega arith)
complement zero (suc n) h = absurd (omega arith)
complement (suc w) n h =
    let step =
      bit_and-step n (2 ^ suc w - 1 - n) refl (omega arith) (complement w (n / 2) (omega arith)) in
    omega arith

-- `n & ~(n - 1)` keeps only the lowest digit that is set: it is `n` for a power of two alone.
pub lowest-Power :
    (w n : ℕ)
    → 0 < n
    → n < 2 ^ w
    → bit_and n (2 ^ w - 1 - (n - 1)) ≡ n
    → (k : ℕ) × (k < w) × (n ≡ 2 ^ k)
lowest-Power zero n p h e = absurd (omega arith)
lowest-Power (suc w) n p h e = elim (mod_cases n) [
  | inl even ↦
      let step =
        bit_and-step n (2 ^ suc w - 1 - (n - 1)) {b' = 2 ^ w - 1 - (n / 2 - 1)} refl (omega arith)
          refl in
      let (k, below, power) = lowest-Power w (n / 2) (omega arith) (omega arith) (omega arith) in
      (suc k, omega arith, omega arith)
  | inr odd ↦
      let step =
        bit_and-step n (2 ^ suc w - 1 - (n - 1)) refl (omega arith)
          (complement w (n / 2) (omega arith)) in
      (0, omega arith, omega arith)
]

pub Power-lowest : (w k : ℕ) → k < w → bit_and (2 ^ k) (2 ^ w - 1 - (2 ^ k - 1)) ≡ 2 ^ k
Power-lowest zero k h = absurd (omega arith)
Power-lowest (suc w) zero h =
    let some_power = one-le-pow w 2 (omega arith) in
    let step = bit_and-step 1 (2 ^ suc w - 1 - 0) refl refl (bit_and-bitwise 0 _) in omega arith
Power-lowest (suc w) (suc k) h =
    let step =
      bit_and-step (2 ^ suc k) (2 ^ suc w - 1 - (2 ^ suc k - 1)) (omega arith) (omega arith)
        (Power-lowest w k (omega arith)) in
    omega arith
