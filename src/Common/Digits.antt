-- ===== src/Common/Digits.antt =====
-- The binary digits of numbers, and of the results of the bitwise operations.
use Prim.Native.Nat.{
  ℕ, zero, suc, ◌+◌, ◌*◌, ◌/◌, ◌%◌, ◌^◌, ◌≤◌, ◌<◌, min, max, bit_and, bit_or, digits, bitwise,
  bit_and-bitwise, bit_or-bitwise,
}
use mathlib.Core.Path.{◌≡◌, refl, ap, ◌∙◌}
use mathlib.Core.Bool.{Bool, true, ◌&&◌}
use native.Mathlib.Omega.{arith}
use swindle_bootloader_gd.Common.Tests.{◌==◌, if◌then◌else◌}

-- The digit of weight `2 ^ n`.
abbrev pub digit : ℕ → ℕ → ℕ
digit zero a = a % 2
digit (suc n) a = digit n (a / 2)

module _ (z : ℕ → ℕ) (f : ℕ → ℕ → ℕ) (end : (b : ℕ) → z b ≡ 2 * z (b / 2) + f 0 (b % 2)) where
  steps : (n m a b : ℕ) → a ≤ n → a ≤ m → digits z f n a b ≡ digits z f m a b
  steps zero zero a b h k = refl
  steps (suc n) zero zero b h k = refl
  steps (suc n) zero (suc a) b h k = absurd (omega arith)
  steps zero (suc m) zero b h k = refl
  steps zero (suc m) (suc a) b h k = absurd (omega arith)
  steps (suc n) (suc m) zero b h k = refl
  steps (suc n) (suc m) (suc a) b h k =
      let half = steps n m (suc a / 2) (b / 2) (omega arith) (omega arith) in omega arith

  bitwise-halves : (a b : ℕ) → bitwise z f a b ≡ 2 * bitwise z f (a / 2) (b / 2) + f (a % 2) (b % 2)
  bitwise-halves zero b = end b
  bitwise-halves (suc a) b =
      let rest = steps a (suc a / 2) (suc a / 2) (b / 2) (omega arith) (omega arith) in omega arith

-- The lowest digit of a result, and the rest.
pub bit_and-halves : (a b : ℕ) → bit_and a b ≡ 2 * bit_and (a / 2) (b / 2) + min (a % 2) (b % 2)
bit_and-halves a b =
    let halves = bitwise-halves (λ b. zero) min (λ b. omega arith) a b in
    bit_and-bitwise a b ∙ halves ∙ omega (arith, bit_and-bitwise (a / 2) (b / 2))

pub bit_or-halves : (a b : ℕ) → bit_or a b ≡ 2 * bit_or (a / 2) (b / 2) + max (a % 2) (b % 2)
bit_or-halves a b =
    let halves = bitwise-halves (λ b. b) max (λ b. omega arith) a b in
    bit_or-bitwise a b ∙ halves ∙ omega (arith, bit_or-bitwise (a / 2) (b / 2))

-- Each digit of a result comes from the two digits of its weight.
pub digit-and : (n a b : ℕ) → digit n (bit_and a b) ≡ min (digit n a) (digit n b)
digit-and zero a b = omega (arith, bit_and-halves a b)
digit-and (suc n) a b =
    let half : bit_and a b / 2 ≡ bit_and (a / 2) (b / 2) = omega (arith, bit_and-halves a b) in
    ap (digit n) half ∙ digit-and n (a / 2) (b / 2)

pub digit-or : (n a b : ℕ) → digit n (bit_or a b) ≡ max (digit n a) (digit n b)
digit-or zero a b = omega (arith, bit_or-halves a b)
digit-or (suc n) a b =
    let half : bit_or a b / 2 ≡ bit_or (a / 2) (b / 2) = omega (arith, bit_or-halves a b) in
    ap (digit n) half ∙ digit-or n (a / 2) (b / 2)

pub digit-small : (n a : ℕ) → digit n a < 2
digit-small zero a = omega arith
digit-small (suc n) a = digit-small n (a / 2)

pub bit_or-small : (k a b : ℕ) → a < 2 ^ k → b < 2 ^ k → bit_or a b < 2 ^ k
bit_or-small zero zero zero h l = omega (arith, bit_or-bitwise 0 0)
bit_or-small zero zero (suc b) h l = absurd (omega arith)
bit_or-small zero (suc a) b h l = absurd (omega arith)
bit_or-small (suc k) a b h l =
    let rest = bit_or-small k (a / 2) (b / 2) (omega arith) (omega arith) in
    omega (arith, bit_or-halves a b)

pub bit_and-small : (k a b : ℕ) → a < 2 ^ k → bit_and a b < 2 ^ k
bit_and-small zero zero b h = omega (arith, bit_and-bitwise 0 b)
bit_and-small zero (suc a) b h = absurd (omega arith)
bit_and-small (suc k) a b h =
    let rest = bit_and-small k (a / 2) (b / 2) (omega arith) in omega (arith, bit_and-halves a b)

-- `(a & m) | b`: a digit of the mask keeps `a`'s where `b` has none, and leaves `b`'s where not.
pub digit-masked :
    (n a m b : ℕ)
    → ((digit n m ≡ 1) → (digit n b ≡ 0) → digit n (bit_or (bit_and a m) b) ≡ digit n a)
      × ((digit n m ≡ 0) → digit n (bit_or (bit_and a m) b) ≡ digit n b)
digit-masked n a m b =
    let both = digit-or n (bit_and a m) b in
    let kept = digit-and n a m in
    let small = digit-small n a in (λ one none. omega arith, λ zero. omega arith)

-- Over a small range, every value is tried.
abbrev pub all_below : ℕ → (ℕ → Bool) → Bool
all_below zero p = true
all_below (suc n) p = p n && all_below n p

pub below-holds : (n i : ℕ) (p : ℕ → Bool) → i < n → all_below n p ≡ true → p i ≡ true
below-holds zero i p h e = absurd (omega arith)
below-holds (suc n) i p h e = ground (arith, below-holds n i p)

-- A power of two has one digit.
abbrev pub single_law : ℕ → ℕ → Bool
single_law j n = if n == j then digit n (2 ^ j % 2 ^ 32) == 1 else digit n (2 ^ j % 2 ^ 32) == 0

single_test : all_below 32 (λ j. all_below 32 (single_law j)) ≡ true
single_test = refl

pub single-law : (j n : ℕ) → j < 32 → n < 32 → single_law j n ≡ true
single-law j n h l =
    below-holds 32 n (single_law j) l
      (below-holds 32 j (λ i. all_below 32 (single_law i)) h single_test)
