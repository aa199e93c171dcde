-- ===== src/Common/Words.antt =====
-- Unsigned machine words: numbers with their wrap-around written out.
use Prim.Native.Nat.{ℕ, zero, suc, ◌%◌, ◌^◌, ◌<◌, ◌≤◌}
use native.Mathlib.Omega.{arith}
use mathlib.Core.Path.{◌≡◌, refl}
use mathlib.Core.List.{List, [], ◌∷◌}
use swindle_bootloader_gd.Common.Lists.{get_or, length, take, blit}

abbrev pub u8 : ℕ → ℕ
u8 n = n % 2 ^ 8

abbrev pub u16 : ℕ → ℕ
u16 n = n % 2 ^ 16

abbrev pub u32 : ℕ → ℕ
u32 n = n % 2 ^ 32

-- An element of a `uint8_t` array. Beyond the array's end, where C has no meaning, it reads 0.
unfoldable pub byte_at : List ℕ → ℕ → ℕ
byte_at buf i = u8 (get_or 0 buf i)

pub byte_at-lt : (buf : List ℕ) (i : ℕ) → byte_at buf i < 256
unfolding byte_at
byte_at-lt buf i = omega arith

get_or-blit-take :
    (n i : ℕ) (xs dst : List ℕ)
    → i < n
    → n ≤ length xs
    → n ≤ length dst
    → get_or 0 (blit (take n xs) dst) i ≡ get_or 0 xs i
get_or-blit-take zero i xs dst h p q = absurd (omega arith)
get_or-blit-take (suc n) i [] dst h p q = absurd (omega arith)
get_or-blit-take (suc n) i (x ∷ xs) [] h p q = absurd (omega arith)
get_or-blit-take (suc n) zero (x ∷ xs) (y ∷ dst) h p q = refl
get_or-blit-take (suc n) (suc i) (x ∷ xs) (y ∷ dst) h p q =
    get_or-blit-take n i xs dst (omega arith) (omega arith) (omega arith)

-- A `memcpy` of `n` bytes, read back.
pub byte_at-blit-take :
    (n i : ℕ) (xs dst : List ℕ)
    → i < n
    → n ≤ length xs
    → n ≤ length dst
    → byte_at (blit (take n xs) dst) i ≡ byte_at xs i
unfolding byte_at
byte_at-blit-take n i xs dst h p q = rw (get_or-blit-take n i xs dst h p q)
