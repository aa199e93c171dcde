-- ===== src/System/Heap.antt =====
-- The allocator of esprit_mini/systemAlloc.cpp, for sizes that are not negative as an `int`.
pub mod Blocks
use swindle_bootloader_gd.Common.{
  ℕ, zero, suc, ◌+◌, ◌-◌, ◌*◌, ◌/◌, ◌%◌, ◌^◌, Option, none, some, List, [], ◌∷◌, u32, M, pure,
  ◌>>=◌, ◌>>◌,
}
use swindle_bootloader_gd.Bus.{byte, Log, store}

-- The static `fakeHeap`, and the accesses to memory.
pub record Heap : Type 0 where
  pub fake_heap : ℕ
  pub log : Log

-- `z[i] = 0` for `i` from a number up, as often as is left
unfoldable pub zero_bytes : ℕ → ℕ → M Log (Unit {0})
zero_bytes z zero h = pure tt h
zero_bytes z (suc n) h = (do store byte z 0; zero_bytes (u32 (z + 1)) n) h

-- `((size + 3) >> 2) << 2`
abbrev pub rounded : ℕ → ℕ
rounded size = (size + 3) / 4 * 4

-- The pointer is one to words, so it moves by as many words as there are bytes.
abbrev pub moved : ℕ → ℕ → ℕ
moved p size = u32 (p + (2 ^ 32 - 4 * rounded size % 2 ^ 32))

abbrev pub at_heap : ℕ → Option (Unit {0} × Log) → Option (ℕ × Heap)
at_heap p none = none
at_heap p (some (u, h)) = some (p, record { fake_heap = p; log = h })

unfoldable pub sys_alloc : ℕ → M Heap ℕ
sys_alloc size s = let p = moved s.fake_heap size in at_heap p (zero_bytes p size s.log)

abbrev pub sys_free : ℕ → M Heap (Unit {0})
sys_free p = pure tt

-- `calloc`
abbrev pub calloc : ℕ → ℕ → M Heap ℕ
calloc n elem_size = sys_alloc (u32 (n * elem_size))

-- The blocks of one allocation after another.
unfoldable pub alloc_all : List ℕ → M Heap (List ℕ)
alloc_all [] s = pure [] s
alloc_all (size ∷ rest) s = (do p ← sys_alloc size; ps ← alloc_all rest; pure (p ∷ ps)) s
