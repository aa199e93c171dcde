-- ===== src/System/Heap/Blocks.antt =====
-- The blocks of the allocator.
use swindle_bootloader_gd.Common.{
  ℕ, zero, suc, ◌+◌, ◌-◌, ◌*◌, ◌/◌, ◌%◌, ◌^◌, ◌≤◌, ◌<◌, ◌≡◌, ◌⊎◌, inl, inr, refl, ap, ◌∙◌, subst,
  ◌&&◌, ltb, leb, if◌then◌else◌, List, [], ◌∷◌, Option, arith, u32, Returns, returns, Returns-bind,
  Returns_mono,
}
use swindle_bootloader_gd.Bus.{Width, byte, half, word, read, write, Log}
use swindle_bootloader_gd.System.Heap.{
  Heap, zero_bytes, rounded, moved, at_heap, sys_alloc, alloc_all,
}

abbrev bytes_of : Width → ℕ
bytes_of byte = 1
bytes_of half = 2
bytes_of word = 4

-- The byte that the writes of a run leave at an address, or what was there at first.
unfoldable pub last_byte : (ℕ → ℕ) → Log → ℕ → ℕ
last_byte initial [] a = initial a
last_byte initial (read w r ∷ h) a = last_byte initial h a
last_byte initial (write w r v ∷ h) a =
    let before = last_byte initial h a in
    if leb r a && ltb a (r + bytes_of w) then v / 2 ^ (8 * (a - r)) % 256 else before

module _ (initial : ℕ → ℕ) where
  abbrev Zeroed : ℕ → ℕ → Log → Log → Type 0
  Zeroed z n h t =
      ((i : ℕ) → i < n → last_byte initial t (z + i) ≡ 0)
      × ((a : ℕ) → (a < z) ⊎ (z + n ≤ a) → last_byte initial t a ≡ last_byte initial h a)

  zero_first : (z a : ℕ) (h : Log) → a ≡ z → last_byte initial (write byte z 0 ∷ h) a ≡ 0
  unfolding last_byte
  zero_first z a h e = ground arith

  zero_other :
      (z a : ℕ) (h : Log)
      → (a < z) ⊎ (z + 1 ≤ a)
      → last_byte initial (write byte z 0 ∷ h) a ≡ last_byte initial h a
  unfolding last_byte
  zero_other z a h out = ground arith

  zero_bytes-Zeroed :
      (z n : ℕ) (h : Log) → z + n < 2 ^ 32 → Returns (λ _ t. Zeroed z n h t) (zero_bytes z n h)
  unfolding zero_bytes
  zero_bytes-Zeroed z zero h fits = returns (λ i l. absurd (omega arith), λ a out. refl)
  zero_bytes-Zeroed z (suc n) h fits =
      let next : u32 (z + 1) ≡ z + 1 = omega arith in
      rw (next) (
        Returns_mono (zero_bytes-Zeroed (z + 1) n (write byte z 0 ∷ h) (omega arith)) λ _ t rest.
          (zeros t rest, λ a out. rest.1 a (ground arith) ∙ zero_other z a h (ground arith)))
    where
      zeros :
          (t : Log)
          → Zeroed (z + 1) n (write byte z 0 ∷ h) t
          → (i : ℕ) → i < suc n
          → last_byte initial t (z + i) ≡ 0
      zeros t rest zero l =
          rest.1 (z + 0) (inl (omega arith)) ∙ zero_first z (z + 0) h (omega arith)
      zeros t rest (suc i) l =
          ap (last_byte initial t) {x = z + suc i} {y = z + 1 + i} (omega arith)
          ∙ rest.0 i (omega arith)

  -- Each block lies below the one before it, is aligned and is zero.
  abbrev pub Stacked : ℕ → List ℕ → List ℕ → Log → Type 0
  Stacked top [] [] t = Unit {0}
  Stacked top [] (p ∷ ps) t = ⊥
  Stacked top (size ∷ rest) [] t = ⊥
  Stacked top (size ∷ rest) (p ∷ ps) t =
      (p + size ≤ top)
      × (p % 4 ≡ 0)
      × ((i : ℕ) → i < size → last_byte initial t (p + i) ≡ 0)
      × Stacked p rest ps t

-- The bytes that the pointer moves.
abbrev pub cost : List ℕ → ℕ
cost [] = 0
cost (size ∷ rest) = 4 * rounded size + cost rest

moved-below : (p size : ℕ) → 4 * rounded size ≤ p → p < 2 ^ 32 → moved p size ≡ p - 4 * rounded size
moved-below p size enough small = omega arith

module _ (initial : ℕ → ℕ) where
  Block : ℕ → ℕ → Log → ℕ → Heap → Type 0
  Block top size h p t =
      (t.fake_heap ≡ p) × (p ≡ top - 4 * rounded size) × Zeroed initial p size h t.log

  at_heap-Block :
      (top p size : ℕ) (h : Log) {o : Option (Unit {0} × Log)}
      → p ≡ top - 4 * rounded size
      → Returns (λ _ t. Zeroed initial p size h t) o
      → Returns (λ q t. Block top size h q t) (at_heap p o)
  unfolding Block
  at_heap-Block top p size h e (returns zeroed) = returns (refl, e, zeroed)

  sys_alloc-Block :
      (size : ℕ) (s : Heap)
      → 4 * rounded size ≤ s.fake_heap
      → s.fake_heap < 2 ^ 32
      → Returns (λ p t. Block s.fake_heap size s.log p t) (sys_alloc size s)
  unfolding sys_alloc
  sys_alloc-Block size s enough small =
      let e = moved-below s.fake_heap size enough small in
      at_heap-Block s.fake_heap (moved s.fake_heap size) size s.log e
        (zero_bytes-Zeroed initial (moved s.fake_heap size) size s.log (omega arith))

-- A sequence of allocations for which there is room comes back. Each block then ends at or below
-- the start of the one before it, the first at or below the pointer, so that no two overlap; each
-- is aligned to a word and holds zeros, and no byte above the pointer has changed.
pub alloc_all-Stacked :
    (initial : ℕ → ℕ) (sizes : List ℕ) (s : Heap)
    → cost sizes ≤ s.fake_heap
    → s.fake_heap < 2 ^ 32
    → s.fake_heap % 4 ≡ 0
    → Returns
        (λ ps t.
          Stacked initial s.fake_heap sizes ps t.log
          × ((a : ℕ) → s.fake_heap ≤ a → last_byte initial t.log a ≡ last_byte initial s.log a))
        (alloc_all sizes s)
unfolding alloc_all Block
alloc_all-Stacked initial [] s room small aligned = returns (tt, λ a l. refl)
alloc_all-Stacked initial (size ∷ rest) s room small aligned =
    Returns-bind (sys_alloc-Block initial size s (omega arith) small) λ p t (at, lower, zeroed).
      Returns-bind (alloc_all-Stacked initial rest t (omega arith) (omega arith) (omega arith))
        λ ps u (stacked, above). returns (
          (
            omega arith,
            omega arith,
            λ i l. above (p + i) (omega arith) ∙ zeroed.0 i l,
            subst (λ q. Stacked initial q rest ps u.log) at stacked,
          ),
          λ a l. above a (omega arith) ∙ zeroed.1 a (inr (omega arith)),
        )
