-- ===== src/Dfu/Guard.antt =====
-- The guard of the flash accesses: what it lets through.
use swindle_bootloader_gd.Common.{ℕ, ◌+◌, ◌^◌, ◌≤◌, ◌<◌, ◌≡◌, true, ◌⊎◌, ◌↔◌, inl, inr, arith}
use swindle_bootloader_gd.Device.{Chip, dfu_transfer_size, start_addr, end_addr}
use swindle_bootloader_gd.Dfu.{in_app_area}

below : (a n : ℕ) → (a + n < 2 ^ 32) ⊎ (2 ^ 32 ≤ a + n)
below a n = ground arith

-- Beyond the sums that do not wrap around, the guard lets through each access at the very top of the
-- address space whose wrapped end is at most the end of the flash.
pub in_app_area_iff :
    (chip : Chip) (a n : ℕ)
    → chip.flash_size < 2 ^ 16
    → a < 2 ^ 32
    → n ≤ dfu_transfer_size
    → (in_app_area chip a n ≡ true)
      ↔ ((start_addr ≤ a) × (a + n ≤ end_addr chip) ⊎ (2 ^ 32 ≤ a + n))
unfolding in_app_area
in_app_area_iff chip a n size lt small = elim (below a n) [
  | inl no_wrap ↦ (λ h. ground arith, λ h. ground arith)
  | inr wrap ↦ (λ h. inr wrap, λ h. ground arith)
]
