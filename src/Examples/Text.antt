-- ===== src/Examples/Text.antt =====
-- The strings of a concrete chip.
use swindle_bootloader_gd.Common.{
  ℕ, ◌-◌, ◌/◌, ◌%◌, ◌≡◌, refl, true, some, List, [], ◌∷◌, arith, length, replicate, take, drop,
  Gives,
}
use swindle_bootloader_gd.Bus.{Env}
use swindle_bootloader_gd.Strings.{prepare_memory_layout, get_dev_unique_id}
use swindle_bootloader_gd.Strings.Serial.{unhex, id_bytes, unique_id-unhex}
use swindle_bootloader_gd.Strings.Layout.{Describes, memory_layout-Describes}

memory_layout-Describes_example :
    (r : List ℕ) × (prepare_memory_layout true 256 (replicate 64 0) ≡ some r)
    × Describes 2 4 ((256 - 8) / 2) r
memory_layout-Describes_example =
    memory_layout-Describes true 256 (replicate 64 0) refl (omega arith) (omega arith)

abbrev chip_id : ℕ → ℕ
chip_id p = p % 251

abbrev chip : Env
chip h w p = chip_id p

unique_id-unhex_example :
    Gives
      (λ s.
        (take 6 s ≡ 83 ∷ 87 ∷ 73 ∷ 78 ∷ 68 ∷ 95 ∷ [])
        × (unhex 9 (drop 6 s) ≡ id_bytes chip_id 0x1FFFF7E8 9)
        × (length s ≡ 26))
      (get_dev_unique_id chip)
unique_id-unhex_example = unique_id-unhex chip chip_id λ h p. refl
