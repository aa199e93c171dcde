-- ===== src/Examples/Registers.antt =====
-- Register writes on concrete inputs: endpoints, pins and clocks.
use swindle_bootloader_gd.Common.{
  ℕ, ◌+◌, ◌*◌, ◌/◌, ◌%◌, ◌^◌, ◌≤◌, ◌<◌, ◌≡◌, ◌≢◌, ◌⊎◌, refl, bit_and, true, false, some, [], ◌∷◌,
  ◌==◌, if◌then◌else◌, arith, get_elem?, digit, All, Returns,
}
use swindle_bootloader_gd.Bus.{word, read, write, Log, Env, modulus}
use swindle_bootloader_gd.Usb.Registers.{
  usb_cntr, set_ep_rx_stat, set_ep_tx_stat, clr_ep_rx_ctr, clr_ep_tx_ctr, clr_ep_tx_dtog,
  clr_ep_rx_dtog, set_ep_type, set_ep_addr,
}
use swindle_bootloader_gd.Usb.Toggles.{Updates, ep_registers-Updates}
use swindle_bootloader_gd.Board.{output, mode_value, speed_value, pin_mode}
use swindle_bootloader_gd.Board.Pins.{pin_register, pin_slot, pin_mode-digits}
use swindle_bootloader_gd.Clock.{
  multipliers, pll_config, rcu_ctl, rcu_addctl, clock_setup_in_hsi_48mhz,
  clock_setup_in_hse_8mhz_out_72mhz,
}
use swindle_bootloader_gd.Clock.Waits.{Rises, Extends, latest}
use swindle_bootloader_gd.Stage2.{stage2_entry}
use swindle_bootloader_gd.Stage2.Entry.{IsFound, stage2_entry-latest}
use swindle_bootloader_gd.Usb.Dispatch.{FitsString}
use swindle_bootloader_gd.Clock.Switch.{
  Switched, Selected48, clock_setup_in_hse-Switched, clock_setup_in_hsi-Switched,
}
use swindle_bootloader_gd.Clock.Pll.{pll_code, pll_factor, pll_config-factor}

-- Every register reads as ones.
abbrev ones : Env
ones h w a = 0xffff_ffff

ones-Rises : (r : ℕ) → Rises ones 2 r 24 (2 ^ 25)
ones-Rises r h on = (0, omega arith, refl)

ones-Rises_xtal : (r : ℕ) → Rises ones 2 r 16 (2 ^ 17)
ones-Rises_xtal r h on = (0, omega arith, refl)

clock_setup_in_hse-Switched_example :
    Returns (λ _ t. Switched ones t) (clock_setup_in_hse_8mhz_out_72mhz ones 2 [])
clock_setup_in_hse-Switched_example =
    clock_setup_in_hse-Switched ones 2 [] (ones-Rises_xtal rcu_ctl) (ones-Rises rcu_ctl)

clock_setup_in_hsi-Switched_example :
    Returns
      (λ _ t. (start : Log) × Switched ones start × Extends start t × Selected48 ones t)
      (clock_setup_in_hsi_48mhz ones 2 [])
clock_setup_in_hsi-Switched_example =
    clock_setup_in_hsi-Switched ones 2 [] (ones-Rises rcu_ctl) (ones-Rises_xtal rcu_addctl)

pll_config-factor_example :
    (factor : ℕ) × (get_elem? multipliers 9 ≡ some factor)
    × (pll_factor (pll_code (pll_config 0x400 factor true)) ≡ (if 9 == 15 then 14 else 9))
    × (digit 16 (pll_config 0x400 factor true) ≡ (if true then 1 else 0))
    × ((n : ℕ)
        → n < 32
        → (n < 16) ⊎ (n ≡ 17) ⊎ (22 ≤ n)
        → n ≢ 27
        → digit n (pll_config 0x400 factor true) ≡ digit n 0x400)
pll_config-factor_example = pll_config-factor 0x400 9 true (omega arith) (omega arith)

pin_mode-digits_example :
    Returns
      (λ _ t.
        (value v : ℕ) × (h' : Log) × (mode_value 0 12 (speed_value 0 10) output []
          ≡ some (value, h'))
        × (value < 16)
        × (t ≡ write word (pin_register 12) v ∷ read word (pin_register 12) ∷ h')
        × ((n : ℕ)
            → n < 32
            → digit n v ≡ (
                if n / 4 == pin_slot 12
                then digit (n % 4) value
                else digit n (ones h' word (pin_register 12) % modulus word))))
      (pin_mode ones 0 12 output 10 [])
pin_mode-digits_example = pin_mode-digits ones 0 12 10 output [] refl

ep_registers-Updates_example :
    Updates ones 1 (set_ep_rx_stat ones 1 (3 * 0x1000)) (λ v. bit_and v 0xCFFF + 3 * 0x1000)
    × Updates ones 1 (set_ep_tx_stat ones 1 (3 * 0x10)) (λ v. bit_and v 0xFFCF + 3 * 0x10)
    × Updates ones 1 (clr_ep_rx_ctr ones 1) (λ v. bit_and v 0x7FFF)
    × Updates ones 1 (clr_ep_tx_ctr ones 1) (λ v. bit_and v 0xFF7F)
    × Updates ones 1 (clr_ep_tx_dtog ones 1) (λ v. bit_and v 0xFFBF)
    × Updates ones 1 (clr_ep_rx_dtog ones 1) (λ v. bit_and v 0xBFFF)
    × Updates ones 1 (set_ep_type ones 1 (3 * 0x200)) (λ v. bit_and v 0xF9FF + 3 * 0x200)
    × Updates ones 1 (set_ep_addr ones 1 1) (λ v. bit_and v 0xFFF0 + 1)
ep_registers-Updates_example = ep_registers-Updates ones 1 3 (omega arith) (omega arith)

stage2_entry-latest_example :
    Returns
      (λ r t. (latest usb_cntr t ≡ some 0x9C00) × IsFound r.0 × All FitsString r.1)
      (stage2_entry ones 2 0 false (49 ∷ 46 ∷ 48 ∷ []) 0x20000000 5 [])
stage2_entry-latest_example =
    stage2_entry-latest ones 2 0 false (49 ∷ 46 ∷ 48 ∷ []) 0x20000000 5 [] (omega arith)
      (λ h. omega arith) (ones-Rises_xtal rcu_ctl, ones-Rises rcu_ctl)
