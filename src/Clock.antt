-- ===== src/Clock.antt =====
-- The clocks: src_stage2/clocking.h, and esprit_mini/lnRCU_systemClock_arm_gd32fx.cpp with
-- `enableUsb48Mhz` of lnRCU_armgd32.cpp. A waiting loop polls at most `fuel` times.
pub mod Waits
pub mod Switch
pub mod Prescalers
pub mod System
pub mod Pll
use swindle_bootloader_gd.Common.{
  ℕ, zero, suc, ◌+◌, ◌-◌, ◌*◌, ◌/◌, ◌%◌, ◌^◌, bit_and, bit_or, Bool, true, false, not, ◌||◌, Option,
  none, some, List, [], ◌∷◌, ltb, ◌==◌, if◌then◌else◌, u32, get_elem?, M, and_then, pure, ◌>>=◌,
  ◌>>◌,
}
use swindle_bootloader_gd.Bus.{word, Log, Env, load, store}
use swindle_bootloader_gd.Board.{or_into, and_not_into, rcu_base, CpuId, identify}

-- `arcu->CTL`, `CFG0`, `CFG1` and `ADDCTL`, and `fmc->WS`
abbrev pub rcu_ctl : ℕ
rcu_ctl = rcu_base

abbrev pub rcu_cfg0 : ℕ
rcu_cfg0 = rcu_base + 4

abbrev pub rcu_cfg1 : ℕ
rcu_cfg1 = rcu_base + 0x2c

abbrev pub rcu_addctl : ℕ
rcu_addctl = rcu_base + 0xc0

abbrev pub flash_acr : ℕ
flash_acr = 0x40022000

-- `setBit` of a clock and its status bit
abbrev pub irc8 : ℕ
irc8 = 0

abbrev pub xtal : ℕ
xtal = 16

abbrev pub pll : ℕ
pll = 24

module _ (env : Env) where
  -- `while (!(R & mask));`
  unfoldable pub wait_set : ℕ → ℕ → ℕ → M Log (Unit {0})
  wait_set zero r mask h = none
  wait_set (suc k) r mask h =
      (do
        v ← load env word r
        let again = wait_set k r mask
        if bit_and v mask == 0 then again else pure tt)
        h

  -- `while (R & mask);`
  unfoldable pub wait_clear : ℕ → ℕ → ℕ → M Log (Unit {0})
  wait_clear zero r mask h = none
  wait_clear (suc k) r mask h =
      (do
        v ← load env word r
        let again = wait_clear k r mask
        if bit_and v mask == 0 then pure tt else again)
        h

  -- The prescalers and the PLL's factor 9, with the bit of its source; the `|` are of different bits.
  unfoldable pub set_prescalers : ℕ → M Log (Unit {0})
  set_prescalers source = do
    reg32 ← load env word rcu_cfg0
    store word rcu_cfg0
        (bit_or (bit_and reg32 0xFF00000F) (4 * 2 ^ 8 + 3 * 2 ^ 14 + 7 * 2 ^ 18 + source * 2 ^ 16))

  unfoldable pub set_latency : M Log (Unit {0})
  set_latency = do
    v ← load env word flash_acr
    store word flash_acr (bit_or (bit_and v (0xffff_ffff - 7)) 2)

  unfoldable pub start_pll : ℕ → M Log (Unit {0})
  unfolding wait_set
  start_pll fuel = do or_into env rcu_ctl (2 ^ 24); wait_set fuel rcu_ctl (2 ^ 25)

  unfoldable pub select_pll : M Log (Unit {0})
  select_pll = do
    v ← load env word rcu_cfg0
    store word rcu_cfg0 (bit_or (bit_and v (0xffff_ffff - 3)) 2)

  unfoldable pub clock_setup_in_hsi_48mhz : ℕ → M Log (Unit {0})
  unfolding wait_set set_prescalers set_latency start_pll select_pll
  clock_setup_in_hsi_48mhz fuel = do
    set_prescalers 0
    set_latency
    start_pll fuel
    select_pll
    or_into env rcu_addctl (2 ^ 16)
    wait_set fuel rcu_addctl (2 ^ 17)
    or_into env rcu_addctl 1

  unfoldable pub clock_setup_in_hse_8mhz_out_72mhz : ℕ → M Log (Unit {0})
  unfolding wait_set set_prescalers set_latency start_pll select_pll
  clock_setup_in_hse_8mhz_out_72mhz fuel = do
    or_into env rcu_ctl (2 ^ 16)
    wait_set fuel rcu_ctl (2 ^ 17)
    set_prescalers 1
    set_latency
    start_pll fuel
    select_pll

  -- `enableDisableClock`
  unfoldable pub enable_disable_clock : ℕ → ℕ → Bool → M Log (Unit {0})
  unfolding wait_set
  enable_disable_clock fuel clock enabled =
      if enabled
      then (do or_into env rcu_ctl (2 ^ clock); wait_set fuel rcu_ctl (2 ^ (clock + 1)))
      else and_not_into env rcu_ctl (2 ^ clock)

-- `Multipliers`
abbrev pub multipliers : List ℕ
multipliers =
    0 ∷ 0 ∷ 0 ∷ 1 ∷ 2 ∷ 3 ∷ 4 ∷ 5 ∷ 6 ∷ 7 ∷ 8 ∷ 9 ∷ 10 ∷ 11 ∷ 12 ∷ 12 ∷ 14 ∷ 16 ∷ 17 ∷ 18 ∷ 19 ∷ 20
    ∷ 21 ∷ 22 ∷ 23 ∷ []

-- The global variables of the file, and the run.
pub record Clocks : Type 0 where
  pub system_core_clock : ℕ
  pub rcu_clock_apb1 : ℕ
  pub rcu_clock_apb2 : ℕ
  pub jtag_id : ℕ
  pub log : Log

abbrev pub on_log : {A : Type 0} → M Log A → M Clocks A
on_log m s = elim (m s.log) [ none ↦ none | some (a, h) ↦ some (a, record s { log = h }) ]

-- The word that `setPll` writes to `CFG0`, for the word that it read and the table's entry.
unfoldable pub pll_config : ℕ → ℕ → Bool → ℕ
pll_config c0 factor external =
    let c1 = bit_or (bit_and c0 (0xffff_ffff - 15 * 2 ^ 18)) (bit_and factor 15 * 2 ^ 18) in
    let c2 =
      if bit_and factor 16 == 0 then bit_and c1 (0xffff_ffff - 2 ^ 27) else bit_or c1 (2 ^ 27) in
    if external then bit_or c2 (2 ^ 16) else bit_and c2 (0xffff_ffff - 2 ^ 16)

module _ (env : Env) (fuel : ℕ) where
  -- A multiplier of 25 passes the assertion and reads beyond the table; one above it fails.
  unfoldable pub set_pll : ℕ → ℕ → ℕ → Bool → M Clocks (Unit {0})
  unfolding wait_set pll_config
  set_pll input multiplier predivider external s = elim (get_elem? multipliers multiplier) [
    | none ↦ none
    | some factor ↦
        (do
          on_log (do
            c0 ← load env word rcu_cfg0
            store word rcu_cfg1 0
            store word rcu_cfg0 (pll_config c0 factor external)
            or_into env rcu_ctl (2 ^ 24)
            wait_set env fuel rcu_ctl (2 ^ 25))
          λ t.
              let clock = input * multiplier * 1000000 / predivider in
              some (
                tt,
                record t {
                  system_core_clock = clock;
                  rcu_clock_apb1 = clock / 2;
                  rcu_clock_apb2 = clock;
                },
              ))
          s
  ]

-- The peripherals that `getClock` tells apart; the others have the clock of APB1.
pub data ClockedPeripheral : Type 0 where
  timer5 timer6 uart0 timer0 spi0 af adc0 adc1 apb1 apb2 sysclock other : ClockedPeripheral

unfoldable pub get_clock : Clocks → ClockedPeripheral → ℕ
get_clock c timer5 = u32 (c.rcu_clock_apb1 * 2)
get_clock c timer6 = u32 (c.rcu_clock_apb1 * 2)
get_clock c uart0 = c.rcu_clock_apb2
get_clock c timer0 = c.rcu_clock_apb2
get_clock c spi0 = c.rcu_clock_apb2
get_clock c af = c.rcu_clock_apb2
get_clock c adc0 = c.rcu_clock_apb2
get_clock c adc1 = c.rcu_clock_apb2
get_clock c apb1 = c.rcu_clock_apb1
get_clock c apb2 = c.rcu_clock_apb2
get_clock c sysclock = c.system_core_clock
get_clock c other = c.rcu_clock_apb1

pub data Vendor : Type 0 where
  unknown stm gd wch esp : Vendor

-- The divider's code for twice the ratio of the clocks; an assertion fails for the other ratios.
unfoldable pub usb_divider : Vendor → ℕ → Option ℕ
usb_divider stm scaler = if scaler == 3 then some 0 else if scaler == 2 then some 1 else none
usb_divider gd scaler =
    if scaler == 3
    then some 0
    else if scaler == 2
    then some 1
    else if scaler == 5
    then some 2
    else if scaler == 4
    then some 3
    else none
usb_divider _ scaler = none

-- The part of `enableUsb48Mhz` behind its flag, without LN_USE_INTERNAL_CLOCK.
unfoldable pub enable_usb_48mhz : Env → Vendor → M Clocks (Unit {0})
unfolding usb_divider get_clock
enable_usb_48mhz env vendor s =
    elim (usb_divider vendor (u32 (2 * get_clock s sysclock) / 48000000)) [
      | none ↦ none
      | some x ↦
          on_log
            (do
              cfg0 ← load env word rcu_cfg0
              store word rcu_cfg0
                  (bit_or (bit_and cfg0 (0xffff_ffff - 3 * 2 ^ 22)) (bit_and x 3 * 2 ^ 22)))
            s
    ]

-- The whole of it, with its static flag.
unfoldable pub enable_usb_48mhz_once : Env → Vendor → Bool → M Clocks Bool
unfolding enable_usb_48mhz
enable_usb_48mhz_once env vendor usb_48m =
    if usb_48m then pure true else (do enable_usb_48mhz env vendor; pure true)

-- The wait states of the flash, for a clock in MHz.
abbrev pub wait_states : ℕ → ℕ
wait_states mhz = if ltb 48 mhz then 2 else if ltb 24 mhz then 1 else 0

module _ (env : Env) (fuel : ℕ) where
  -- The prescalers of the buses, the wait states unless the chip is a GigaDevice, and the switch.
  unfoldable pub switch_to_pll : ℕ → Bool → M Log ℕ
  switch_to_pll mhz is_gd = do
    a ← load env word rcu_cfg0
    let a1 : ℕ = bit_and (bit_and a (0xffff_ffff - 15 * 2 ^ 4)) (0xffff_ffff - 3 * 2 ^ 11)
    store word rcu_cfg0 a1
    let a2 : ℕ = bit_or (bit_and a1 (0xffff_ffff - 7 * 2 ^ 8)) (4 * 2 ^ 8)
    store word rcu_cfg0 a2
    if is_gd then pure tt else store word flash_acr (0x30 + wait_states mhz)
    store word rcu_cfg0 (bit_or (bit_and a2 (0xffff_ffff - 3)) 2)
    jtag ← load env word 0xE0042000
    store word 0xE0042004 (15 * 2 ^ 10 + 2 ^ 15 + 0x1f * 2 ^ 16 + 0x3f * 2 ^ 25)
    pure jtag

  -- Back to the internal oscillator, and the others off.
  unfoldable pub reset_clocks : M Log (Unit {0})
  unfolding enable_disable_clock wait_clear
  reset_clocks = do
    enable_disable_clock env fuel irc8 true
    v ← load env word rcu_cfg0
    store word rcu_cfg0 (bit_and v (0xffff_ffff - 3))
    wait_clear env fuel rcu_cfg0 (3 * 4)
    enable_disable_clock env fuel xtal false
    enable_disable_clock env fuel pll false

  -- `internal` is LN_USE_INTERNAL_CLOCK, `mhz` is LN_MCU_SPEED in MHz.
  unfoldable pub init_system_clock : Bool → ℕ → CpuId → M Clocks (Unit {0})
  unfolding identify reset_clocks wait_set set_pll switch_to_pll
  init_system_clock internal mhz cpu = do
    id ← on_log (identify env cpu)
    on_log reset_clocks
    if internal
        then pure tt
        else on_log (do or_into env rcu_ctl (2 ^ 16); wait_set env fuel rcu_ctl (2 ^ 17))
    set_pll env fuel (if internal then 4 else 8) (mhz / (if internal then 4 else 8)) 1
        (not internal)
    jtag ← on_log (switch_to_pll mhz id.gd)
    λ s. some (tt, record s { jtag_id = jtag })
