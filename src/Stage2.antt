-- ===== src/Stage2.antt =====
-- Stage 2 from its entry to the main loop: `stage2_entry`, `setupForUsb` and `runDfu` of
-- src_stage2/dfu.cpp, with `usb_init` of usb.cpp and the delay of src_common/stubs.cpp.
pub mod Loop
pub mod Entry
pub mod Spared
pub mod Whole
use swindle_bootloader_gd.Common.{
  ℕ, zero, suc, ◌+◌, ◌-◌, ◌*◌, ◌/◌, ◌%◌, ◌^◌, bit_and, Bool, true, false, not, Option, none, some,
  List, ltb, ◌==◌, if◌then◌else◌, u32, replicate, M, and_then, pure, ◌>>=◌, ◌>>◌,
}
use swindle_bootloader_gd.Bus.{word, Log, Env, load, store}
use swindle_bootloader_gd.Device.{Config, Chip, DfuState, manifest, boot}
use swindle_bootloader_gd.Board.{
  input_floating, output, gpioa, gpiob, gpioc, af, usb, enable, reset, CpuId, identify, pin_mode,
  digital_write, peripheral_action, and_not_into,
}
use swindle_bootloader_gd.Strings.{get_dev_unique_id, prepare_memory_layout, usb_strings}
use swindle_bootloader_gd.Clock.{clock_setup_in_hsi_48mhz, clock_setup_in_hse_8mhz_out_72mhz}
use swindle_bootloader_gd.Usb.Registers.{set_reg, usb_cntr, usb_istr, usb_btable}
use swindle_bootloader_gd.Usb.State.{Usb, power_on, on_hw}
use swindle_bootloader_gd.Usb.Control.{do_usb_poll}

abbrev pub aircr : ℕ
aircr = 0xE000ED0C

abbrev pub systick_ctrl : ℕ
systick_ctrl = 0xe000e010

-- The pins PA12, LED, LED2 and LED3.
abbrev pub usb_dp : ℕ
usb_dp = 12

abbrev pub led_pin : Bool → ℕ
led_pin crystalless = if crystalless then 0 else 2 * 16 + 13

abbrev pub led2_pin : ℕ
led2_pin = 8

abbrev pub led3_pin : ℕ
led3_pin = 16 + 13

-- `_full_system_reset` up to its endless loop.
unfoldable pub full_system_reset : M Log (Unit {0})
full_system_reset = store word aircr (0x05FA0000 + 4)

-- `while (bss < end) *bss++ = 0`, for the number of words.
unfoldable pub clear_words : ℕ → ℕ → M Log (Unit {0})
clear_words zero a h = pure tt h
clear_words (suc n) a h = (do store word a 0; clear_words n (u32 (a + 4))) h

-- The tick interrupt of src_common/stubs.cpp.
abbrev pub tick : ℕ → ℕ
tick sys_tick = u32 (sys_tick + 1)

-- `xDelay`: it polls the tick counter until that is beyond the sum, which wraps around; `ticks` is
-- what the polls find.
unfoldable pub x_delay : ℕ → ℕ → (ℕ → ℕ) → Bool
x_delay zero target ticks = false
x_delay (suc k) target ticks =
    let rest = x_delay k target (λ i. ticks (suc i)) in
    if ltb target (u32 (ticks 0)) then true else rest

-- The array is left if there is none.
abbrev pub within : {A : Type 0} → Option A → M Log A
within o h = elim o [ none ↦ none | some a ↦ some (a, h) ]

-- The variables of lnCpuID before it has looked at the chip.
abbrev pub unidentified : CpuId
unidentified = record { cpu_id = 0; flash_size = 0; gd = false }

module _ (env : Env) (fuel unset : ℕ) (crystalless : Bool) where
  unfoldable pub setup_for_usb : M Log (Unit {0})
  unfolding clock_setup_in_hsi_48mhz clock_setup_in_hse_8mhz_out_72mhz peripheral_action
  setup_for_usb = do
    if crystalless
        then clock_setup_in_hsi_48mhz env fuel
        else clock_setup_in_hse_8mhz_out_72mhz env fuel
    peripheral_action env gpioa enable
    peripheral_action env gpiob enable
    peripheral_action env gpioc enable
    peripheral_action env af enable
    store word systick_ctrl 0
    store word (systick_ctrl + 8) 0
    store word (systick_ctrl + 4) ((if crystalless then 36000000 else 72000000) / 1000 - 1)
    store word systick_ctrl (4 + 2 + 1)
    peripheral_action env usb enable
    store word usb_cntr 2

  -- The waits of `usb_init` are loops of `nop`.
  unfoldable pub usb_init : M Log (Unit {0})
  unfolding peripheral_action
  usb_init = do
    peripheral_action env usb enable
    peripheral_action env usb reset
    and_not_into env usb_cntr 2
    and_not_into env usb_cntr 1
    set_reg usb_cntr 0
    set_reg usb_btable 0
    set_reg usb_istr 0
    set_reg usb_cntr (0x0400 + 0x8000 + 0x0800 + 0x1000)

  -- `runDfu` up to its loop, with the string table that it fills in. The delay of 300 ms between the
  -- two levels of D+ touches no register.
  unfoldable pub start_dfu : List ℕ → CpuId → M Log (List (List ℕ))
  unfolding pin_mode digital_write usb_init get_dev_unique_id prepare_memory_layout
  start_dfu version id = do
    pin_mode env unset usb_dp output 0
    digital_write env usb_dp false
    digital_write env usb_dp true
    pin_mode env unset usb_dp input_floating 0
    serial_no ← get_dev_unique_id env
    memory_layout ← within (prepare_memory_layout id.gd id.flash_size (replicate 64 0))
    usb_init
    pin_mode env unset (led_pin crystalless) output 0
    pin_mode env unset led2_pin output 0
    pin_mode env unset led3_pin output 0
    pure (usb_strings version serial_no memory_layout)

  -- From the entry to the loop: the words of .bss, the chip, the set-up. What `identify` keeps is in
  -- .bss.
  unfoldable pub stage2_entry : List ℕ → ℕ → ℕ → M Log (CpuId × List (List ℕ))
  unfolding clear_words identify setup_for_usb start_dfu
  stage2_entry version bss_start bss_words = do
    clear_words bss_words bss_start
    id ← identify env unidentified
    setup_for_usb
    strings ← start_dfu version id
    pure (id, strings)

-- The loop's variables, with `nextTick`.
pub record MainLoop : Type 0 where
  pub stack : Usb
  pub next_tick : ℕ
  pub led : Bool

pub data Outcome : Type 0 where
  running was_reset : Outcome

-- After a reset nothing runs.
abbrev pub next_round : Outcome → M MainLoop Outcome → M MainLoop Outcome
next_round was_reset rest = pure was_reset
next_round running rest = rest

abbrev pub on_stack : {A : Type 0} → M Usb A → M MainLoop A
on_stack m s = elim (m s.stack) [ none ↦ none | some (a, u) ↦ some (a, record s { stack = u }) ]

module _ (env : Env) (fuel : ℕ) (cfg : Config) (chip : Chip) (strings : List (List ℕ))
    (crystalless : Bool) where
  unfoldable pub blink : ℕ → M MainLoop (Unit {0})
  unfolding digital_write
  blink tick s =
      (if ltb s.next_tick tick
          then (do
            on_stack (
                on_hw (do
                  digital_write env (led_pin crystalless) s.led
                  digital_write env led2_pin s.led
                  digital_write env led3_pin s.led))
            λ t. some (tt, record t { next_tick = u32 (t.next_tick + 100); led = not t.led }))
          else pure tt)
        s

  -- What follows the poll, by the state of the DFU application.
  unfoldable pub after_poll : DfuState → ℕ → M MainLoop Outcome
  unfolding full_system_reset blink
  after_poll manifest tick = do on_stack (on_hw full_system_reset); pure was_reset
  after_poll _ tick = do blink tick; pure running

  -- A round of the loop, when `sysTick` is `tick`.
  unfoldable pub main_round : ℕ → M MainLoop Outcome
  unfolding do_usb_poll after_poll
  main_round tick = do
    on_stack (do_usb_poll env fuel cfg chip strings)
    λ s. after_poll s.stack.dfu.usbdfu_state tick s

  -- `n` rounds, or fewer if the chip is reset; `ticks` are the values of `sysTick`, last round first.
  unfoldable pub main_loop : (ℕ → ℕ) → ℕ → M MainLoop Outcome
  unfolding main_round
  main_loop ticks zero s = pure running s
  main_loop ticks (suc n) s = (do o ← main_round (ticks n); next_round o (main_loop ticks n)) s

-- What `identify` leaves, as the DFU application uses it.
abbrev pub chip_of : CpuId → Chip
chip_of id = record { flash_size = id.flash_size; gd = id.gd }

-- The variables of stage 2 when its loop starts, behind the run of the set-up.
unfoldable pub loop_start : ℕ → Log → MainLoop
unfolding power_on
loop_start sys_tick h = record {
  stack = record power_on { dfu = record boot { log = h } };
  next_tick = u32 (sys_tick + 100);
  led = false;
}

-- Stage 2 from its entry through `n` rounds of its loop, which starts when `sysTick` is `start`.
unfoldable pub run_stage2 :
    Env
    → (fuel unset : ℕ) → Config
    → (version : List ℕ) → Bool
    → (bss_start bss_words start : ℕ) → (ℕ → ℕ)
    → ℕ
    → Log
    → Option (Outcome × MainLoop)
unfolding stage2_entry loop_start main_loop
run_stage2 env fuel unset cfg version crystalless bss_start bss_words start ticks n h =
    elim (stage2_entry env fuel unset crystalless version bss_start bss_words h) [
      | none ↦ none
      | some ((id, strings), h') ↦
          main_loop env fuel cfg (chip_of id) strings crystalless ticks n (loop_start start h')
    ]
