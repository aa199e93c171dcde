-- ===== src/Stage2/Spared/Setup.antt =====
-- The set-up of stage 2, from its entry to the main loop, leaves the boot loader's flash as it is.
use swindle_bootloader_gd.Common.{
  ℕ, zero, suc, ◌+◌, ◌-◌, ◌*◌, ◌/◌, ◌%◌, ◌^◌, ◌≤◌, ◌<◌, bit_and, bit_or, Bool, true, false, not,
  Option, none, some, List, [], ◌∷◌, ◌++◌, replicate, ◌==◌, if◌then◌else◌, arith, u32, ◌>>◌,
}
use swindle_bootloader_gd.Common.Partial.{
  nothing, holds, Any, Safe, Safe-pure, Safe-done, Safe-bind, Safe-if,
}
use swindle_bootloader_gd.Bus.{byte, word, Env, store}
use swindle_bootloader_gd.Flash.Spared.{
  Clear, Spared, after_ar-Clear, before_ar-Clear, load-Spared, store-Spared, update-Spared,
}
use swindle_bootloader_gd.Device.{start_addr}
use swindle_bootloader_gd.Board.{
  gpioa, gpiob, gpioc, af, usb, reset, enable, CpuId, identify, or_into,
}
use swindle_bootloader_gd.Clock.{
  rcu_ctl, rcu_cfg0, rcu_addctl, flash_acr, wait_set, set_prescalers, set_latency, start_pll,
  select_pll, clock_setup_in_hsi_48mhz, clock_setup_in_hse_8mhz_out_72mhz,
}
use swindle_bootloader_gd.Usb.Registers.{usb_cntr, usb_istr, usb_btable}
use swindle_bootloader_gd.Strings.{
  hcharset, hex_bytes, get_dev_unique_id, prepare_memory_layout, usb_strings,
}
use swindle_bootloader_gd.Stage2.{
  within, unidentified, systick_ctrl, usb_dp, led_pin, led2_pin, led3_pin, clear_words,
  setup_for_usb, usb_init, start_dfu, stage2_entry,
}
use swindle_bootloader_gd.Stage2.Spared.Drivers.{
  or_into-Spared, and_not_into-Spared, peripheral-Spared, output-Spared, floating-Spared,
  pin-Spared, led_pin-lt,
}

-- `.bss` lies in RAM, between the flash and the peripherals.
clear_words-Spared :
    (n a : ℕ) → start_addr ≤ a → a + 4 * n < 0x4000_0000 → Safe Spared Any (clear_words n a)
unfolding clear_words
clear_words-Spared zero a lo hi = record { run = λ h s. holds (tt, s) }
clear_words-Spared (suc n) a lo hi = record {
  run = λ h s.
      Safe.run
        (Safe-bind (store-Spared word a 0 (before_ar-Clear a lo (omega arith)))
          λ _ _. clear_words-Spared n (u32 (a + 4)) (omega arith) (omega arith))
        h s;
}

module _ (env : Env) where
  wait_set-Spared : (fuel r mask : ℕ) → Safe Spared Any (wait_set env fuel r mask)
  unfolding wait_set
  wait_set-Spared zero r mask = record { run = λ h s. nothing }
  wait_set-Spared (suc k) r mask = record {
    run = λ h s.
        Safe.run
          (Safe-bind (load-Spared env word r)
            λ v _. Safe-if (bit_and v mask == 0) (wait_set-Spared k r mask) Safe-done)
          h s;
  }

  -- A clock is switched on, and its status bit waited for.
  started-Spared :
      (fuel r bits mask : ℕ)
      → Clear r
      → Safe Spared Any (do or_into env r bits; wait_set env fuel r mask)
  started-Spared fuel r bits mask c =
      Safe-bind (or_into-Spared env r bits c) λ _ _. wait_set-Spared fuel r mask

  ctl-Clear : Clear rcu_ctl × Clear rcu_cfg0 × Clear rcu_addctl × Clear flash_acr
  ctl-Clear = (
    before_ar-Clear rcu_ctl (omega arith) (omega arith),
    before_ar-Clear rcu_cfg0 (omega arith) (omega arith),
    before_ar-Clear rcu_addctl (omega arith) (omega arith),
    before_ar-Clear flash_acr (omega arith) (omega arith),
  )

  -- From the prescalers to the PLL as the system clock.
  prescalers-Spared : (source : ℕ) → Safe Spared Any (set_prescalers env source)
  unfolding set_prescalers
  prescalers-Spared source =
      update-Spared env word rcu_cfg0
        (λ v. bit_or (bit_and v 0xFF00000F) (4 * 2 ^ 8 + 3 * 2 ^ 14 + 7 * 2 ^ 18 + source * 2 ^ 16))
        ctl-Clear.1

  latency-Spared : Safe Spared Any (set_latency env)
  unfolding set_latency
  latency-Spared =
      update-Spared env word flash_acr (λ v. bit_or (bit_and v (0xffff_ffff - 7)) 2) ctl-Clear.3

  start_pll-Spared : (fuel : ℕ) → Safe Spared Any (start_pll env fuel)
  unfolding start_pll
  start_pll-Spared fuel = started-Spared fuel rcu_ctl (2 ^ 24) (2 ^ 25) ctl-Clear.0

  select_pll-Spared : Safe Spared Any (select_pll env)
  unfolding select_pll
  select_pll-Spared =
      update-Spared env word rcu_cfg0 (λ v. bit_or (bit_and v (0xffff_ffff - 3)) 2) ctl-Clear.1

  hsi-Spared : (fuel : ℕ) → Safe Spared Any (clock_setup_in_hsi_48mhz env fuel)
  unfolding clock_setup_in_hsi_48mhz
  hsi-Spared fuel = Safe-bind (prescalers-Spared 0) λ _ _. Safe-bind latency-Spared λ _ _.
      Safe-bind (start_pll-Spared fuel) λ _ _. Safe-bind select_pll-Spared λ _ _.
        Safe-bind (or_into-Spared env rcu_addctl (2 ^ 16) ctl-Clear.2) λ _ _.
          Safe-bind (wait_set-Spared fuel rcu_addctl (2 ^ 17))
            λ _ _. or_into-Spared env rcu_addctl 1 ctl-Clear.2

  hse-Spared : (fuel : ℕ) → Safe Spared Any (clock_setup_in_hse_8mhz_out_72mhz env fuel)
  unfolding clock_setup_in_hse_8mhz_out_72mhz
  hse-Spared fuel = Safe-bind (or_into-Spared env rcu_ctl (2 ^ 16) ctl-Clear.0) λ _ _.
      Safe-bind (wait_set-Spared fuel rcu_ctl (2 ^ 17)) λ _ _.
        Safe-bind (prescalers-Spared 1) λ _ _.
          Safe-bind latency-Spared λ _ _. Safe-bind (start_pll-Spared fuel) λ _ _. select_pll-Spared

  -- The registers of the tick timer and of the USB unit.
  systick-Spared :
      (field v : ℕ) → field < 0x100 → Safe Spared Any (store word (systick_ctrl + field) v)
  systick-Spared field v lt =
      store-Spared word (systick_ctrl + field) v
        (after_ar-Clear (systick_ctrl + field) (omega arith))

  setup_for_usb-Spared :
      (fuel unset : ℕ) (crystalless : Bool)
      → Safe Spared Any (setup_for_usb env fuel unset crystalless)
  unfolding setup_for_usb
  setup_for_usb-Spared fuel unset crystalless =
      let load_value = (if crystalless then 36000000 else 72000000) / 1000 - 1 in
      Safe-bind (Safe-if crystalless (hsi-Spared fuel) (hse-Spared fuel)) λ _ _.
        Safe-bind (peripheral-Spared env gpioa enable) λ _ _.
          Safe-bind (peripheral-Spared env gpiob enable) λ _ _.
            Safe-bind (peripheral-Spared env gpioc enable) λ _ _.
              Safe-bind (peripheral-Spared env af enable) λ _ _.
                Safe-bind (systick-Spared 0 0 (omega arith)) λ _ _.
                  Safe-bind (systick-Spared 8 0 (omega arith)) λ _ _.
                    Safe-bind (systick-Spared 4 load_value (omega arith)) λ _ _.
                      Safe-bind (systick-Spared 0 7 (omega arith)) λ _ _.
                        Safe-bind (peripheral-Spared env usb enable) λ _ _.
                          store-Spared word usb_cntr 2
                            (before_ar-Clear usb_cntr (omega arith) (omega arith))

  usb_init-Spared :
      (fuel unset : ℕ) (crystalless : Bool) → Safe Spared Any (usb_init env fuel unset crystalless)
  unfolding usb_init
  usb_init-Spared fuel unset crystalless =
      let cntr = before_ar-Clear usb_cntr (omega arith) (omega arith) in
      Safe-bind (peripheral-Spared env usb enable) λ _ _.
        Safe-bind (peripheral-Spared env usb reset) λ _ _.
          Safe-bind (and_not_into-Spared env usb_cntr 2 cntr) λ _ _.
            Safe-bind (and_not_into-Spared env usb_cntr 1 cntr) λ _ _.
              Safe-bind (store-Spared word usb_cntr 0 cntr) λ _ _.
                Safe-bind
                  (store-Spared word usb_btable 0
                    (before_ar-Clear usb_btable (omega arith) (omega arith)))
                  λ _ _.
                    Safe-bind
                      (store-Spared word usb_istr 0
                        (before_ar-Clear usb_istr (omega arith) (omega arith)))
                      λ _ _. store-Spared word usb_cntr 0x9C00 cntr

  hex_bytes-Spared : (n p : ℕ) → Safe Spared Any (hex_bytes env n p)
  unfolding hex_bytes
  hex_bytes-Spared zero p = record { run = λ h s. holds (tt, s) }
  hex_bytes-Spared (suc n) p = record {
    run = λ h s.
        Safe.run
          (Safe-bind (load-Spared env byte p) λ c _.
            Safe-bind (hex_bytes-Spared n (p + 1))
              λ rest _. Safe-pure (hcharset (c / 16 % 16) ∷ hcharset (c % 16) ∷ rest) tt)
          h s;
  }

  unique_id-Spared : Safe Spared Any (get_dev_unique_id env)
  unfolding get_dev_unique_id
  unique_id-Spared =
      Safe-bind (hex_bytes-Spared 9 0x1FFFF7E8)
        λ digits _. Safe-pure (83 ∷ 87 ∷ 73 ∷ 78 ∷ 68 ∷ 95 ∷ digits ++ (0 ∷ 0 ∷ [])) tt

  within-Spared : {A : Type 0} (o : Option A) → Safe Spared Any (within o)
  within-Spared none = record { run = λ h s. nothing }
  within-Spared (some a) = Safe-pure a tt

  start_dfu-Spared :
      (fuel unset : ℕ) (crystalless : Bool) (version : List ℕ) (id : CpuId)
      → Safe Spared Any (start_dfu env fuel unset crystalless version id)
  unfolding start_dfu
  start_dfu-Spared fuel unset crystalless version id =
      Safe-bind (output-Spared env unset usb_dp (omega arith)) λ _ _.
        Safe-bind (pin-Spared env usb_dp false (omega arith)) λ _ _.
          Safe-bind (pin-Spared env usb_dp true (omega arith)) λ _ _.
            Safe-bind (floating-Spared env unset usb_dp (omega arith)) λ _ _.
              Safe-bind unique_id-Spared λ serial_no _.
                Safe-bind
                  (within-Spared (prepare_memory_layout id.gd id.flash_size (replicate 64 0)))
                  λ layout _. Safe-bind (usb_init-Spared fuel unset crystalless) λ _ _.
                    Safe-bind
                      (output-Spared env unset (led_pin crystalless) (led_pin-lt env crystalless))
                      λ _ _. Safe-bind (output-Spared env unset led2_pin (omega arith)) λ _ _.
                        Safe-bind (output-Spared env unset led3_pin (omega arith))
                          λ _ _. Safe-pure (usb_strings version serial_no layout) tt

  identify-Spared : (cpu : CpuId) → Safe Spared Any (identify env cpu)
  unfolding identify
  identify-Spared cpu = Safe-if (not (cpu.flash_size == 0)) (Safe-pure cpu tt) (
      Safe-bind (load-Spared env word 0xE000ED00) λ id _.
        Safe-bind (load-Spared env word 0x1FFFF7E0) λ density _.
          Safe-pure
            (record {
              cpu_id = id;
              flash_size = density % 2 ^ 16;
              gd = not (density / 2 ^ 16 == 0xffff);
            })
            tt)

  pub stage2_entry-Spared :
      (fuel unset : ℕ) (crystalless : Bool) (version : List ℕ) (bss_start bss_words : ℕ)
      → start_addr ≤ bss_start
      → bss_start + 4 * bss_words < 0x4000_0000
      → Safe Spared Any (stage2_entry env fuel unset crystalless version bss_start bss_words)
  unfolding stage2_entry
  stage2_entry-Spared fuel unset crystalless version bss_start bss_words lo hi =
      Safe-bind (clear_words-Spared bss_words bss_start lo hi) λ _ _.
        Safe-bind (identify-Spared unidentified) λ id _.
          Safe-bind (setup_for_usb-Spared fuel unset crystalless) λ _ _.
            Safe-bind (start_dfu-Spared fuel unset crystalless version id)
              λ strings _. Safe-pure (id, strings) tt
