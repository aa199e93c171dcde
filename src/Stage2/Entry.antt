-- ===== src/Stage2/Entry.antt =====
-- From the entry of stage 2 to its main loop.
use swindle_bootloader_gd.Common.{
  ℕ, zero, suc, ◌+◌, ◌%◌, ◌^◌, ◌≤◌, ◌<◌, ◌≡◌, refl, Bool, true, false, some, List, ◌∷◌, arith, u32,
  length, replicate, All, pure, ◌>>◌, Returns, returns, Returns-bind, Returns_mono, Gives,
  Gives-pure, Gives-bind,
}
use swindle_bootloader_gd.Bus.{word, read, Log, Env, Done, store-Gives}
use swindle_bootloader_gd.Device.{bootldr_size_kb}
use swindle_bootloader_gd.Board.{
  output, CpuId, identify, pin_mode, mode_value, digital_write, peripheral_action, rcu_action,
  rcu_switch,
}
use swindle_bootloader_gd.Strings.{prepare_memory_layout, usb_strings}
use swindle_bootloader_gd.Strings.Layout.{memory_layout-Describes}
use swindle_bootloader_gd.Strings.Table.{Describes-strlen, unique_id-length, usb_strings-FitsString}
use swindle_bootloader_gd.Usb.Requests.{strlen}
use swindle_bootloader_gd.Usb.Dispatch.{FitsString}
use swindle_bootloader_gd.Clock.{rcu_ctl, rcu_addctl}
use swindle_bootloader_gd.Clock.Waits.{Rises, latest}
use swindle_bootloader_gd.Clock.Switch.{clock_setup_in_hse-Switched, clock_setup_in_hsi-Switched}
use swindle_bootloader_gd.Usb.Registers.{usb_cntr}
use swindle_bootloader_gd.Stage2.{
  led_pin, led2_pin, led3_pin, clear_words, within, unidentified, setup_for_usb, usb_init,
  start_dfu, stage2_entry,
}

-- The chip's flash has at least the boot loader's size, as its register says at every read.
abbrev pub HoldsLoader : Env → Type 0
HoldsLoader env = (h : Log) → bootldr_size_kb ≤ env h word 0x1FFFF7E0 % 2 ^ 16

-- The flash size found is one of such a chip.
abbrev pub IsFound : CpuId → Type 0
IsFound id = (bootldr_size_kb ≤ id.flash_size) × (id.flash_size < 2 ^ 16)

clear_words-Done : (n a : ℕ) → Done (clear_words n a)
unfolding clear_words
clear_words-Done zero a = Gives-pure tt tt
clear_words-Done (suc n) a =
    Gives-bind (store-Gives word a 0) λ _ _. clear_words-Done n (u32 (a + 4))

module _ (env : Env) (fuel unset : ℕ) where
  -- The clocks that the set-up waits for are seen ready once they are switched on.
  abbrev pub Starts : Bool → Type 0
  Starts true = Rises env fuel rcu_ctl 24 (2 ^ 25) × Rises env fuel rcu_addctl 16 (2 ^ 17)
  Starts false = Rises env fuel rcu_ctl 16 (2 ^ 17) × Rises env fuel rcu_ctl 24 (2 ^ 25)

  setup_for_usb-Done :
      (crystalless : Bool) → Starts crystalless → Done (setup_for_usb env fuel unset crystalless)
  unfolding setup_for_usb peripheral_action rcu_action rcu_switch
  setup_for_usb-Done true (locks, stable) = record {
    run =
        λ h. Returns-bind (clock_setup_in_hsi-Switched env fuel h locks stable) λ _ t _. returns tt;
  }
  setup_for_usb-Done false (starts, locks) = record {
    run =
        λ h. Returns-bind (clock_setup_in_hse-Switched env fuel h starts locks) λ _ t _. returns tt;
  }

  identify-IsFound : HoldsLoader env → Gives IsFound (identify env unidentified)
  unfolding identify
  identify-IsFound large = record {
    run = λ h. returns (omega (arith, large (read word 0xE000ED00 ∷ h)), omega arith);
  }

  memory_layout-Done :
      (id : CpuId)
      → IsFound id
      → Gives
          (λ r. strlen r ≤ 64)
          (within (prepare_memory_layout id.gd id.flash_size (replicate 64 0)))
  memory_layout-Done id (low, high) =
      let (r, e, d) = memory_layout-Describes id.gd id.flash_size (replicate 64 0) refl low high in
      let fits = Describes-strlen _ _ _ r d in rw e (Gives-pure r fits)

  -- Behind the table of strings.
  usb_init-latest :
      (crystalless : Bool) (strings : List (List ℕ)) (h : Log)
      → Returns
          (λ r t. (latest usb_cntr t ≡ some 0x9C00) × (r ≡ strings))
          ((do
            usb_init env fuel unset crystalless
            pin_mode env unset (led_pin crystalless) output 0
            pin_mode env unset led2_pin output 0
            pin_mode env unset led3_pin output 0
            pure strings)
            h)
  unfolding pin_mode mode_value usb_init peripheral_action rcu_action rcu_switch latest
  usb_init-latest true strings h = returns (refl, refl)
  usb_init-latest false strings h = returns (refl, refl)

  start_dfu-latest :
      (crystalless : Bool) (version : List ℕ) (id : CpuId) (h : Log)
      → length version ≤ 2000
      → IsFound id
      → Returns
          (λ r t. (latest usb_cntr t ≡ some 0x9C00) × All FitsString r)
          (start_dfu env fuel unset crystalless version id h)
  unfolding start_dfu pin_mode mode_value digital_write
  start_dfu-latest crystalless version id h small found =
      Returns-bind ((unique_id-length env).run _) λ serial_no t len.
        Returns-bind ((memory_layout-Done id found).run t) λ layout u fits.
          Returns_mono (usb_init-latest crystalless (usb_strings version serial_no layout) u)
            λ r v (e, same).
              (e, rw same (usb_strings-FitsString version serial_no layout small len fits))

  -- Stage 2 comes from its entry to its main loop, whatever is to be cleared of .bss, if the
  -- oscillators that it waits for start, the chip's flash holds the boot loader, and the version is a
  -- string of at most 2000 bytes. The last word that it wrote to the USB unit's control register then
  -- ends the reset and the power-down and enables the four interrupts that a poll looks at, the flash
  -- size is found, and the descriptor of every string fits the control buffer.
  pub stage2_entry-latest :
      (crystalless : Bool) (version : List ℕ) (bss_start bss_words : ℕ) (h : Log)
      → length version ≤ 2000
      → HoldsLoader env
      → Starts crystalless
      → Returns
          (λ r t. (latest usb_cntr t ≡ some 0x9C00) × IsFound r.0 × All FitsString r.1)
          (stage2_entry env fuel unset crystalless version bss_start bss_words h)
  unfolding stage2_entry
  stage2_entry-latest crystalless version bss_start bss_words h small large starts =
      Returns-bind ((clear_words-Done bss_words bss_start).run h) λ _ t _.
        Returns-bind ((identify-IsFound large).run t) λ id u found.
          Returns-bind ((setup_for_usb-Done crystalless starts).run u) λ _ v _.
            Returns-bind (start_dfu-latest crystalless version id v small found)
              λ strings w (e, fit). returns {a = (id, strings)} (e, found, fit)
