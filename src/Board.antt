-- ===== src/Board.antt =====
-- The drivers that both stages call: esprit_mini/lnGPIO.cpp, lnRCU.cpp and lnCpuID_arm_gd32fx.cpp.
pub mod Pins
pub mod Levels
use swindle_bootloader_gd.Common.{
  ℕ, ◌+◌, ◌-◌, ◌*◌, ◌/◌, ◌%◌, ◌^◌, bit_and, bit_or, bit_xor, Bool, true, false, not, ◌&&◌, ◌||◌,
  Option, none, some, leb, ltb, ◌==◌, if◌then◌else◌, u32, M, pure, ◌>>=◌, ◌>>◌,
}
use swindle_bootloader_gd.Bus.{word, Log, Env, load, store}

-- `enum lnGpioMode`
pub data GpioMode : Type 0 where
  floating input_floating input_pullup input_pulldown output output_open_drain : GpioMode
  alternate_pp alternate_od pwm adc_mode dac_mode uart spi_mode uart_alt : GpioMode

-- `gpio[pin >> 4]`, for the five ports of the table
abbrev pub gpio_port : ℕ → ℕ
gpio_port pin = 0x40010800 + 0x400 * (pin / 16)

abbrev pub port_ctl0 : ℕ → ℕ
port_ctl0 pin = gpio_port pin

abbrev pub port_ctl1 : ℕ → ℕ
port_ctl1 pin = gpio_port pin + 4

abbrev pub port_istat : ℕ → ℕ
port_istat pin = gpio_port pin + 8

abbrev pub port_octl : ℕ → ℕ
port_octl pin = gpio_port pin + 12

abbrev pub port_bop : ℕ → ℕ
port_bop pin = gpio_port pin + 16

-- `LNGPIOSET`
abbrev pub gpio_set : ℕ → ℕ → ℕ
gpio_set md ctl = ctl * 4 + md

-- The `switch (mode)` of `lnPinMode`; `unset` is the value of the variable where no case sets it.
-- A failed assertion does not come back.
unfoldable pub mode_value : ℕ → ℕ → ℕ → GpioMode → M Log ℕ
mode_value unset xpin speed dac_mode = pure (gpio_set 0 0)
mode_value unset xpin speed adc_mode = pure (gpio_set 0 0)
mode_value unset xpin speed floating = pure (gpio_set 0 1)
mode_value unset xpin speed input_floating = pure (gpio_set 0 1)
mode_value unset xpin speed input_pullup = do
  store word (port_bop xpin) (2 ^ (xpin % 16))
  pure (gpio_set 0 2)
mode_value unset xpin speed input_pulldown = do
  store word (port_bop xpin) (2 ^ (16 + xpin % 16))
  pure (gpio_set 0 2)
mode_value unset xpin speed output = pure (gpio_set speed 0)
mode_value unset xpin speed output_open_drain = pure (gpio_set speed 1)
mode_value unset xpin speed spi_mode = pure unset
mode_value unset xpin speed pwm = pure (gpio_set speed 2)
mode_value unset xpin speed alternate_pp = pure (gpio_set speed 2)
mode_value unset xpin speed alternate_od = pure (gpio_set speed 3)
mode_value unset xpin speed uart = λ h. none
mode_value unset xpin speed uart_alt = λ h. none

-- The speed field; the code compares the variable that it is about to set, `unset`.
abbrev pub speed_value : ℕ → ℕ → ℕ
speed_value unset mhz = if mhz == 0 || leb 50 unset then 3 else if leb 10 mhz then 1 else 2

module _ (env : Env) where
  unfoldable pub pin_mode : ℕ → ℕ → GpioMode → ℕ → M Log (Unit {0})
  unfolding mode_value
  pin_mode unset xpin mode mhz =
      let pin = xpin % 16 in
      let ctl = if ltb 7 pin then port_ctl1 xpin else port_ctl0 xpin in
      let slot = if ltb 7 pin then pin % 8 else pin in
      do
        value ← mode_value unset xpin (speed_value unset mhz) mode
        ref ← load env word ctl
        store word ctl (
            bit_or (bit_and ref (0xffff_ffff - 15 * 2 ^ (slot * 4))) (u32 (value * 2 ^ (slot * 4))))

  unfoldable pub digital_write : ℕ → Bool → M Log (Unit {0})
  digital_write xpin value =
      store word (port_bop xpin) (2 ^ ((if value then 0 else 16) + xpin % 16))

  -- The flag `close` lets the open drain pass.
  unfoldable pub open_drain_close : ℕ → Bool → M Log (Unit {0})
  unfolding digital_write
  open_drain_close xpin close = digital_write xpin (not close)

  unfoldable pub digital_toggle : ℕ → M Log (Unit {0})
  digital_toggle xpin = do
    val ← load env word (port_octl xpin)
    store word (port_octl xpin) (bit_xor val (2 ^ (xpin % 16)))

  unfoldable pub digital_read : ℕ → M Log Bool
  digital_read xpin = do
    v ← load env word (port_istat xpin)
    pure (not (bit_and v (2 ^ (xpin % 16)) == 0))

-- `lnFastIO`: the address and the two words that the constructor stores.
pub record FastIo : Type 0 where
  pub onoff : ℕ
  pub on_bit : ℕ
  pub off_bit : ℕ

unfoldable pub fast_io : Env → ℕ → ℕ → M Log FastIo
unfolding pin_mode
fast_io env unset pin = do
  pin_mode env unset pin output 0
  let bit : ℕ = 2 ^ (pin % 16)
  pure (record { onoff = port_bop pin; on_bit = bit; off_bit = u32 (bit * 2 ^ 16) })

unfoldable pub on : FastIo → M Log (Unit {0})
on io = store word io.onoff io.on_bit

unfoldable pub off : FastIo → M Log (Unit {0})
off io = store word io.onoff io.off_bit

unfoldable pub pulse_low : FastIo → M Log (Unit {0})
pulse_low io = do store word io.onoff io.off_bit; store word io.onoff io.on_bit

unfoldable pub pulse_high : FastIo → M Log (Unit {0})
pulse_high io = do store word io.onoff io.on_bit; store word io.onoff io.off_bit

-- The registers of a port by its number, and its pins' levels.
abbrev pub get_gpio_toggle_register : ℕ → ℕ
get_gpio_toggle_register port = port_bop (16 * port)

abbrev pub get_gpio_direction_register : ℕ → ℕ
get_gpio_direction_register port = port_ctl0 (16 * port)

abbrev pub get_gpio_value_register : ℕ → ℕ
get_gpio_value_register port = port_octl (16 * port)

abbrev pub read_port : Env → ℕ → M Log ℕ
read_port env port = load env word (port_istat (16 * port))

-- `TimerMaskArray`
abbrev pub timer_mask : ℕ → ℕ
timer_mask timer = 6 + 2 * timer

-- `enum LnRemapTimer` as its number; a partial remap of timer 2 has another one.
unfoldable pub remap_timer_pin : Env → ℕ → ℕ → M Log (Unit {0})
remap_timer_pin env timer map =
    let pos = timer_mask timer in
    let field = if (timer == 2) && (map == 1) then 2 else map in
    if ltb 2 timer then (λ h. none) else (do
      v ← load env word 0x40010004
      store word 0x40010004 (bit_or (bit_and v (0xffff_ffff - 3 * 2 ^ pos)) (field * 2 ^ pos)))

-- The peripherals that `_rcuAction` knows; the others are `unused`.
pub data Peripheral : Type 0 where
  gpioa gpiob gpioc af usb unused : Peripheral

pub data RcuAction : Type 0 where
  reset enable disable : RcuAction

abbrev pub rcu_base : ℕ
rcu_base = 0x40021000

-- The bit, and whether it is one of APB1.
abbrev pub rcu_bit : Peripheral → Option (ℕ × Bool)
rcu_bit gpioa = some (2 ^ 2, false)
rcu_bit gpiob = some (2 ^ 3, false)
rcu_bit gpioc = some (2 ^ 4, false)
rcu_bit af = some (2 ^ 0, false)
rcu_bit usb = some (2 ^ 23, true)
rcu_bit unused = none

module _ (env : Env) where
  abbrev pub or_into : ℕ → ℕ → M Log (Unit {0})
  or_into r bits = do v ← load env word r; store word r (bit_or v bits)

  abbrev pub and_not_into : ℕ → ℕ → M Log (Unit {0})
  and_not_into r bits = do v ← load env word r; store word r (bit_and v (0xffff_ffff - bits))

  -- The `switch (action)`, on the registers of the bus of the peripheral.
  unfoldable pub rcu_switch : RcuAction → ℕ → Bool → M Log (Unit {0})
  rcu_switch reset bits apb1 =
      let rst_reg = rcu_base + (if apb1 then 0x10 else 0x0c) in
      do or_into rst_reg bits; and_not_into rst_reg bits
  rcu_switch enable bits apb1 = or_into (rcu_base + (if apb1 then 0x1c else 0x18)) bits
  rcu_switch disable bits apb1 = and_not_into (rcu_base + (if apb1 then 0x1c else 0x18)) bits

  unfoldable pub rcu_action : Option (ℕ × Bool) → RcuAction → M Log (Unit {0})
  unfolding rcu_switch
  rcu_action none action = pure tt
  rcu_action (some (bits, apb1)) action = rcu_switch action bits apb1

  unfoldable pub peripheral_action : Peripheral → RcuAction → M Log (Unit {0})
  unfolding rcu_action
  peripheral_action p action = rcu_action (rcu_bit p) action

-- `lnPeripherals::setAdcDivider`, for the number of the divider and the chip's vendor
unfoldable pub set_adc_divider : Env → Bool → ℕ → M Log (Unit {0})
set_adc_divider env gd r = do
  v ← load env word (rcu_base + 4)
  let val : ℕ = bit_and v (0xffff_ffff - (2 ^ 28 + 3 * 2 ^ 14))
  store word (rcu_base + 4) (
      if not (bit_and r 4 == 0)
      then (if gd
          then bit_or (bit_or val (2 ^ 28)) (bit_and r 3 * 2 ^ 14)
          else bit_or val (3 * 2 ^ 14))
      else bit_or val (bit_and r 3 * 2 ^ 14))

-- The static variables of lnCpuID_arm_gd32fx.cpp that are ever set.
pub record CpuId : Type 0 where
  pub cpu_id : ℕ
  pub flash_size : ℕ
  pub gd : Bool

module _ (env : Env) where
  unfoldable pub identify : CpuId → M Log CpuId
  identify s = if not (s.flash_size == 0) then pure s else (do
    id ← load env word 0xE000ED00
    density ← load env word 0x1FFFF7E0
    pure (record {
      cpu_id = id;
      flash_size = density % 2 ^ 16;
      gd = not (density / 2 ^ 16 == 0xffff);
    }))
