-- ===== src/Stage2/Spared/Drivers.antt =====
-- The drivers that stage 2 calls, of lnGPIO.cpp and lnRCU.cpp, leave the boot loader's flash as it is.
use swindle_bootloader_gd.Common.{
  ℕ, ◌+◌, ◌-◌, ◌*◌, ◌%◌, ◌^◌, ◌<◌, bit_and, bit_or, Bool, true, false, Option, none, some, ltb,
  if◌then◌else◌, arith, u32, ◌>>=◌,
}
use swindle_bootloader_gd.Common.Partial.{Any, Safe, Safe-pure, Safe-done, Safe-bind}
use swindle_bootloader_gd.Bus.{word, Env, load, store}
use swindle_bootloader_gd.Flash.Spared.{Clear, Spared, before_ar-Clear, store-Spared, update-Spared}
use swindle_bootloader_gd.Board.{
  GpioMode, input_floating, output, Peripheral, RcuAction, reset, enable, disable, gpio_port,
  pin_mode, mode_value, speed_value, digital_write, peripheral_action, rcu_action, rcu_switch,
  rcu_bit, rcu_base, or_into, and_not_into,
}
use swindle_bootloader_gd.Stage2.{led_pin}

rcu_reg-Clear :
    (b : Bool) (x y : ℕ) → x < 0x100 → y < 0x100 → Clear (rcu_base + (if b then x else y))
rcu_reg-Clear true x y h l = before_ar-Clear (rcu_base + x) (omega arith) (omega arith)
rcu_reg-Clear false x y h l = before_ar-Clear (rcu_base + y) (omega arith) (omega arith)

port-Clear : (pin field : ℕ) → pin < 80 → field < 0x400 → Clear (gpio_port pin + field)
port-Clear pin field lt small = before_ar-Clear (gpio_port pin + field) (omega arith) (omega arith)

module _ (env : Env) where
  pub or_into-Spared : (r bits : ℕ) → Clear r → Safe Spared Any (or_into env r bits)
  or_into-Spared r bits c = update-Spared env word r (λ v. bit_or v bits) c

  pub and_not_into-Spared : (r bits : ℕ) → Clear r → Safe Spared Any (and_not_into env r bits)
  and_not_into-Spared r bits c = update-Spared env word r (λ v. bit_and v (0xffff_ffff - bits)) c

  rcu_switch-Spared :
      (action : RcuAction) (bits : ℕ) (apb1 : Bool)
      → Safe Spared Any (rcu_switch env action bits apb1)
  unfolding rcu_switch
  rcu_switch-Spared reset bits apb1 =
      let rst = rcu_base + (if apb1 then 0x10 else 0x0c) in
      let c = rcu_reg-Clear apb1 0x10 0x0c (omega arith) (omega arith) in
      Safe-bind (or_into-Spared rst bits c) λ _ _. and_not_into-Spared rst bits c
  rcu_switch-Spared enable bits apb1 =
      or_into-Spared (rcu_base + (if apb1 then 0x1c else 0x18)) bits
        (rcu_reg-Clear apb1 0x1c 0x18 (omega arith) (omega arith))
  rcu_switch-Spared disable bits apb1 =
      and_not_into-Spared (rcu_base + (if apb1 then 0x1c else 0x18)) bits
        (rcu_reg-Clear apb1 0x1c 0x18 (omega arith) (omega arith))

  rcu_action-Spared :
      (o : Option (ℕ × Bool)) (action : RcuAction) → Safe Spared Any (rcu_action env o action)
  unfolding rcu_action
  rcu_action-Spared none action = Safe-done
  rcu_action-Spared (some (bits, apb1)) action = rcu_switch-Spared action bits apb1

  pub peripheral-Spared :
      (p : Peripheral) (action : RcuAction) → Safe Spared Any (peripheral_action env p action)
  unfolding peripheral_action
  peripheral-Spared p action = rcu_action-Spared (rcu_bit p) action

  -- A pin whose mode sets no other register.
  pin_mode-Spared :
      (unset xpin : ℕ) (mode : GpioMode)
      → xpin < 80
      → Safe Spared Any (mode_value unset xpin (speed_value unset 0) mode)
      → Safe Spared Any (pin_mode env unset xpin mode 0)
  unfolding pin_mode
  pin_mode-Spared unset xpin mode lt k =
      let pin = xpin % 16 in
      let slot = if ltb 7 pin then pin % 8 else pin in
      Safe-bind k λ value _. register (ltb 7 pin) (λ ref.
        bit_or (bit_and ref (0xffff_ffff - 15 * 2 ^ (slot * 4))) (u32 (value * 2 ^ (slot * 4))))
    where
      register :
          (upper : Bool) (f : ℕ → ℕ)
          → Safe Spared Any (do
            ref ← load env word (if upper then gpio_port xpin + 4 else gpio_port xpin)
            store word (if upper then gpio_port xpin + 4 else gpio_port xpin) (f ref))
      register true f =
          update-Spared env word (gpio_port xpin + 4) f (port-Clear xpin 4 lt (omega arith))
      register false f =
          update-Spared env word (gpio_port xpin) f
            (before_ar-Clear (gpio_port xpin) (omega arith) (omega arith))

  pub output-Spared :
      (unset xpin : ℕ) → xpin < 80 → Safe Spared Any (pin_mode env unset xpin output 0)
  unfolding mode_value
  output-Spared unset xpin lt = pin_mode-Spared unset xpin output lt (Safe-pure _ tt)

  pub floating-Spared :
      (unset xpin : ℕ) → xpin < 80 → Safe Spared Any (pin_mode env unset xpin input_floating 0)
  unfolding mode_value
  floating-Spared unset xpin lt = pin_mode-Spared unset xpin input_floating lt (Safe-pure _ tt)

  pub pin-Spared :
      (xpin : ℕ) (value : Bool) → xpin < 80 → Safe Spared Any (digital_write env xpin value)
  unfolding digital_write
  pin-Spared xpin value lt =
      store-Spared word (gpio_port xpin + 16) _ (port-Clear xpin 16 lt (omega arith))

  pub led_pin-lt : (crystalless : Bool) → led_pin crystalless < 80
  led_pin-lt true = omega arith
  led_pin-lt false = omega arith
