-- ===== src/Board/Pins.antt =====
-- `lnPinMode` on the four digits of one pin of eight.
use swindle_bootloader_gd.Common.{
  ℕ, ◌-◌, ◌*◌, ◌/◌, ◌%◌, ◌^◌, ◌<◌, ◌≡◌, refl, ap, ◌∙◌, bit_and, bit_or, Bool, true, false, ◌&&◌,
  some, ◌∷◌, ltb, ◌==◌, if◌then◌else◌, arith, u32, Returns, returns, digit, digit-masked, all_below,
  below-holds, bit_or-small, bit_and-small,
}
use swindle_bootloader_gd.Bus.{word, read, write, Log, Env, modulus}
use swindle_bootloader_gd.Board.{
  GpioMode, floating, input_floating, input_pullup, input_pulldown, output, output_open_drain,
  alternate_pp, alternate_od, pwm, adc_mode, dac_mode, uart, spi_mode, uart_alt, pin_mode,
  mode_value, speed_value, port_ctl0, port_ctl1,
}

-- The register of a pin, and its place there.
abbrev pub pin_register : ℕ → ℕ
pin_register xpin = if ltb 7 (xpin % 16) then port_ctl1 xpin else port_ctl0 xpin

abbrev pub pin_slot : ℕ → ℕ
pin_slot xpin = xpin % 16 % 8

-- The mask and the field, for every slot, value and digit.
abbrev field_law : ℕ → ℕ → ℕ → Bool
field_law slot value n =
    let field = u32 (value * 2 ^ (slot * 4)) in
    if n / 4 == slot
    then digit n (0xffff_ffff - 15 * 2 ^ (slot * 4)) == 0 && digit n field == digit (n % 4) value
    else digit n (0xffff_ffff - 15 * 2 ^ (slot * 4)) == 1 && digit n field == 0

field_test :
    all_below 8 (λ slot. all_below 16 (λ value. all_below 32 (field_law slot value))) ≡ true
field_test = refl

field-law : (slot value n : ℕ) → slot < 8 → value < 16 → n < 32 → field_law slot value n ≡ true
field-law slot value n s v l = below-holds 32 n (field_law slot value) l (
    below-holds 16 value (λ w. all_below 32 (field_law slot w)) v
      (below-holds 8 slot (λ t. all_below 16 (λ w. all_below 32 (field_law t w))) s field_test))

module _ (ref slot value : ℕ) where
  abbrev pub new_field : ℕ
  new_field =
      bit_or (bit_and ref (0xffff_ffff - 15 * 2 ^ (slot * 4))) (u32 (value * 2 ^ (slot * 4)))

  field-digits :
      (n : ℕ)
      → slot < 8
      → value < 16
      → n < 32
      → digit n new_field ≡ (if n / 4 == slot then digit (n % 4) value else digit n ref)
  field-digits n s v l =
      let law = field-law slot value n s v l in
      let masked =
        digit-masked n ref (0xffff_ffff - 15 * 2 ^ (slot * 4)) (u32 (value * 2 ^ (slot * 4))) in
      ground arith

  new_field-stored : ref < 2 ^ 32 → new_field % modulus word ≡ new_field
  new_field-stored small =
      let mask = bit_and-small 32 ref (0xffff_ffff - 15 * 2 ^ (slot * 4)) small in
      let whole =
        bit_or-small 32 (bit_and ref (0xffff_ffff - 15 * 2 ^ (slot * 4)))
          (u32 (value * 2 ^ (slot * 4))) mask (omega arith) in
      omega arith

-- The modes whose field the function sets: it asserts for the two of the UART, and the one of the
-- SPI has no field.
abbrev pub has_field : GpioMode → Bool
has_field spi_mode = false
has_field uart = false
has_field uart_alt = false
has_field _ = true

speed_small : (unset mhz : ℕ) → speed_value unset mhz < 4
speed_small unset mhz = ground arith

slot_same : (xpin : ℕ) → (if ltb 7 (xpin % 16) then xpin % 16 % 8 else xpin % 16) ≡ pin_slot xpin
slot_same xpin = ground arith

-- What the `switch` finds, and the run behind it.
Field : ℕ → ℕ → ℕ → GpioMode → Log → Type 0
Field unset xpin speed mode h =
    (value : ℕ) × (h' : Log) × (mode_value unset xpin speed mode h ≡ some (value, h'))
    × (value < 16)

mode_value-Field :
    (unset xpin speed : ℕ) (mode : GpioMode) (h : Log)
    → speed < 4
    → has_field mode ≡ true
    → Field unset xpin speed mode h
unfolding Field mode_value
mode_value-Field unset xpin speed floating h s e = (_, _, refl, omega arith)
mode_value-Field unset xpin speed input_floating h s e = (_, _, refl, omega arith)
mode_value-Field unset xpin speed input_pullup h s e = (_, _, refl, omega arith)
mode_value-Field unset xpin speed input_pulldown h s e = (_, _, refl, omega arith)
mode_value-Field unset xpin speed output h s e = (_, _, refl, omega arith)
mode_value-Field unset xpin speed output_open_drain h s e = (_, _, refl, omega arith)
mode_value-Field unset xpin speed alternate_pp h s e = (_, _, refl, omega arith)
mode_value-Field unset xpin speed alternate_od h s e = (_, _, refl, omega arith)
mode_value-Field unset xpin speed pwm h s e = (_, _, refl, omega arith)
mode_value-Field unset xpin speed adc_mode h s e = (_, _, refl, omega arith)
mode_value-Field unset xpin speed dac_mode h s e = (_, _, refl, omega arith)
mode_value-Field unset xpin speed spi_mode h s e = cc
mode_value-Field unset xpin speed uart h s e = cc
mode_value-Field unset xpin speed uart_alt h s e = cc

-- `lnPinMode` returns for each mode that has a field. Its last accesses read the pin's register and
-- write it: the four digits of the pin become the mode's field, a number below 16, and the 28 digits
-- of the seven other pins of the register stay as they were read.
pub pin_mode-digits :
    (env : Env) (unset xpin mhz : ℕ) (mode : GpioMode) (h : Log)
    → has_field mode ≡ true
    → Returns
        (λ _ t.
          (value v : ℕ) × (h' : Log) × (mode_value unset xpin (speed_value unset mhz) mode h
            ≡ some (value, h'))
          × (value < 16)
          × (t ≡ write word (pin_register xpin) v ∷ read word (pin_register xpin) ∷ h')
          × ((n : ℕ)
              → n < 32
              → digit n v ≡ (
                  if n / 4 == pin_slot xpin
                  then digit (n % 4) value
                  else digit n (env h' word (pin_register xpin) % modulus word))))
        (pin_mode env unset xpin mode mhz h)
unfolding pin_mode Field
pin_mode-digits env unset xpin mhz mode h has =
    let speed = speed_value unset mhz in
    let (value, h', found, small) =
      mode_value-Field unset xpin speed mode h (speed_small unset mhz) has in
    let ref = env h' word (pin_register xpin) % modulus word in
    let slot = pin_slot xpin in
    rw (found, slot_same xpin)
      (returns (
        value,
        new_field ref slot value % modulus word,
        h',
        refl,
        small,
        refl,
        λ n below.
            ap (digit n) (new_field-stored ref slot value (omega arith))
            ∙ field-digits ref slot value n (omega arith) small below,
      ))
