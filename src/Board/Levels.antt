-- ===== src/Board/Levels.antt =====
-- The levels that the output register's set and reset words leave on the pins.
use swindle_bootloader_gd.Common.{
  ℕ, ◌+◌, ◌*◌, ◌%◌, ◌^◌, ◌≡◌, refl, ap, Bool, true, false, [], ◌∷◌, ◌==◌, if◌then◌else◌, arith, u32,
  and_then, ◌>>◌, Returns, returns, digit, single-law, all_below, below-holds, ==→eq, some,
}
use swindle_bootloader_gd.Bus.{byte, half, word, read, write, Log, Env, store}
use swindle_bootloader_gd.Board.{
  port_bop, mode_value, pin_mode, digital_write, FastIo, fast_io, on, off, pulse_low, pulse_high,
}

-- The unit's rule for the register: a one in the low half sets the pin of its place, one in the high
-- half resets it, and setting wins.
unfoldable pub level : (ℕ → Bool) → Log → ℕ → Bool
level before [] pin = before pin
level before (read w a ∷ h) pin = level before h pin
level before (write byte a v ∷ h) pin = level before h pin
level before (write half a v ∷ h) pin = level before h pin
level before (write word a v ∷ h) pin =
    let rest = level before h pin in
    if a == port_bop pin
    then if digit (pin % 16) v == 1
      then true
      else if digit (16 + pin % 16) v == 1
      then false
      else rest
    else rest

-- One word to the register of a pin's port.
set_level :
    (before : ℕ → Bool) (xpin pin : ℕ) (h : Log)
    → level before (write word (port_bop xpin) (2 ^ (xpin % 16) % 2 ^ 32) ∷ h) pin
      ≡ (if pin == xpin then true else level before h pin)
unfolding level
set_level before xpin pin h =
    let low = single-law (xpin % 16) (pin % 16) (omega arith) (omega arith) in
    let high = single-law (xpin % 16) (16 + pin % 16) (omega arith) (omega arith) in ground arith

reset_level :
    (before : ℕ → Bool) (xpin pin : ℕ) (h : Log)
    → level before (write word (port_bop xpin) (2 ^ (16 + xpin % 16) % 2 ^ 32) ∷ h) pin
      ≡ (if pin == xpin then false else level before h pin)
unfolding level
reset_level before xpin pin h =
    let low = single-law (16 + xpin % 16) (pin % 16) (omega arith) (omega arith) in
    let high = single-law (16 + xpin % 16) (16 + pin % 16) (omega arith) (omega arith) in
    ground arith

shift_law : all_below 16 (λ k. u32 (2 ^ k * 2 ^ 16) % 2 ^ 32 == 2 ^ (16 + k) % 2 ^ 32) ≡ true
shift_law = refl

module _ (env : Env) where
  write_level :
      (before : ℕ → Bool) (xpin pin : ℕ) (value : Bool) (h : Log)
      → Returns
          (λ _ t. level before t pin ≡ (if pin == xpin then value else level before h pin))
          (digital_write env xpin value h)
  unfolding digital_write
  write_level before xpin pin true h =
      let at : 0 + xpin % 16 ≡ xpin % 16 = omega arith in
      rw at (returns (set_level before xpin pin h))
  write_level before xpin pin false h = returns (reset_level before xpin pin h)

  -- What the constructor of a fast pin stores.
  abbrev pub fast : ℕ → FastIo
  fast xpin = record {
    onoff = port_bop xpin;
    on_bit = 2 ^ (xpin % 16);
    off_bit = u32 (2 ^ (xpin % 16) * 2 ^ 16);
  }

  on-digital_write : (xpin : ℕ) (s : Log) → on (fast xpin) s ≡ digital_write env xpin true s
  unfolding on digital_write
  on-digital_write xpin s =
      let at : xpin % 16 ≡ 0 + xpin % 16 = omega arith in
      ap (λ k. store word (port_bop xpin) (2 ^ k) s) at

  off-digital_write : (xpin : ℕ) (s : Log) → off (fast xpin) s ≡ digital_write env xpin false s
  unfolding off digital_write
  off-digital_write xpin s =
      let at =
        below-holds 16 (xpin % 16) (λ k. u32 (2 ^ k * 2 ^ 16) % 2 ^ 32 == 2 ^ (16 + k) % 2 ^ 32)
          (omega arith) shift_law in
      ap (λ v. some (tt, write word (port_bop xpin) v ∷ s)) (==→eq _ _ at)

  pulse_low-digital_write :
      (xpin : ℕ) (s : Log)
      → pulse_low (fast xpin) s ≡ (do digital_write env xpin false; digital_write env xpin true) s
  unfolding pulse_low on off
  pulse_low-digital_write xpin s =
      λ i. and_then (off-digital_write xpin s i) λ _ t. on-digital_write xpin t i

  pulse_high-digital_write :
      (xpin : ℕ) (s : Log)
      → pulse_high (fast xpin) s ≡ (do digital_write env xpin true; digital_write env xpin false) s
  unfolding pulse_high on off
  pulse_high-digital_write xpin s =
      λ i. and_then (on-digital_write xpin s i) λ _ t. off-digital_write xpin t i

-- Writing a pin gives it the level that is asked for and leaves every other pin as it was, by the
-- unit's rule for the register. The fast pin that the constructor makes does the same with one store
-- each: `on` and `off` write as `lnDigitalWrite` does, and a pulse is one write behind the other.
pub fast_io-digital_write :
    (env : Env) (unset xpin pin : ℕ) (before : ℕ → Bool) (value : Bool) (h : Log)
    → Returns
        (λ _ t. level before t pin ≡ (if pin == xpin then value else level before h pin))
        (digital_write env xpin value h)
      × Returns
          (λ io _.
            (s : Log)
            → (on io s ≡ digital_write env xpin true s)
              × (off io s ≡ digital_write env xpin false s)
              × (pulse_low io s ≡ (do digital_write env xpin false; digital_write env xpin true) s)
              × (pulse_high io s
                  ≡ (do digital_write env xpin true; digital_write env xpin false) s))
          (fast_io env unset xpin h)
unfolding fast_io pin_mode mode_value
fast_io-digital_write env unset xpin pin before value h = (
  write_level env before xpin pin value h,
  returns λ s. (
    on-digital_write env xpin s,
    off-digital_write env xpin s,
    pulse_low-digital_write env xpin s,
    pulse_high-digital_write env xpin s,
  ),
)
