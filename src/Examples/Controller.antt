-- ===== src/Examples/Controller.antt =====
-- A flash controller at work for the examples: the flash held zeros, and the controller is busy for
-- one poll after each write.
use native.Mathlib.Nat.{mod-eq_of_lt}
use swindle_bootloader_gd.Common.{
  ℕ, ◌+◌, ◌-◌, ◌%◌, ◌≡◌, refl, ◌∙◌, false, bit_and, digit, digit-and, ◌==◌, if◌then◌else◌, arith,
}
use swindle_bootloader_gd.Bus.{word, Env, modulus}
use swindle_bootloader_gd.Clock.Waits.{latest}
use swindle_bootloader_gd.Flash.{flash_sr, flash_cr}
use swindle_bootloader_gd.Flash.Settles.{Settles}
use swindle_bootloader_gd.Flash.Cells.{cells, or_zero, word_of, NorFlash, cells-lt}
use swindle_bootloader_gd.Examples.World.{busy_after}

abbrev pub zeros : ℕ → ℕ
zeros a = 0

abbrev pub controller : Env
controller h w a =
    if a == flash_sr
    then busy_after h
    else if a == flash_cr
    then bit_and (or_zero (latest flash_cr h)) (0xffff_ffff - 0x40)
    else word_of (cells 2048 zeros h) a

pub controller-Settles : Settles controller 3
controller-Settles h = (1, omega arith, refl)

low_digits :
    (x : ℕ) → (digit 1 (x % modulus word) ≡ digit 1 x) × (digit 6 (x % modulus word) ≡ digit 6 x)
low_digits x = (omega arith, omega arith)

pub controller-NorFlash : NorFlash controller 2048 zeros
controller-NorFlash = record {
  bytes = λ x. omega arith;
  reading = λ h a below.
      let status : (a == flash_sr) ≡ false = ground arith in
      let control : (a == flash_cr) ≡ false = ground arith in
      let small = cells-lt 2048 zeros (λ x. omega arith) h in
      let b0 = small a in
      let b1 = small (a + 1) in
      let b2 = small (a + 2) in
      let b3 = small (a + 3) in rw (status, control) (mod-eq_of_lt (omega arith));
  per = λ h v e. rw e (
      (low_digits (bit_and v (0xffff_ffff - 0x40))).0
      ∙ omega (arith, digit-and 1 v (0xffff_ffff - 0x40)));
  strt = λ h.
      let v = or_zero (latest flash_cr h) in
      (low_digits (bit_and v (0xffff_ffff - 0x40))).1
      ∙ omega (arith, digit-and 6 v (0xffff_ffff - 0x40));
}
