-- ===== src/Examples/Reset.antt =====
-- Stage 1 on a concrete image of two words, with the pin released.
use swindle_bootloader_gd.Common.{
  ℕ, ◌+◌, ◌%◌, ◌^◌, ◌<◌, ◌≡◌, ◌↔◌, refl, inr, List, [], ◌∷◌, ◌==◌, if◌then◌else◌, arith, Returns,
}
use swindle_bootloader_gd.Bus.{Env}
use swindle_bootloader_gd.Device.{start_addr}
use swindle_bootloader_gd.Board.{port_istat}
use swindle_bootloader_gd.Stage1.{crc_data, force_dfu_io, ch32_crc, main}
use swindle_bootloader_gd.Stage1.Memory.{
  peripherals, Memory, CrcUnit, fed, words, Tells, ch32_crc-words,
}
use swindle_bootloader_gd.Stage1.Boots.{
  Level, IsBootable, is_marked, is_high, app_address, IsCleared,
}
use swindle_bootloader_gd.Stage1.Decision.{main-boots}

abbrev image : ℕ → ℕ
image a =
    if a == start_addr
    then 0x20005000
    else if a == start_addr + 8
    then 8
    else if a == start_addr + 12
    then 7
    else if a == start_addr + 16
    then 7
    else 0

-- A checksum for the example: the first word.
abbrev first_word : List ℕ → ℕ
first_word [] = 0xffff_ffff
first_word (x ∷ xs) = x

abbrev pins : ℕ
pins = 0xffff

abbrev board : Env
board h w a =
    if a == crc_data
    then first_word (fed h)
    else if a == port_istat force_dfu_io
    then pins
    else image a

board-Memory : Memory board image
board-Memory h a o lt = below a lt (first_word (fed h)) pins (image a)
  where
    below :
        (a : ℕ)
        → a < peripherals
        → (x y z : ℕ)
        → (if a == crc_data then x else if a == port_istat force_dfu_io then y else z) ≡ z
    below a lt x y z = ground arith

board-CrcUnit : CrcUnit board first_word
board-CrcUnit h = refl

board-Level : Level board pins
board-Level h = refl

image-IsBootable : IsBootable image first_word (is_marked image) (is_high pins)
unfolding words
image-IsBootable = record {
  unasked = refl;
  released = refl;
  stack = refl;
  sound = record { small = omega arith; sum = inr refl };
}

main-boots_example :
    Returns
      (λ j h.
        ((j.base ≡ app_address) ↔ IsBootable image first_word (is_marked image) (is_high pins))
        × (j.base ≡ app_address → IsCleared h))
      (main board 5 (1 ∷ 2 ∷ []) [])
main-boots_example =
    main-boots board image first_word pins 5 (1 ∷ 2 ∷ []) board-Memory board-CrcUnit board-Level

ch32_crc-words_example :
    Tells
      (λ v. v ≡ first_word (words image (start_addr + 16) 2) % 2 ^ 32)
      (ch32_crc board (start_addr + 16) 2)
ch32_crc-words_example =
    ch32_crc-words board image board-Memory first_word (start_addr + 16) 2 board-CrcUnit
      (omega arith)
