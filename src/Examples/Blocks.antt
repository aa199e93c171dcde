-- ===== src/Examples/Blocks.antt =====
-- Blocks of data downloaded on concrete inputs.
use swindle_bootloader_gd.Common.{
  ℕ, ◌+◌, ◌-◌, ◌*◌, ◌/◌, ◌≡◌, refl, true, false, ◌&&◌, List, [], ◌∷◌, arith, replicate, Returns,
}
use swindle_bootloader_gd.Device.{Config, dnload_idle, manifest, start_addr, Dfu}
use swindle_bootloader_gd.Dfu.{block_address, usbdfu_control_request}
use swindle_bootloader_gd.Bus.{Env}
use swindle_bootloader_gd.Dfu.Upload.{holds_block, Uploaded, upload-Uploaded}
use swindle_bootloader_gd.Dfu.Sized.{IsSized}
use swindle_bootloader_gd.Dfu.Transfer.{command}
use swindle_bootloader_gd.Dfu.Download.{Stored, block-command}
use swindle_bootloader_gd.Dfu.Host.{session}
use swindle_bootloader_gd.Dfu.Session.{Sent, session-flash}
use swindle_bootloader_gd.Examples.Controller.{
  zeros, controller, controller-Settles, controller-NorFlash,
}
use swindle_bootloader_gd.Examples.World.{plain, gd256, class_request}

-- The second block of data has arrived.
abbrev second_block : Dfu
second_block = record {
  control_buffer = 7 ∷ 8 ∷ 9 ∷ 10 ∷ 11 ∷ replicate 4091 0;
  prog = record { buf = replicate 4096 0; len = 0; addr = start_addr; blocknum = 2 };
  usbdfu_state = dnload_idle;
  erased = false;
  log = [];
}

second_block-IsSized : IsSized second_block
second_block-IsSized = record { control = refl; shadow = refl; fits = omega arith }

block-command_example :
    Returns
      (λ _ t. Stored 2048 zeros plain (block_address start_addr 3) (2 * (5 / 2)) second_block t)
      (command controller 3 plain gd256 (class_request 1 3 5) (class_request 3 0 6) 5 second_block)
unfolding block_address
block-command_example =
    block-command controller 3 plain gd256 zeros (class_request 1 3 5) (class_request 3 0 6) 5
      second_block controller-Settles controller-NorFlash (omega arith) second_block-IsSized refl
      refl (omega arith) (omega arith) (omega arith) (omega arith) (omega arith) (omega arith)

abbrev small_firmware : List ℕ
small_firmware = 0x00 ∷ 0x50 ∷ 0x00 ∷ 0x20 ∷ 0x01 ∷ 0x21 ∷ []

session-flash_example :
    Returns
      (λ _ t.
        Sent 2048 zeros plain 1 start_addr small_firmware second_block t
        × (t.usbdfu_state ≡ manifest))
      (session controller 3 plain gd256 1 start_addr small_firmware second_block)
session-flash_example =
    session-flash controller 3 plain gd256 zeros 1 start_addr small_firmware second_block
      controller-Settles controller-NorFlash (omega arith) second_block-IsSized (omega arith)
      (omega arith) (omega arith) (omega arith) (omega arith) (omega arith)

abbrev with_upload : Config
with_upload = record { safewrite = false; dfu_upload = true }

-- Each byte of the flash is the last byte of its address.
abbrev numbered : Env
numbered h w a = a

upload-Uploaded_example :
    Returns
      (λ r t.
        Uploaded
          (λ a. a)
          (start_addr + (3 - 2) * 4096)
          false
          (true && holds_block gd256 (start_addr + (3 - 2) * 4096))
          second_block
          r
          t)
      (usbdfu_control_request numbered with_upload gd256 (class_request 2 3 4096) 4096 second_block)
upload-Uploaded_example =
    upload-Uploaded numbered with_upload gd256 (λ a. a) (class_request 2 3 4096) 4096 second_block
      (λ h a. refl) second_block-IsSized (omega arith) refl (omega arith) (omega arith)
