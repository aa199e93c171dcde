-- ===== src/Examples/Download.antt =====
-- Downloads on concrete inputs.
use swindle_bootloader_gd.Common.{
  ◌+◌, ◌^◌, ◌≤◌, ◌↔◌, ◌⊎◌, ◌≡◌, refl, true, false, [], ◌∷◌, arith, replicate, Returns, Keeps,
}
use swindle_bootloader_gd.Common.Words.{byte_at}
use swindle_bootloader_gd.Bus.{Log}
use swindle_bootloader_gd.Flash.{flash_program_buffer, flash_program_buffer_gd32}
use swindle_bootloader_gd.Flash.Program.{flash_bytes, image, program_buffer-image}
use swindle_bootloader_gd.Device.{dfu_req, dnbusy, dnload_idle, start_addr, end_addr, Dfu}
use swindle_bootloader_gd.Dfu.{read_u32, block_address, in_app_area, usbdfu_getstatus_complete}
use swindle_bootloader_gd.Dfu.Confined.{IsChip, Fits, Completed, getstatus_complete-Completed}
use swindle_bootloader_gd.Dfu.Sized.{IsSized}
use swindle_bootloader_gd.Dfu.Guard.{in_app_area_iff}
use swindle_bootloader_gd.Dfu.Transfer.{command, setaddr-command}
use swindle_bootloader_gd.Dfu.Quiet.{request, polled, Quiet, run, run-Quiet}
use swindle_bootloader_gd.Examples.World.{world, world-Settles, plain, gd256, class_request}

-- Four bytes wait to be written at the start of the application area.
abbrev four_bytes : Dfu
four_bytes = record {
  control_buffer = [];
  prog = record { buf = 1 ∷ 2 ∷ 3 ∷ 4 ∷ []; len = 4; addr = start_addr; blocknum = 2 };
  usbdfu_state = dnbusy;
  erased = false;
  log = [];
}

gd256-IsChip : IsChip gd256
gd256-IsChip = record { density = omega arith; whole = refl }

four_bytes-Fits : Fits four_bytes.prog
unfolding read_u32 byte_at block_address
four_bytes-Fits = record { page = omega arith; block = omega arith }

getstatus_complete-Completed_example :
    Returns
      (λ _ t. Completed gd256 four_bytes t × (t.usbdfu_state ≡ dnload_idle))
      (usbdfu_getstatus_complete world 3 plain gd256 four_bytes)
getstatus_complete-Completed_example =
    getstatus_complete-Completed world 3 plain gd256 four_bytes world-Settles gd256-IsChip
      four_bytes-Fits tt

program_buffer-image_example :
    let After = λ (t : Log). flash_bytes t ≡ image start_addr (5 ∷ 6 ∷ 7 ∷ []) 2 in
    Returns (λ _ t. After t) (flash_program_buffer world 3 start_addr (5 ∷ 6 ∷ 7 ∷ []) 3 [])
    × Returns (λ _ t. After t) (flash_program_buffer_gd32 world 3 start_addr (5 ∷ 6 ∷ 7 ∷ []) 3 [])
unfolding flash_bytes image
program_buffer-image_example =
    program_buffer-image world 3 start_addr (5 ∷ 6 ∷ 7 ∷ []) 3 [] world-Settles (omega arith)

run-Quiet_example : Keeps (Quiet []) (
    run world 3 plain gd256
      (request (class_request 3 0 6) 6 ∷ polled ∷ request (class_request 2 2 64) 64 ∷ []))
unfolding dfu_req
run-Quiet_example =
    run-Quiet world 3 plain gd256 []
      (request (class_request 3 0 6) 6 ∷ polled ∷ request (class_request 2 2 64) 64 ∷ [])
      ((λ e. cc), ((λ e. e), ((λ e. cc), tt)))

in_app_area_iff_example : (in_app_area gd256 0xffff_f000 0x1000 ≡ true) ↔ (
    (start_addr ≤ 0xffff_f000) × (0xffff_f000 + 0x1000 ≤ end_addr gd256)
    ⊎ (2 ^ 32 ≤ 0xffff_f000 + 0x1000))
in_app_area_iff_example =
    in_app_area_iff gd256 0xffff_f000 0x1000 (omega arith) (omega arith) (omega arith)

-- A SETADDR command for the start of the application area has arrived.
abbrev setaddr : Dfu
setaddr = record {
  control_buffer = 0x21 ∷ 0x00 ∷ 0x20 ∷ 0x00 ∷ 0x08 ∷ replicate 4091 0;
  prog = record { buf = replicate 4096 0; len = 0; addr = 0; blocknum = 0 };
  usbdfu_state = dnload_idle;
  erased = false;
  log = [];
}

setaddr-IsSized : IsSized setaddr
setaddr-IsSized = record { control = refl; shadow = refl; fits = omega arith }

setaddr-command_example :
    Returns
      (λ _ t. (t.prog.addr ≡ read_u32 setaddr.control_buffer 1) × (t.usbdfu_state ≡ dnload_idle))
      (command world 3 plain gd256 (class_request 1 0 5) (class_request 3 0 6) 5 setaddr)
unfolding byte_at
setaddr-command_example =
    setaddr-command world 3 plain gd256 (class_request 1 0 5) (class_request 3 0 6) 5 setaddr
      setaddr-IsSized refl refl refl (omega arith) (omega arith) refl
