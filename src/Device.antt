-- ===== src/Device.antt =====
-- The types of src_stage2/usb.h and dfu.cpp, the build's options, and the chip as lnCpuID
-- identified it (esprit_mini/lnCpuID_arm_gd32fx.cpp).
use swindle_bootloader_gd.Common.{
  ℕ, ◌+◌, ◌*◌, Bool, false, Option, none, some, List, ◌==◌, if◌then◌else◌, u32, replicate,
}
use swindle_bootloader_gd.Bus.{Log}

-- ENABLE_SAFEWRITE and ENABLE_DFU_UPLOAD
pub record Config : Type 0 where
  pub safewrite : Bool
  pub dfu_upload : Bool

-- What the stage 2 asks of lnCpuID: is the vendor GD, and the flash size in kB.
pub record Chip : Type 0 where
  pub gd : Bool
  pub flash_size : ℕ

pub data DfuReq : Type 0 where
  detach dnload upload getstatus clrstatus getstate abort : DfuReq

-- `enum dfu_req`, as the `switch` of the request handler reads a request code
unfoldable pub dfu_req : ℕ → Option DfuReq
dfu_req n =
    if n == 0
    then some detach
    else if n == 1
    then some dnload
    else if n == 2
    then some upload
    else if n == 3
    then some getstatus
    else if n == 4
    then some clrstatus
    else if n == 5
    then some getstate
    else if n == 6
    then some abort
    else none

-- the two members of `enum dfu_status` that the code returns
pub data DfuStatus : Type 0 where
  status_ok err_unknown : DfuStatus

pub data DfuState : Type 0 where
  app_idle app_detach dfu_idle dnload_sync dnbusy dnload_idle manifest_sync manifest
        manifest_wait_reset upload_idle error :
      DfuState

abbrev pub status_code : DfuStatus → ℕ
status_code status_ok = 0
status_code err_unknown = 14

abbrev pub state_code : DfuState → ℕ
state_code app_idle = 0
state_code app_detach = 1
state_code dfu_idle = 2
state_code dnload_sync = 3
state_code dnbusy = 4
state_code dnload_idle = 5
state_code manifest_sync = 6
state_code manifest = 7
state_code manifest_wait_reset = 8
state_code upload_idle = 9
state_code error = 10

pub record SetupData : Type 0 where
  pub request_type : ℕ
  pub request : ℕ
  pub value : ℕ
  pub index : ℕ
  pub length : ℕ

pub data ReturnCode : Type 0 where
  notsupp handled next_callback : ReturnCode

abbrev pub dfu_transfer_size : ℕ
dfu_transfer_size = 4096

abbrev pub flash_base_addr : ℕ
flash_base_addr = 0x8000000

abbrev pub bootldr_size_kb : ℕ
bootldr_size_kb = 8

-- `start_addr` and `end_addr`, as three functions of dfu.cpp and flash.h compute them
abbrev pub start_addr : ℕ
start_addr = flash_base_addr + bootldr_size_kb * 1024

abbrev pub end_addr : Chip → ℕ
end_addr chip = u32 (flash_base_addr + chip.flash_size * 1024)

-- The static `prog`: the payload kept for the completion callback.
pub record Prog : Type 0 where
  pub buf : List ℕ
  pub len : ℕ
  pub addr : ℕ
  pub blocknum : ℕ

-- The variables of dfu.cpp, the shared control buffer, the static `erased` of `check_do_erase`, and
-- the run so far.
pub record Dfu : Type 0 where
  pub control_buffer : List ℕ
  pub prog : Prog
  pub usbdfu_state : DfuState
  pub erased : Bool
  pub log : Log

-- The state before the first request: buffers and `prog` are zero, as in .bss.
unfoldable pub boot : Dfu
boot = record {
  control_buffer = replicate dfu_transfer_size 0;
  prog = record { buf = replicate dfu_transfer_size 0; len = 0; addr = 0; blocknum = 0 };
  usbdfu_state = dfu_idle;
  erased = false;
  log = List.[];
}
