-- ===== src/Dfu.antt =====
-- The DFU application of src_stage2/dfu.cpp, with `check_do_erase` of flash.h.
pub mod Confined
pub mod Sized
pub mod Guard
pub mod Transfer
pub mod Quiet
pub mod Answer
pub mod Callback
pub mod Write
pub mod Download
pub mod Host
pub mod Session
pub mod Upload
pub mod Machine
pub mod Runs
pub mod Spared
use swindle_bootloader_gd.Common.{
  ℕ, zero, suc, ◌+◌, ◌-◌, ◌*◌, ◌/◌, ◌%◌, ◌^◌, Bool, true, false, ◌&&◌, Option, none, some, List, [],
  ◌∷◌, leb, ltb, ◌==◌, if◌then◌else◌, u32, byte_at, take, blit, M, and_then, pure, ◌>>=◌, ◌>>◌,
}
use swindle_bootloader_gd.Bus.{byte, Log, Env, load}
use swindle_bootloader_gd.Flash.{
  flash_lock, flash_unlock, flash_page_is_erased, flash_erase_page, flash_program_buffer,
  flash_program_buffer_gd32, erase_pages, get_flash_page_size,
}
use swindle_bootloader_gd.Device.{
  Config, Chip, DfuReq, detach, dnload, upload, getstatus, clrstatus, getstate, abort, dfu_req,
  DfuStatus, status_ok, err_unknown, DfuState, dfu_idle, dnload_sync, dnbusy, dnload_idle,
  manifest_sync, manifest, upload_idle, error, status_code, state_code, SetupData, ReturnCode,
  handled, next_callback, dfu_transfer_size, start_addr, end_addr, Dfu,
}

-- The four bytes do not overlap, so their `|` is a sum.
unfoldable pub read_u32 : List ℕ → ℕ → ℕ
read_u32 p i =
    byte_at p i
    + byte_at p (i + 1) * 2 ^ 8
    + byte_at p (i + 2) * 2 ^ 16
    + byte_at p (i + 3) * 2 ^ 24

abbrev pub cmd_setaddr : ℕ
cmd_setaddr = 0x21

abbrev pub cmd_erase : ℕ
cmd_erase = 0x41

-- A new state, the poll timeout that is stored, and the status.
unfoldable pub usbdfu_getstatus : DfuState → DfuState × ℕ × DfuStatus
usbdfu_getstatus dnload_sync = (dnbusy, 100, status_ok)
usbdfu_getstatus manifest_sync = (manifest, 0, status_ok)
usbdfu_getstatus error = (error, 0, err_unknown)
usbdfu_getstatus s = (s, 0, status_ok)

-- The answer to DFU_GETSTATUS
abbrev pub status_bytes : DfuState → ℕ → DfuStatus → List ℕ
status_bytes next timeout status =
    status_code status
    ∷ timeout % 256
    ∷ timeout / 2 ^ 8 % 256
    ∷ timeout / 2 ^ 16 % 256
    ∷ state_code next
    ∷ 0
    ∷ []

-- An access to the flash or its controller, as a step of the application.
abbrev pub on_bus : {A : Type 0} → M Log A → M Dfu A
on_bus m s = elim (m s.log) [ none ↦ none | some (a, h) ↦ some (a, record s { log = h }) ]

abbrev pub set_state : DfuState → M Dfu (Unit {0})
set_state st s = some (tt, record s { usbdfu_state = st })

-- `memcpy(usbd_control_buffer, …)` and assignments to its first elements
abbrev pub reply_bytes : List ℕ → M Dfu (Unit {0})
reply_bytes bytes s = some (tt, record s { control_buffer = blit bytes s.control_buffer })

-- The address that a block is written to or read from, `addr + (blocknum - 2) * 4096`. The product
-- is an `int`, negative for block 1 (and 0); the sum is a `uint32_t`.
unfoldable pub block_address : ℕ → ℕ → ℕ
block_address addr blocknum =
    u32 (addr + blocknum * dfu_transfer_size + (2 ^ 32 - 2 * dfu_transfer_size))

-- The guard of the three flash accesses, with its `uint32_t` sum.
unfoldable pub in_app_area : Chip → ℕ → ℕ → Bool
in_app_area chip baseaddr len =
    leb start_addr baseaddr && leb (u32 (baseaddr + len)) (end_addr chip)

abbrev pub page_size : Chip → ℕ
page_size chip = if chip.gd then 2048 else 1024

module _ (env : Env) (fuel : ℕ) (cfg : Config) (chip : Chip) where
  -- The loop runs at most once for each byte of the area.
  unfoldable pub check_do_erase : M Dfu (Unit {0})
  check_do_erase s =
      (if s.erased then pure tt else (do
        on_bus (
            erase_pages env fuel (page_size chip) (suc (end_addr chip - start_addr)) start_addr
              (end_addr chip))
        λ t. some (tt, record t { erased = true })))
        s

  -- `case CMD_ERASE`
  unfoldable pub erase_command : M Dfu (Unit {0})
  unfolding check_do_erase in_app_area read_u32
  erase_command = do
    if cfg.safewrite then check_do_erase else pure tt
    λ s.
        let baseaddr = read_u32 s.prog.buf 1 in
        (if in_app_area chip baseaddr dfu_transfer_size
            then on_bus (do
              blank ← flash_page_is_erased env (page_size chip) baseaddr
              if blank then pure tt else flash_erase_page env fuel baseaddr)
            else pure tt)
          s

  -- `case CMD_SETADDR`
  unfoldable pub setaddr_command : M Dfu (Unit {0})
  unfolding read_u32
  setaddr_command s = some (tt, record s { prog = record s.prog { addr = read_u32 s.prog.buf 1 } })

  -- The branch for a block number that is not 0.
  unfoldable pub program_block : M Dfu (Unit {0})
  unfolding check_do_erase in_app_area block_address
  program_block = do
    if cfg.safewrite then check_do_erase else pure tt
    λ s.
        let p = s.prog in
        let baseaddr = block_address p.addr p.blocknum in
        (if in_app_area chip baseaddr p.len
            then on_bus (do
              erase_pages env fuel (page_size chip) (suc p.len) baseaddr (u32 (baseaddr + p.len))
              if chip.gd
                  then flash_program_buffer_gd32 env fuel baseaddr p.buf p.len
                  else flash_program_buffer env fuel baseaddr p.buf p.len)
            else pure tt)
          s

  -- The `if (prog.blocknum == 0)` of the callback.
  unfoldable pub run_download : M Dfu (Unit {0})
  unfolding erase_command setaddr_command program_block
  run_download s =
      (if s.prog.blocknum == 0
          then (if byte_at s.prog.buf 0 == cmd_erase
              then erase_command
              else if byte_at s.prog.buf 0 == cmd_setaddr
              then setaddr_command
              else pure tt)
          else program_block)
        s

  -- The `switch (usbdfu_state)` of the callback.
  unfoldable pub complete_in : DfuState → M Dfu (Unit {0})
  unfolding run_download
  complete_in dnbusy = do
    on_bus (flash_unlock false)
    run_download
    on_bus (flash_lock env)
    set_state dnload_idle
  complete_in _ = pure tt

  unfoldable pub usbdfu_getstatus_complete : M Dfu (Unit {0})
  unfolding complete_in
  usbdfu_getstatus_complete s = complete_in s.usbdfu_state s

-- `memcpy` out of the flash, byte by byte
unfoldable pub read_flash : Env → ℕ → ℕ → M Log (List ℕ)
read_flash env zero a h = pure [] h
read_flash env (suc n) a h =
    (do b ← load env byte a; rest ← read_flash env n (u32 (a + 1)); pure (b ∷ rest)) h

-- What the request handler gives back: its result, `*len`, and whether `*complete` was set (to
-- `usbdfu_getstatus_complete`, the only callback there is).
pub record Reply : Type 0 where
  pub code : ReturnCode
  pub len : ℕ
  pub complete : Bool

abbrev pub done : ℕ → M Dfu Reply
done len = pure (record { code = handled; len = len; complete = false })

-- `prog.len = *len`, clamped to the buffer
abbrev pub clamp_len : ℕ → ℕ
clamp_len len = if ltb dfu_transfer_size len then dfu_transfer_size else len

-- The payload is kept for the callback.
unfoldable pub copy_payload : SetupData → ℕ → M Dfu (Unit {0})
copy_payload req len s =
    let p = record s.prog {
      blocknum = req.value;
      len = clamp_len len;
      buf = blit (take (clamp_len len) s.control_buffer) s.prog.buf;
    } in
    some (tt, record s { prog = p })

-- `case DFU_DNLOAD`. No caller passes a null `len`.
unfoldable pub dnload_request : SetupData → ℕ → M Dfu Reply
unfolding copy_payload
dnload_request req len =
    if len == 0
    then (do set_state manifest_sync; done len)
    else (do copy_payload req len; set_state dnload_sync; done len)

module _ (env : Env) (cfg : Config) (chip : Chip) where
  -- The block of `case DFU_UPLOAD` under ENABLE_DFU_UPLOAD
  unfoldable pub upload_block : SetupData → M Dfu Reply
  unfolding in_app_area block_address read_flash
  upload_block req s =
      let baseaddr = block_address s.prog.addr req.value in
      (if in_app_area chip baseaddr dfu_transfer_size
          then (do
            bytes ← on_bus (read_flash env dfu_transfer_size baseaddr)
            reply_bytes bytes
            done dfu_transfer_size)
          else (do set_state error; done 0))
        s

  unfoldable pub upload_request : SetupData → M Dfu Reply
  unfolding upload_block
  upload_request req = do
    set_state upload_idle
    if req.value == 0
        then (do reply_bytes (0 ∷ cmd_setaddr ∷ cmd_erase ∷ []); done 3)
        else if cfg.dfu_upload
        then upload_block req
        else (do set_state error; done 0)

  -- `case DFU_GETSTATUS`: the next state, and the answer of six bytes
  unfoldable pub getstatus_request : M Dfu Reply
  unfolding usbdfu_getstatus
  getstatus_request s =
      let (next, timeout, status) = usbdfu_getstatus s.usbdfu_state in
      (do
        set_state next
        reply_bytes (status_bytes next timeout status)
        pure (record { code = handled; len = 6; complete = true }))
        s

  -- The `switch` over the known requests.
  unfoldable pub handle_request : DfuReq → SetupData → ℕ → M Dfu Reply
  unfolding dnload_request upload_request getstatus_request
  handle_request dnload req len s = dnload_request req len s
  handle_request clrstatus req len s =
      done len (elim s.usbdfu_state [ error ↦ record s { usbdfu_state = dfu_idle } | _ ↦ s ])
  handle_request abort req len s = done len (record s { usbdfu_state = dfu_idle })
  handle_request detach req len s = done len (record s { usbdfu_state = manifest })
  handle_request upload req len s = upload_request req s
  handle_request getstatus req len s = getstatus_request s
  handle_request getstate req len s = (do reply_bytes (state_code s.usbdfu_state ∷ []); done 1) s

  -- The rest of the `switch`: an unknown request is left to the next handler.
  unfoldable pub switch_request : Option DfuReq → SetupData → ℕ → M Dfu Reply
  unfolding handle_request
  switch_request (some r) req len = handle_request r req len
  switch_request none req len = pure (record { code = next_callback; len = len; complete = false })

  unfoldable pub usbdfu_control_request : SetupData → ℕ → M Dfu Reply
  unfolding switch_request dfu_req
  usbdfu_control_request req len = switch_request (dfu_req req.request) req len
