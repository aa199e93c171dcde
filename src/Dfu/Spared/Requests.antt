-- ===== src/Dfu/Spared/Requests.antt =====
-- The requests to dfu.cpp write no register and no flash, and keep the payload within its buffer.
use swindle_bootloader_gd.Common.{
  ℕ, zero, suc, ◌+◌, true, false, Option, none, some, List, [], ◌∷◌, ◌==◌, arith, u32, blit, pure,
  ◌>>◌,
}
use swindle_bootloader_gd.Common.Partial.{
  holds, Any, Safe, Safe-pure, Safe-bind, Safe-if, Safe-change,
}
use swindle_bootloader_gd.Bus.{byte, Env}
use swindle_bootloader_gd.Flash.Spared.{Spared, load-Spared}
use swindle_bootloader_gd.Device.{
  Config, Chip, DfuReq, detach, dnload, upload, getstatus, clrstatus, getstate, abort, dfu_req,
  DfuState, dfu_idle, error, manifest, manifest_sync, dnload_sync, upload_idle, handled,
  next_callback, state_code, SetupData, dfu_transfer_size, Dfu,
}
use swindle_bootloader_gd.Dfu.{
  set_state, reply_bytes, block_address, in_app_area, read_flash, done, Reply, cmd_setaddr,
  cmd_erase, copy_payload, status_bytes, usbdfu_getstatus, dnload_request, upload_block,
  upload_request, getstatus_request, handle_request, switch_request, usbdfu_control_request,
}
use swindle_bootloader_gd.Dfu.Spared.{Spares, on_bus-Spares, set_state-Spares}

reply-Spares : (r : Reply) → Safe Spares Any (pure r)
reply-Spares r = Safe-pure r tt

done-Spares : (len : ℕ) → Safe Spares Any (done len)
done-Spares len = Safe-pure (record { code = handled; len = len; complete = false }) tt

reply_bytes-Spares : (bytes : List ℕ) → Safe Spares Any (reply_bytes bytes)
reply_bytes-Spares bytes =
    Safe-change (λ s. record s { control_buffer = blit bytes s.control_buffer }) λ s i. i

-- One more reply behind another step.
set_then-Spares : (st : DfuState) (len : ℕ) → Safe Spares Any (do set_state st; done len)
set_then-Spares st len = Safe-bind (set_state-Spares st) λ _ _. done-Spares len

copy_payload-Spares : (req : SetupData) (len : ℕ) → Safe Spares Any (copy_payload req len)
unfolding copy_payload
copy_payload-Spares req len = record { run = λ s (n, i). holds (tt, (ground arith, i)) }

dnload-Spares : (req : SetupData) (len : ℕ) → Safe Spares Any (dnload_request req len)
unfolding dnload_request
dnload-Spares req len =
    Safe-if (len == 0) (set_then-Spares manifest_sync len)
      (Safe-bind (copy_payload-Spares req len) λ _ _. set_then-Spares dnload_sync len)

clrstatus-Spares :
    (st : DfuState) (s : Dfu)
    → Spares s
    → Spares (elim st [ error ↦ record s { usbdfu_state = dfu_idle } | _ ↦ s ])
clrstatus-Spares error s i = i
clrstatus-Spares _ s i = i

module _ (env : Env) (cfg : Config) (chip : Chip) where
  read_flash-Spared : (n a : ℕ) → Safe Spared Any (read_flash env n a)
  unfolding read_flash
  read_flash-Spared zero a = record { run = λ h s. holds (tt, s) }
  read_flash-Spared (suc n) a = record {
    run = λ h s.
        Safe.run
          (Safe-bind (load-Spared env byte a)
            λ b _. Safe-bind (read_flash-Spared n (u32 (a + 1))) λ rest _. Safe-pure (b ∷ rest) tt)
          h s;
  }

  upload_block-Spares : (req : SetupData) → Safe Spares Any (upload_block env cfg chip req)
  unfolding upload_block
  upload_block-Spares req = record {
    run = λ s i.
        let a = block_address s.prog.addr req.value in
        Safe.run
          (Safe-if (in_app_area chip a dfu_transfer_size)
            (Safe-bind (on_bus-Spares (read_flash-Spared dfu_transfer_size a))
              λ bytes _. Safe-bind (reply_bytes-Spares bytes) λ _ _. done-Spares dfu_transfer_size)
            (set_then-Spares error 0))
          s i;
  }

  upload-Spares : (req : SetupData) → Safe Spares Any (upload_request env cfg chip req)
  unfolding upload_request
  upload-Spares req = Safe-bind (set_state-Spares upload_idle) λ _ _.
      Safe-if (req.value == 0)
        (Safe-bind (reply_bytes-Spares (0 ∷ cmd_setaddr ∷ cmd_erase ∷ [])) λ _ _. done-Spares 3)
        (Safe-if cfg.dfu_upload (upload_block-Spares req) (set_then-Spares error 0))

  getstatus-Spares : Safe Spares Any (getstatus_request env cfg chip)
  unfolding getstatus_request
  getstatus-Spares = record {
    run = λ s i.
        let (next, timeout, status) = usbdfu_getstatus s.usbdfu_state in
        Safe.run
          (Safe-bind (set_state-Spares next) λ _ _.
            Safe-bind (reply_bytes-Spares (status_bytes next timeout status))
              λ _ _. reply-Spares (record { code = handled; len = 6; complete = true }))
          s i;
  }

  handle_request-Spares :
      (r : DfuReq) (req : SetupData) (len : ℕ)
      → Safe Spares Any (handle_request env cfg chip r req len)
  unfolding handle_request
  handle_request-Spares dnload req len = record { run = (dnload-Spares req len).run }
  handle_request-Spares clrstatus req len = record {
    run = λ s i. holds (tt, clrstatus-Spares s.usbdfu_state s i);
  }
  handle_request-Spares abort req len = record { run = (set_then-Spares dfu_idle len).run }
  handle_request-Spares detach req len = record { run = (set_then-Spares manifest len).run }
  handle_request-Spares upload req len = record { run = (upload-Spares req).run }
  handle_request-Spares getstatus req len = record { run = getstatus-Spares.run }
  handle_request-Spares getstate req len = record {
    run = λ s i.
        Safe.run
          (Safe-bind (reply_bytes-Spares (state_code s.usbdfu_state ∷ [])) λ _ _. done-Spares 1) s
          i;
  }

  switch_request-Spares :
      (r : Option DfuReq) (req : SetupData) (len : ℕ)
      → Safe Spares Any (switch_request env cfg chip r req len)
  unfolding switch_request
  switch_request-Spares (some r) req len = handle_request-Spares r req len
  switch_request-Spares none req len =
      reply-Spares (record { code = next_callback; len = len; complete = false })

  pub control_request-Spares :
      (req : SetupData) (len : ℕ) → Safe Spares Any (usbdfu_control_request env cfg chip req len)
  unfolding usbdfu_control_request
  control_request-Spares req len = switch_request-Spares (dfu_req req.request) req len
