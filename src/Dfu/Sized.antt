-- ===== src/Dfu/Sized.antt =====
-- The buffers of dfu.cpp keep their sizes through every request and every callback.
use swindle_bootloader_gd.Common.{
  ℕ, zero, suc, ◌+◌, ◌≤◌, ◌≡◌, true, false, Option, none, some, List, [], ◌∷◌, ◌==◌, u32, arith,
  length, take, length-blit, Returns, returns, Returns-bind, Keeps, Keeps-pure, Keeps-bind,
  Keeps-if,
}
use swindle_bootloader_gd.Bus.{Log, Env}
use swindle_bootloader_gd.Device.{
  Config, Chip, DfuReq, detach, dnload, upload, getstatus, clrstatus, getstate, abort, dfu_req,
  DfuState, dfu_idle, error, manifest, manifest_sync, dnload_sync, upload_idle, handled,
  next_callback, state_code, SetupData, dfu_transfer_size, Dfu,
}
use swindle_bootloader_gd.Dfu.{
  on_bus, set_state, reply_bytes, block_address, in_app_area, read_flash, done, cmd_setaddr,
  cmd_erase, clamp_len, copy_payload, status_bytes, usbdfu_getstatus, dnload_request, upload_block,
  upload_request, getstatus_request, handle_request, switch_request, usbdfu_control_request,
}

-- The sizes of the two arrays, and the payload's place in the second.
pub record IsSized (s : Dfu) : Type 0 where
  pub control : length s.control_buffer ≡ dfu_transfer_size
  pub shadow : length s.prog.buf ≡ dfu_transfer_size
  pub fits : s.prog.len ≤ dfu_transfer_size

done-IsSized : (len : ℕ) → Keeps IsSized (done len)
done-IsSized len = Keeps-pure (record { code = handled; len = len; complete = false })

pub set_state-IsSized : (st : DfuState) → Keeps IsSized (set_state st)
set_state-IsSized st = record {
  run = λ s z. returns (record { control = z.control; shadow = z.shadow; fits = z.fits });
}

pub reply_bytes-IsSized : (bytes : List ℕ) → Keeps IsSized (reply_bytes bytes)
reply_bytes-IsSized bytes = record {
  run = λ s z. returns (record {
    control = omega (arith, length-blit bytes s.control_buffer, z.control);
    shadow = z.shadow;
    fits = z.fits;
  });
}

-- A command of the bus that always returns keeps what is said of the other variables.
read_flash-Returns :
    (env : Env) (n a : ℕ) (h : Log) → Returns (λ _ _. Unit {0}) (read_flash env n a h)
unfolding read_flash
read_flash-Returns env zero a h = returns tt
read_flash-Returns env (suc n) a h =
    Returns-bind (read_flash-Returns env n (u32 (a + 1)) _) λ _ _ _. returns tt

read_flash-IsSized : (env : Env) (n a : ℕ) → Keeps IsSized (on_bus (read_flash env n a))
read_flash-IsSized env n a = record {
  run = λ s z. after s z (read_flash env n a s.log) (read_flash-Returns env n a s.log);
}
  where
    after :
        (s : Dfu)
        → IsSized s
        → (o : Option (List ℕ × Log)) → Returns (λ _ _. Unit {0}) o
        → Returns
            (λ _ t. IsSized t)
            (elim o [ none ↦ none | some (a, h) ↦ some (a, record s { log = h }) ])
    after s z none r = elim r [ ]
    after s z (some (b, h)) (returns c) =
        returns (record { control = z.control; shadow = z.shadow; fits = z.fits })

copy_payload-IsSized : (req : SetupData) (len : ℕ) → Keeps IsSized (copy_payload req len)
unfolding copy_payload
copy_payload-IsSized req len = record {
  run = λ s z. returns (record {
    control = z.control;
    shadow =
        omega (arith, length-blit (take (clamp_len len) s.control_buffer) s.prog.buf, z.shadow);
    fits = ground arith;
  });
}

dnload-IsSized : (req : SetupData) (len : ℕ) → Keeps IsSized (dnload_request req len)
unfolding dnload_request
dnload-IsSized req len =
    Keeps-if (len == 0) (Keeps-bind (set_state-IsSized manifest_sync) λ _. done-IsSized len) (
      Keeps-bind (copy_payload-IsSized req len)
        λ _. Keeps-bind (set_state-IsSized dnload_sync) λ _. done-IsSized len)

clrstatus-IsSized :
    (len : ℕ) (st : DfuState) (s : Dfu)
    → IsSized s
    → IsSized (elim st [ error ↦ record s { usbdfu_state = dfu_idle } | _ ↦ s ])
clrstatus-IsSized len error s z = record { control = z.control; shadow = z.shadow; fits = z.fits }
clrstatus-IsSized len _ s z = z

module _ (env : Env) (cfg : Config) (chip : Chip) where
  upload_block-IsSized : (req : SetupData) → Keeps IsSized (upload_block env cfg chip req)
  unfolding upload_block
  upload_block-IsSized req = record {
    run = λ s z.
        let a = block_address s.prog.addr req.value in
        Keeps.run
          (Keeps-if (in_app_area chip a dfu_transfer_size)
            (Keeps-bind (read_flash-IsSized env dfu_transfer_size a)
              λ bytes. Keeps-bind (reply_bytes-IsSized bytes) λ _. done-IsSized dfu_transfer_size)
            (Keeps-bind (set_state-IsSized error) λ _. done-IsSized 0))
          s z;
  }

  upload-IsSized : (req : SetupData) → Keeps IsSized (upload_request env cfg chip req)
  unfolding upload_request
  upload-IsSized req = Keeps-bind (set_state-IsSized upload_idle) λ _.
      Keeps-if (req.value == 0)
        (Keeps-bind (reply_bytes-IsSized (0 ∷ cmd_setaddr ∷ cmd_erase ∷ [])) λ _. done-IsSized 3)
        (Keeps-if cfg.dfu_upload (upload_block-IsSized req)
          (Keeps-bind (set_state-IsSized error) λ _. done-IsSized 0))

  getstatus-IsSized : Keeps IsSized (getstatus_request env cfg chip)
  unfolding getstatus_request
  getstatus-IsSized = record {
    run = λ s z.
        let (next, timeout, status) = usbdfu_getstatus s.usbdfu_state in
        Keeps.run
          (Keeps-bind (set_state-IsSized next) λ _.
            Keeps-bind (reply_bytes-IsSized (status_bytes next timeout status))
              λ _. Keeps-pure (record { code = handled; len = 6; complete = true }))
          s z;
  }

  handle_request-IsSized :
      (r : DfuReq) (req : SetupData) (len : ℕ)
      → Keeps IsSized (handle_request env cfg chip r req len)
  unfolding handle_request
  handle_request-IsSized dnload req len = record { run = (dnload-IsSized req len).run }
  handle_request-IsSized clrstatus req len = record {
    run = λ s z. returns (clrstatus-IsSized len s.usbdfu_state s z);
  }
  handle_request-IsSized abort req len =
      Keeps-bind (set_state-IsSized dfu_idle) λ _. done-IsSized len
  handle_request-IsSized detach req len =
      Keeps-bind (set_state-IsSized manifest) λ _. done-IsSized len
  handle_request-IsSized upload req len = record { run = (upload-IsSized req).run }
  handle_request-IsSized getstatus req len = record { run = getstatus-IsSized.run }
  handle_request-IsSized getstate req len = record {
    run = λ s z.
        Keeps.run
          (Keeps-bind (reply_bytes-IsSized (state_code s.usbdfu_state ∷ [])) λ _. done-IsSized 1) s
          z;
  }

  switch_request-IsSized :
      (r : Option DfuReq) (req : SetupData) (len : ℕ)
      → Keeps IsSized (switch_request env cfg chip r req len)
  unfolding switch_request
  switch_request-IsSized (some r) req len = handle_request-IsSized r req len
  switch_request-IsSized none req len =
      Keeps-pure (record { code = next_callback; len = len; complete = false })

-- Every request code, known or not, is answered, and leaves the two buffers at their size of 4096
-- bytes and the payload's length within it, whatever length the host announces.
pub control_request-IsSized :
    (env : Env) (cfg : Config) (chip : Chip) (req : SetupData) (len : ℕ)
    → Keeps IsSized (usbdfu_control_request env cfg chip req len)
unfolding usbdfu_control_request
control_request-IsSized env cfg chip req len =
    switch_request-IsSized env cfg chip (dfu_req req.request) req len
