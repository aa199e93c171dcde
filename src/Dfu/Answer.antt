-- ===== src/Dfu/Answer.antt =====
-- The length that the request handler of dfu.cpp announces.
use swindle_bootloader_gd.Common.{
  ℕ, zero, suc, ◌+◌, ◌≤◌, false, Option, none, some, List, [], ◌∷◌, ◌==◌, u32, arith, ◌>>=◌, ◌>>◌,
  M, Returns, returns, Gives, Gives-pure, Gives-bind, Gives-if,
}
use swindle_bootloader_gd.Bus.{byte, Log, Env, load-Gives}
use swindle_bootloader_gd.Device.{
  error, upload_idle, DfuState, Config, Chip, DfuReq, detach, dnload, upload, getstatus, clrstatus,
  getstate, abort, dfu_req, SetupData, handled, dfu_transfer_size, Dfu,
}
use swindle_bootloader_gd.Dfu.{
  cmd_setaddr, cmd_erase, on_bus, set_state, reply_bytes, block_address, in_app_area, read_flash,
  Reply, done, dnload_request, upload_block, upload_request, getstatus_request, handle_request,
  switch_request, usbdfu_control_request,
}

abbrev Fitting : M Dfu Reply → Type 0
Fitting m = Gives (λ (r : Reply). r.len ≤ dfu_transfer_size) m

read_flash-Gives : (env : Env) (n a : ℕ) → Gives (λ _. Unit {0}) (read_flash env n a)
unfolding read_flash
read_flash-Gives env zero a = Gives-pure [] tt
read_flash-Gives env (suc n) a =
    Gives-bind (load-Gives env byte a)
      λ b _. Gives-bind (read_flash-Gives env n (u32 (a + 1))) λ rest _. Gives-pure (b ∷ rest) tt

on_bus-Gives : {A : Type 0} {P : A → Type 0} {m : M Log A} → Gives P m → Gives P (on_bus m)
on_bus-Gives {A} {P} {m} k = record { run = λ s. after s (m s.log) (k.run s.log) }
  where
    after :
        (s : Dfu) (o : Option (A × Log))
        → Returns (λ a _. P a) o
        → Returns
            (λ a _. P a)
            (elim o [ none ↦ none | some (a, h) ↦ some (a, record s { log = h }) ])
    after s none r = elim r [ ]
    after s (some (a, h)) (returns p) = returns p

done-len : (n : ℕ) → n ≤ dfu_transfer_size → Fitting (done n)
done-len n le = Gives-pure (record { code = handled; len = n; complete = false }) le

set_state-Gives : (st : DfuState) → Gives (λ _. Unit {0}) (set_state st)
set_state-Gives st = record { run = λ s. returns {a = tt} tt }

reply_bytes-Gives : (bytes : List ℕ) → Gives (λ _. Unit {0}) (reply_bytes bytes)
reply_bytes-Gives bytes = record { run = λ s. returns {a = tt} tt }

module _ (env : Env) (cfg : Config) (chip : Chip) where
  read-len :
      (n a : ℕ)
      → n ≤ dfu_transfer_size
      → Fitting (do bytes ← on_bus (read_flash env n a); reply_bytes bytes; done n)
  read-len n a le =
      Gives-bind (on_bus-Gives (read_flash-Gives env n a))
        λ bytes _. Gives-bind (reply_bytes-Gives bytes) λ _ _. done-len n le

  error-len : Fitting (do set_state error; done 0)
  error-len = Gives-bind (set_state-Gives error) λ _ _. done-len 0 (omega arith)

  upload_block-len : (req : SetupData) → Fitting (upload_block env cfg chip req)
  unfolding upload_block
  upload_block-len req = record {
    run = λ s.
        let a = block_address s.prog.addr req.value in
        Gives.run
          (Gives-if (in_app_area chip a dfu_transfer_size)
            (read-len dfu_transfer_size a (omega arith)) error-len)
          s;
  }

  upload-len : (req : SetupData) → Fitting (upload_request env cfg chip req)
  unfolding upload_request
  upload-len req = Gives-bind (set_state-Gives upload_idle) λ _ _.
      Gives-if (req.value == 0)
        (Gives-bind (reply_bytes-Gives (0 ∷ cmd_setaddr ∷ cmd_erase ∷ []))
          λ _ _. done-len 3 (omega arith))
        (Gives-if cfg.dfu_upload (upload_block-len req) error-len)

  dnload-len :
      (req : SetupData) (len : ℕ) → len ≤ dfu_transfer_size → Fitting (dnload_request req len)
  unfolding dnload_request
  dnload-len req len le =
      Gives-if (len == 0) (record { run = λ s. returns le }) (record { run = λ s. returns le })

  switch_request-len :
      (r : Option DfuReq) (req : SetupData) (len : ℕ)
      → len ≤ dfu_transfer_size
      → Fitting (switch_request env cfg chip r req len)
  unfolding switch_request handle_request getstatus_request
  switch_request-len none req len le = record { run = λ s. returns le }
  switch_request-len (some dnload) req len le = record { run = (dnload-len req len le).run }
  switch_request-len (some upload) req len le = record { run = (upload-len req).run }
  switch_request-len (some clrstatus) req len le = record { run = λ s. returns le }
  switch_request-len (some abort) req len le = record { run = λ s. returns le }
  switch_request-len (some detach) req len le = record { run = λ s. returns le }
  switch_request-len (some getstatus) req len le = record {
    run = λ s. let six : 6 ≤ dfu_transfer_size = omega arith in returns six;
  }
  switch_request-len (some getstate) req len le = record {
    run = λ s. let one : 1 ≤ dfu_transfer_size = omega arith in returns one;
  }

-- A request that announces at most a transfer buffer is answered with at most a transfer buffer.
pub control_request-len :
    (env : Env) (cfg : Config) (chip : Chip) (req : SetupData) (len : ℕ)
    → len ≤ dfu_transfer_size
    → Fitting (usbdfu_control_request env cfg chip req len)
unfolding usbdfu_control_request
control_request-len env cfg chip req len le =
    switch_request-len env cfg chip (dfu_req req.request) req len le
