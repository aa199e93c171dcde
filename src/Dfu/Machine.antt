-- ===== src/Dfu/Machine.antt =====
-- The states of the DFU application as a machine on events, and every run of the code as one of its
-- runs.
use swindle_bootloader_gd.Common.{
  ℕ, zero, suc, ◌+◌, ◌<◌, ◌≡◌, ◌≢◌, refl, sym, subst, Option, none, some, List, [], ◌∷◌, ◌==◌, u32,
  arith, ◌>>◌, Returns, returns, Returns-bind, Returns-if, Keeps, Keeps-bind, Keeps-if,
}
use swindle_bootloader_gd.Bus.{Log, Env}
use swindle_bootloader_gd.Device.{
  Config, Chip, DfuReq, detach, dnload, upload, getstatus, clrstatus, getstate, abort, dfu_req,
  DfuState, dfu_idle, dnload_sync, dnbusy, dnload_idle, manifest_sync, manifest, upload_idle, error,
  SetupData, dfu_transfer_size, Dfu,
}
use swindle_bootloader_gd.Dfu.{
  on_bus, set_state, reply_bytes, block_address, in_app_area, cmd_setaddr, cmd_erase, copy_payload,
  read_flash, done, usbdfu_getstatus, dnload_request, upload_block, upload_request,
  getstatus_request, handle_request, switch_request, usbdfu_control_request,
}
use swindle_bootloader_gd.Dfu.Quiet.{Event, request, polled}

-- The machine: what an event does to a state. A request is its kind and its length.
pub data Step (st : DfuState) : Option DfuReq → ℕ → DfuState → Type 0 where
  -- A block, or the end of the firmware, is announced.
  block_arrives : {n : ℕ} → 0 < n → Step st (some dnload) n dnload_sync
  firmware_ends : {n : ℕ} → (n ≡ 0) → Step st (some dnload) n manifest_sync
  -- A poll starts what is waiting.
  block_starts : {n : ℕ} → st ≡ dnload_sync → Step st (some getstatus) n dnbusy
  manifest_starts : {n : ℕ} → st ≡ manifest_sync → Step st (some getstatus) n manifest
  polls : {n : ℕ} → st ≢ dnload_sync → st ≢ manifest_sync → Step st (some getstatus) n st
  -- The host gives up, clears an error or detaches.
  aborts : {n : ℕ} → Step st (some abort) n dfu_idle
  clears : {n : ℕ} → st ≡ error → Step st (some clrstatus) n dfu_idle
  keeps : {n : ℕ} → st ≢ error → Step st (some clrstatus) n st
  detaches : {n : ℕ} → Step st (some detach) n manifest
  -- It reads the flash, or is refused.
  uploads : {n : ℕ} → Step st (some upload) n upload_idle
  refuses : {n : ℕ} → Step st (some upload) n error
  -- It asks for the state, or for something else.
  asks : {n : ℕ} → Step st (some getstate) n st
  passes : {n : ℕ} → Step st none n st

-- The steps of a list of events: a callback behind a poll ends what was started, and does nothing in
-- another state.
pub data Follows : DfuState → List Event → DfuState → Type 0 where
  at_end : {st : DfuState} → Follows st [] st
  asked :
      {st next last : DfuState} {req : SetupData} {len : ℕ} {es : List Event}
      → Step st (dfu_req req.request) len next
      → Follows next es last
      → Follows st (request req len ∷ es) last
  programmed :
      {last : DfuState} {es : List Event}
      → Follows dnload_idle es last
      → Follows dnbusy (polled ∷ es) last
  unmoved :
      {st last : DfuState} {es : List Event}
      → st ≢ dnbusy
      → Follows st es last
      → Follows st (polled ∷ es) last

read_flash-Returns :
    (env : Env) (n a : ℕ) (h : Log) → Returns (λ _ _. Unit {0}) (read_flash env n a h)
unfolding read_flash
read_flash-Returns env zero a h = returns tt
read_flash-Returns env (suc n) a h =
    Returns-bind (read_flash-Returns env n (u32 (a + 1)) _) λ _ _ _. returns tt

-- The state is in a set.
abbrev pub In : (DfuState → Type 0) → Dfu → Type 0
In P s = P s.usbdfu_state

module _ (P : DfuState → Type 0) where
  set_state-In : (st : DfuState) → P st → Keeps (In P) (set_state st)
  set_state-In st p = record { run = λ s _. returns p }

  reply_bytes-In : (bytes : List ℕ) → Keeps (In P) (reply_bytes bytes)
  reply_bytes-In bytes = record { run = λ s p. returns p }

  done-In : (len : ℕ) → Keeps (In P) (done len)
  done-In len = record { run = λ s p. returns p }

  read_flash-In : (env : Env) (n a : ℕ) → Keeps (In P) (on_bus (read_flash env n a))
  read_flash-In env n a = record {
    run = λ s p. after s p (read_flash env n a s.log) (read_flash-Returns env n a s.log);
  }
    where
      after :
          (s : Dfu)
          → In P s
          → (o : Option (List ℕ × Log)) → Returns (λ _ _. Unit {0}) o
          → Returns
              (λ _ t. In P t)
              (elim o [ none ↦ none | some (a, h) ↦ some (a, record s { log = h }) ])
      after s p none r = elim r [ ]
      after s p (some (b, h)) (returns c) = returns p

clrstatus-Step :
    (n : ℕ) (st : DfuState) (s : Dfu)
    → s.usbdfu_state ≡ st
    → In
        (Step st (some clrstatus) n)
        (elim st [ error ↦ record s { usbdfu_state = dfu_idle } | _ ↦ s ])
clrstatus-Step n error s e = clears refl
clrstatus-Step n st s e = subst (Step st (some clrstatus) n) (sym e) (keeps (λ f. cc))

getstatus-Step : (n : ℕ) (st : DfuState) → Step st (some getstatus) n (usbdfu_getstatus st).0
unfolding usbdfu_getstatus
getstatus-Step n dnload_sync = block_starts refl
getstatus-Step n manifest_sync = manifest_starts refl
getstatus-Step n error = polls (λ e. cc) (λ e. cc)
getstatus-Step n st = polls (λ e. cc) (λ e. cc)

module _ (env : Env) (cfg : Config) (chip : Chip) where
  module _ (st : DfuState) (n : ℕ) where
    abbrev Uploaded : DfuState → Type 0
    Uploaded = Step st (some upload) n

    refused-In : Keeps (In Uploaded) (do set_state error; done 0)
    refused-In = Keeps-bind (set_state-In Uploaded error refuses) λ _. done-In Uploaded 0

    upload_block-In : (req : SetupData) → Keeps (In Uploaded) (upload_block env cfg chip req)
    unfolding upload_block
    upload_block-In req = record {
      run = λ s p.
          let a = block_address s.prog.addr req.value in
          Keeps.run
            (Keeps-if (in_app_area chip a dfu_transfer_size)
              (Keeps-bind (read_flash-In Uploaded env dfu_transfer_size a) λ bytes.
                Keeps-bind (reply_bytes-In Uploaded bytes) λ _. done-In Uploaded dfu_transfer_size)
              refused-In)
            s p;
    }

    upload-In :
        (req : SetupData) (s : Dfu)
        → Returns (λ _ t. In Uploaded t) (upload_request env cfg chip req s)
    unfolding upload_request
    upload-In req s =
        Keeps.run
          (Keeps-if (req.value == 0)
            (Keeps-bind (reply_bytes-In Uploaded (0 ∷ cmd_setaddr ∷ cmd_erase ∷ []))
              λ _. done-In Uploaded 3)
            (Keeps-if cfg.dfu_upload (upload_block-In req) refused-In))
          (record s { usbdfu_state = upload_idle }) uploads

  dnload-In :
      (req : SetupData) (len : ℕ) (s : Dfu)
      → Returns (λ _ t. In (Step s.usbdfu_state (some dnload) len) t) (dnload_request req len s)
  unfolding dnload_request copy_payload
  dnload-In req len s =
      Returns-if (len == 0) (do set_state manifest_sync; done len)
        (do copy_payload req len; set_state dnload_sync; done len) s
        (λ e. returns (firmware_ends (ground arith))) λ e. returns (block_arrives (ground arith))

  handle_request-In :
      (r : DfuReq) (req : SetupData) (len : ℕ) (s : Dfu)
      → Returns
          (λ _ t. In (Step s.usbdfu_state (some r) len) t)
          (handle_request env cfg chip r req len s)
  unfolding handle_request getstatus_request
  handle_request-In dnload req len s = dnload-In req len s
  handle_request-In clrstatus req len s = returns (clrstatus-Step len s.usbdfu_state s refl)
  handle_request-In abort req len s = returns aborts
  handle_request-In detach req len s = returns detaches
  handle_request-In upload req len s = upload-In s.usbdfu_state len req s
  handle_request-In getstatus req len s = returns (getstatus-Step len s.usbdfu_state)
  handle_request-In getstate req len s = returns asks

  switch_request-In :
      (r : Option DfuReq) (req : SetupData) (len : ℕ) (s : Dfu)
      → Returns (λ _ t. In (Step s.usbdfu_state r len) t) (switch_request env cfg chip r req len s)
  unfolding switch_request
  switch_request-In (some r) req len s = handle_request-In r req len s
  switch_request-In none req len s = returns passes

  pub control_request-In :
      (req : SetupData) (len : ℕ) (s : Dfu)
      → Returns
          (λ _ t. In (Step s.usbdfu_state (dfu_req req.request) len) t)
          (usbdfu_control_request env cfg chip req len s)
  unfolding usbdfu_control_request
  control_request-In req len s = switch_request-In (dfu_req req.request) req len s
