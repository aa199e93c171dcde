-- ===== src/Dfu/Quiet.antt =====
-- Runs in which nothing is downloaded: the flash and its controller are only read.
use swindle_bootloader_gd.Common.{
  ℕ, zero, suc, ◌+◌, ◌≡◌, ◌≢◌, refl, Bool, true, false, Option, none, some, List, [], ◌∷◌, ◌==◌,
  u32, All, M, pure, ◌>>=◌, ◌>>◌, Returns, returns, Returns-bind, Keeps, Keeps-pure, Keeps-bind,
  Keeps-if,
}
use swindle_bootloader_gd.Bus.{Log, Env, writes}
use swindle_bootloader_gd.Device.{
  Config, Chip, DfuReq, detach, dnload, upload, getstatus, clrstatus, getstate, abort, dfu_req,
  DfuState, dnload_sync, dnbusy, dfu_idle, error, manifest, manifest_sync, upload_idle, handled,
  next_callback, state_code, SetupData, dfu_transfer_size, Dfu,
}
use swindle_bootloader_gd.Dfu.{
  cmd_setaddr, cmd_erase, status_bytes, on_bus, set_state, reply_bytes, block_address, in_app_area,
  complete_in, usbdfu_getstatus_complete, read_flash, done, usbdfu_getstatus, upload_block,
  upload_request, getstatus_request, handle_request, switch_request, usbdfu_control_request,
}

-- A download waits for its poll, or for the callback behind the poll.
abbrev pub is_pending : DfuState → Bool
is_pending dnload_sync = true
is_pending dnbusy = true
is_pending _ = false

-- No download waits, and the writes so far are `old`.
pub record Quiet (old : Log) (s : Dfu) : Type 0 where
  pub calm : is_pending s.usbdfu_state ≡ false
  pub untouched : writes s.log ≡ old

module _ (old : Log) where
  done-Quiet : (len : ℕ) → Keeps (Quiet old) (done len)
  done-Quiet len = Keeps-pure (record { code = handled; len = len; complete = false })

  set_state-Quiet : (st : DfuState) → is_pending st ≡ false → Keeps (Quiet old) (set_state st)
  set_state-Quiet st calm = record {
    run = λ s q. returns (record { calm = calm; untouched = q.untouched });
  }

  reply_bytes-Quiet : (bytes : List ℕ) → Keeps (Quiet old) (reply_bytes bytes)
  reply_bytes-Quiet bytes = record {
    run = λ s q. returns (record { calm = q.calm; untouched = q.untouched });
  }

  read_flash-writes :
      (env : Env) (n a : ℕ) (h : Log)
      → writes h ≡ old
      → Returns (λ _ t. writes t ≡ old) (read_flash env n a h)
  unfolding read_flash writes
  read_flash-writes env zero a h e = returns e
  read_flash-writes env (suc n) a h e =
      Returns-bind (read_flash-writes env n (u32 (a + 1)) _ e) λ _ _ f. returns f

  read_flash-Quiet : (env : Env) (n a : ℕ) → Keeps (Quiet old) (on_bus (read_flash env n a))
  read_flash-Quiet env n a = record {
    run = λ s q. after s q (read_flash env n a s.log) (read_flash-writes env n a s.log q.untouched);
  }
    where
      after :
          (s : Dfu)
          → Quiet old s
          → (o : Option (List ℕ × Log)) → Returns (λ _ t. writes t ≡ old) o
          → Returns
              (λ _ t. Quiet old t)
              (elim o [ none ↦ none | some (a, h) ↦ some (a, record s { log = h }) ])
      after s q none r = elim r [ ]
      after s q (some (b, h)) (returns c) = returns (record { calm = q.calm; untouched = c })

  clrstatus-Quiet :
      (st : DfuState) (s : Dfu)
      → Quiet old s
      → Quiet old (elim st [ error ↦ record s { usbdfu_state = dfu_idle } | _ ↦ s ])
  clrstatus-Quiet error s q = record { calm = refl; untouched = q.untouched }
  clrstatus-Quiet _ s q = q

  -- A poll moves on to the busy state from the waiting state only.
  getstatus-calm :
      (st : DfuState) → is_pending st ≡ false → is_pending (usbdfu_getstatus st).0 ≡ false
  unfolding usbdfu_getstatus
  getstatus-calm dnload_sync calm = cc
  getstatus-calm manifest_sync calm = refl
  getstatus-calm error calm = refl
  getstatus-calm _ calm = calm

  module _ (env : Env) (fuel : ℕ) (cfg : Config) (chip : Chip) where
    upload_block-Quiet : (req : SetupData) → Keeps (Quiet old) (upload_block env cfg chip req)
    unfolding upload_block
    upload_block-Quiet req = record {
      run = λ s q.
          let a = block_address s.prog.addr req.value in
          Keeps.run
            (Keeps-if (in_app_area chip a dfu_transfer_size)
              (Keeps-bind (read_flash-Quiet env dfu_transfer_size a)
                λ bytes. Keeps-bind (reply_bytes-Quiet bytes) λ _. done-Quiet dfu_transfer_size)
              (Keeps-bind (set_state-Quiet error refl) λ _. done-Quiet 0))
            s q;
    }

    upload-Quiet : (req : SetupData) → Keeps (Quiet old) (upload_request env cfg chip req)
    unfolding upload_request
    upload-Quiet req = Keeps-bind (set_state-Quiet upload_idle refl) λ _.
        Keeps-if (req.value == 0)
          (Keeps-bind (reply_bytes-Quiet (0 ∷ cmd_setaddr ∷ cmd_erase ∷ [])) λ _. done-Quiet 3)
          (Keeps-if cfg.dfu_upload (upload_block-Quiet req)
            (Keeps-bind (set_state-Quiet error refl) λ _. done-Quiet 0))

    getstatus-Quiet : Keeps (Quiet old) (getstatus_request env cfg chip)
    unfolding getstatus_request
    getstatus-Quiet = record {
      run = λ s q.
          let (next, timeout, status) = usbdfu_getstatus s.usbdfu_state in
          Keeps.run
            (Keeps-bind (set_state-Quiet next (getstatus-calm s.usbdfu_state q.calm)) λ _.
              Keeps-bind (reply_bytes-Quiet (status_bytes next timeout status))
                λ _. Keeps-pure (record { code = handled; len = 6; complete = true }))
            s q;
    }

    handle_request-Quiet :
        (r : DfuReq) (req : SetupData) (len : ℕ)
        → r ≢ dnload
        → Keeps (Quiet old) (handle_request env cfg chip r req len)
    unfolding handle_request
    handle_request-Quiet dnload req len ne = absurd (ne refl)
    handle_request-Quiet clrstatus req len ne = record {
      run = λ s q. returns (clrstatus-Quiet s.usbdfu_state s q);
    }
    handle_request-Quiet abort req len ne =
        Keeps-bind (set_state-Quiet dfu_idle refl) λ _. done-Quiet len
    handle_request-Quiet detach req len ne =
        Keeps-bind (set_state-Quiet manifest refl) λ _. done-Quiet len
    handle_request-Quiet upload req len ne = record { run = (upload-Quiet req).run }
    handle_request-Quiet getstatus req len ne = record { run = getstatus-Quiet.run }
    handle_request-Quiet getstate req len ne = record {
      run = λ s q.
          Keeps.run
            (Keeps-bind (reply_bytes-Quiet (state_code s.usbdfu_state ∷ [])) λ _. done-Quiet 1) s q;
    }

    switch_request-Quiet :
        (r : Option DfuReq) (req : SetupData) (len : ℕ)
        → r ≢ some dnload
        → Keeps (Quiet old) (switch_request env cfg chip r req len)
    unfolding switch_request
    switch_request-Quiet (some r) req len ne = handle_request-Quiet r req len (λ e. ne (rw e))
    switch_request-Quiet none req len ne =
        Keeps-pure (record { code = next_callback; len = len; complete = false })

    complete_in-Quiet :
        (st : DfuState)
        → is_pending st ≡ false
        → Keeps (Quiet old) (complete_in env fuel cfg chip st)
    unfolding complete_in
    complete_in-Quiet dnbusy calm = cc
    complete_in-Quiet _ calm = Keeps-pure tt

-- What the host makes the application do: a request with its length, or the callback of a poll.
pub data Event : Type 0 where
  request : SetupData → ℕ → Event
  polled : Event

abbrev pub IsDownload : Event → Type 0
IsDownload (request req len) = dfu_req req.request ≡ some dnload
IsDownload polled = ⊥

module _ (env : Env) (fuel : ℕ) (cfg : Config) (chip : Chip) where
  unfoldable pub run : List Event → M Dfu (Unit {0})
  run [] s = pure tt s
  run (request req len ∷ es) s = (do _ ← usbdfu_control_request env cfg chip req len; run es) s
  run (polled ∷ es) s = (do usbdfu_getstatus_complete env fuel cfg chip; run es) s

  -- However the host asks, in whatever order and with callbacks at any time: while no event is a
  -- download, every event is answered and nothing at all is written, from any state in which no
  -- earlier download waits.
  pub run-Quiet :
      (old : Log) (es : List Event) → All (λ e. ¬ (IsDownload e)) es → Keeps (Quiet old) (run es)
  unfolding run usbdfu_control_request usbdfu_getstatus_complete
  run-Quiet old [] h = Keeps-pure tt
  run-Quiet old (request req len ∷ es) h =
      Keeps-bind (switch_request-Quiet old env fuel cfg chip (dfu_req req.request) req len h.0)
        λ _. run-Quiet old es h.1
  run-Quiet old (polled ∷ es) h =
      Keeps-bind
        (record {
          run = λ s q. (complete_in-Quiet old env fuel cfg chip s.usbdfu_state q.calm).run s q;
        })
        λ _. run-Quiet old es h.1
