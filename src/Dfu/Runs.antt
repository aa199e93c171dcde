-- ===== src/Dfu/Runs.antt =====
-- Every run of the DFU application is one of the machine's, and what follows of the machine's runs.
use swindle_bootloader_gd.Common.{
  ℕ, ◌<◌, ◌^◌, ◌≡◌, ◌≢◌, ◌⊎◌, inl, inr, refl, sym, subst, Option, some, List, [], ◌∷◌, arith,
  Returns, returns, Returns-bind, Returns-both, Returns_mono,
}
use swindle_bootloader_gd.Bus.{Env}
use swindle_bootloader_gd.Flash.Settles.{Settles}
use swindle_bootloader_gd.Flash.Total.{unlock-Done, lock-Done}
use swindle_bootloader_gd.Device.{
  Config, Chip, DfuReq, detach, dnload, dfu_req, DfuState, dnbusy, dnload_idle, manifest_sync,
  manifest, Dfu,
}
use swindle_bootloader_gd.Dfu.{complete_in, usbdfu_getstatus_complete, usbdfu_control_request}
use swindle_bootloader_gd.Dfu.Sized.{IsSized, control_request-IsSized}
use swindle_bootloader_gd.Dfu.Callback.{on_bus-IsSized, run_download-IsSized}
use swindle_bootloader_gd.Dfu.Quiet.{Event, request, polled, run}
use swindle_bootloader_gd.Dfu.Machine.{
  Step, block_arrives, firmware_ends, block_starts, manifest_starts, polls, aborts, clears, keeps,
  detaches, uploads, refuses, asks, passes, Follows, at_end, asked, programmed, unmoved,
  control_request-In,
}

-- What a callback makes of the state.
data Completes : DfuState → DfuState → Type 0 where
  ends_busy : Completes dnbusy dnload_idle
  stays : {st : DfuState} → st ≢ dnbusy → Completes st st

Completes-Follows :
    {st next last : DfuState} {es : List Event}
    → Completes st next
    → Follows next es last
    → Follows st (polled ∷ es) last
Completes-Follows ends_busy f = programmed f
Completes-Follows (stays ne) f = unmoved ne f

module _ (env : Env) (fuel : ℕ) (settles : Settles env fuel) (cfg : Config) (chip : Chip)
    (density : chip.flash_size < 2 ^ 16) where
  complete_in-Completes :
      (st : DfuState) (s : Dfu)
      → s.usbdfu_state ≡ st
      → IsSized s
      → Returns
          (λ _ t. IsSized t × Completes st t.usbdfu_state)
          (complete_in env fuel cfg chip st s)
  unfolding complete_in
  complete_in-Completes dnbusy s e z = Returns-bind ((on_bus-IsSized unlock-Done).run s z) λ _ t u.
      Returns-bind ((run_download-IsSized env fuel settles cfg chip density).run t u) λ _ v x.
        Returns-bind ((on_bus-IsSized (lock-Done env)).run v x) λ _ w y.
          returns (record { control = y.control; shadow = y.shadow; fits = y.fits }, ends_busy)
  complete_in-Completes st s e z = returns (z, subst (Completes st) (sym e) (stays (λ f. cc)))

  -- However the host asks, in whatever order and with callbacks at any time: every event is
  -- answered, the buffers keep their sizes with the payload in bounds, and the state goes the way of
  -- the machine. The flash size fits its register, and the busy flag clears.
  pub run-Follows :
      (es : List Event) (s : Dfu)
      → IsSized s
      → Returns
          (λ _ t. IsSized t × Follows s.usbdfu_state es t.usbdfu_state)
          (run env fuel cfg chip es s)
  unfolding run usbdfu_getstatus_complete
  run-Follows [] s z = returns (z, at_end)
  run-Follows (request req len ∷ es) s z =
      Returns-bind
        (Returns-both (usbdfu_control_request env cfg chip req len s)
          ((control_request-IsSized env cfg chip req len).run s z)
          (control_request-In env cfg chip req len s))
        λ _ t (y, step). Returns_mono (run-Follows es t y) λ _ u (x, f). (x, asked step f)
  run-Follows (polled ∷ es) s z =
      Returns-bind (complete_in-Completes s.usbdfu_state s refl z)
        λ _ t (y, c). Returns_mono (run-Follows es t y) λ _ u (x, f). (x, Completes-Follows c f)

-- The host asks for the end: it detaches the device, or ends a firmware by an empty block.
abbrev pub AsksEnd : Event → Type 0
AsksEnd (request req len) =
    (dfu_req req.request ≡ some detach) ⊎ ((dfu_req req.request ≡ some dnload) × (len ≡ 0))
AsksEnd polled = ⊥

abbrev pub Any : (Event → Type 0) → List Event → Type 0
Any P [] = ⊥
Any P (e ∷ es) = P e ⊎ Any P es

abbrev pub IsEnding : DfuState → Type 0
IsEnding st = (st ≡ manifest) ⊎ (st ≡ manifest_sync)

Step-IsEnding :
    {st next : DfuState} {r : Option DfuReq} {len : ℕ}
    → Step st r len next
    → IsEnding next
    → IsEnding st ⊎ (r ≡ some detach) ⊎ ((r ≡ some dnload) × (len ≡ 0))
Step-IsEnding (block_arrives l) e = absurd (ground arith)
Step-IsEnding (firmware_ends z) e = inr (inr (refl, z))
Step-IsEnding (block_starts s) e = absurd (ground arith)
Step-IsEnding (manifest_starts s) e = inl (inr s)
Step-IsEnding (polls n m) e = inl e
Step-IsEnding aborts e = absurd (ground arith)
Step-IsEnding (clears s) e = absurd (ground arith)
Step-IsEnding (keeps n) e = inl e
Step-IsEnding detaches e = inr (inl refl)
Step-IsEnding uploads e = absurd (ground arith)
Step-IsEnding refuses e = absurd (ground arith)
Step-IsEnding asks e = inl e
Step-IsEnding passes e = inl e

Follows-IsEnding :
    {st last : DfuState} {es : List Event}
    → Follows st es last
    → IsEnding last
    → IsEnding st ⊎ Any AsksEnd es
Follows-IsEnding at_end e = inl e
Follows-IsEnding (asked step f) e = elim (Follows-IsEnding f e) [
  | inr later ↦ inr (inr later)
  | inl now ↦ elim (Step-IsEnding step now) [ inl before ↦ inl before | inr ask ↦ inr (inl ask) ]
]
Follows-IsEnding (programmed f) e = elim (Follows-IsEnding f e) [
  | inr later ↦ inr (inr later)
  | inl now ↦ absurd (ground arith)
]
Follows-IsEnding (unmoved n f) e = elim (Follows-IsEnding f e) [
  | inr later ↦ inr (inr later)
  | inl now ↦ inl now
]

-- The chip is only reset on the host's word: from a state in which no end is under way, every run of
-- requests and callbacks comes back, and if it is then in the state that resets the chip, one of the
-- events has detached the device or ended a firmware by an empty block.
pub run-AsksEnd :
    (env : Env) (fuel : ℕ) (cfg : Config) (chip : Chip) (es : List Event) (s : Dfu)
    → Settles env fuel
    → chip.flash_size < 2 ^ 16
    → IsSized s
    → ¬ (IsEnding s.usbdfu_state)
    → Returns (λ _ t. t.usbdfu_state ≡ manifest → Any AsksEnd es) (run env fuel cfg chip es s)
run-AsksEnd env fuel cfg chip es s settles density z calm =
    Returns_mono (run-Follows env fuel settles cfg chip density es s z) λ _ t (y, f) e.
      elim (Follows-IsEnding f (inl e)) [ inl before ↦ absurd (calm before) | inr later ↦ later ]
