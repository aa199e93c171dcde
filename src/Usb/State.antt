-- ===== src/Usb/State.antt =====
-- The variables of src_stage2/usb.cpp.
use swindle_bootloader_gd.Common.{
  ℕ, suc, Bool, false, Option, none, some, List, [], ◌∷◌, replicate, M,
}
use swindle_bootloader_gd.Bus.{Log}
use swindle_bootloader_gd.Device.{SetupData, Dfu, boot}

pub data Fsm : Type 0 where
  idle stalled data_in last_data_in status_in data_out last_data_out status_out : Fsm

-- `usb_complete_cb` is null or `usbdfu_getstatus_complete`; the flag says which. The DFU
-- application's state holds the shared control buffer and the run.
pub record Usb : Type 0 where
  pub fsm : Fsm
  pub datasize : ℕ
  pub dataoff : ℕ
  pub pm_top : ℕ
  pub needs_zlp : Bool
  pub req : SetupData
  pub force_nak : List Bool
  pub complete_cb : Bool
  pub dfu : Dfu

unfoldable pub power_on : Usb
unfolding boot
power_on = record {
  fsm = idle;
  datasize = 0;
  dataoff = 0;
  pm_top = 0;
  needs_zlp = false;
  req = record { request_type = 0; request = 0; value = 0; index = 0; length = 0 };
  force_nak = replicate 8 false;
  complete_cb = false;
  dfu = boot;
}

-- A command of the bus, and one of the DFU application, as steps of the stack.
abbrev pub on_hw : {A : Type 0} → M Log A → M Usb A
on_hw m s = elim (m s.dfu.log) [
  | none ↦ none
  | some (a, h) ↦ some (a, record s { dfu = record s.dfu { log = h } })
]

abbrev pub on_dfu : {A : Type 0} → M Dfu A → M Usb A
on_dfu m s = elim (m s.dfu) [ none ↦ none | some (a, d) ↦ some (a, record s { dfu = d }) ]

abbrev pub set_fsm : Fsm → M Usb (Unit {0})
set_fsm f s = some (tt, record s { fsm = f })

abbrev pub set_datasize : ℕ → M Usb (Unit {0})
set_datasize n s = some (tt, record s { datasize = n })

-- Writes to the bytes of an array from `off` on; `none` if one lies beyond its end.
unfoldable pub put_at : ℕ → List ℕ → List ℕ → Option (List ℕ)
put_at off [] buf = some buf
put_at ℕ.zero (x ∷ xs) [] = none
put_at ℕ.zero (x ∷ xs) (y ∷ buf) = elim (put_at 0 xs buf) [ none ↦ none | some r ↦ some (x ∷ r) ]
put_at (suc n) (x ∷ xs) [] = none
put_at (suc n) (x ∷ xs) (y ∷ buf) = elim (put_at n (x ∷ xs) buf) [
  | none ↦ none
  | some r ↦ some (y ∷ r)
]

-- `usbd_control_buffer[off]` and on
abbrev pub put_buffer : ℕ → List ℕ → M Usb (Unit {0})
put_buffer off bytes s = elim (put_at off bytes s.dfu.control_buffer) [
  | none ↦ none
  | some b ↦ some (tt, record s { dfu = record s.dfu { control_buffer = b } })
]
