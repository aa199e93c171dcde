-- ===== src/Usb/Spared/State.antt =====
-- What the runs of usb.cpp keep of the state, and the steps on the stack's own variables.
use swindle_bootloader_gd.Common.{ℕ, Option, none, some, List, M, pure}
use swindle_bootloader_gd.Common.Partial.{
  Holds, nothing, holds, Any, Safe, Safe-pure, Safe-bind, Safe-change,
}
use swindle_bootloader_gd.Bus.{Log}
use swindle_bootloader_gd.Flash.Spared.{Spared}
use swindle_bootloader_gd.Device.{ReturnCode, handled, Dfu}
use swindle_bootloader_gd.Dfu.Spared.{Spares}
use swindle_bootloader_gd.Usb.State.{
  Fsm, Usb, on_hw, on_dfu, set_fsm, set_datasize, put_at, put_buffer,
}
use swindle_bootloader_gd.Usb.Requests.{answer}

abbrev pub Sparing : Usb → Type 0
Sparing s = Spares s.dfu

pub on_hw-Sparing :
    {A : Type 0} {P : A → Type 0} {m : M Log A} → Safe Spared P m → Safe Sparing P (on_hw m)
on_hw-Sparing {A} {P} {m} k = record {
  run = λ s (n, i). after s (n, i) (m s.dfu.log) (k.run s.dfu.log i);
}
  where
    after :
        (s : Usb)
        → Sparing s
        → (o : Option (A × Log)) → Holds (λ a h. P a × Spared h) o
        → Holds
            (λ a t. P a × Sparing t)
            (elim o [
              | none ↦ none
              | some (a, h) ↦ some (a, record s { dfu = record s.dfu { log = h } })
            ])
    after s b none r = nothing
    after s (n, i) (some (a, h)) (holds (p, j)) = holds (p, (n, j))

pub on_dfu-Sparing :
    {A : Type 0} {P : A → Type 0} {m : M Dfu A} → Safe Spares P m → Safe Sparing P (on_dfu m)
on_dfu-Sparing {A} {P} {m} k = record { run = λ s i. after s (m s.dfu) (k.run s.dfu i) }
  where
    after :
        (s : Usb) (o : Option (A × Dfu))
        → Holds (λ a d. P a × Spares d) o
        → Holds
            (λ a t. P a × Sparing t)
            (elim o [ none ↦ none | some (a, d) ↦ some (a, record s { dfu = d }) ])
    after s none r = nothing
    after s (some (a, d)) (holds (p, j)) = holds (p, j)

-- The stack's own variables.
pub set_fsm-Sparing : (f : Fsm) → Safe Sparing Any (set_fsm f)
set_fsm-Sparing f = Safe-change (λ s. record s { fsm = f }) λ s i. i

pub set_datasize-Sparing : (n : ℕ) → Safe Sparing Any (set_datasize n)
set_datasize-Sparing n = Safe-change (λ s. record s { datasize = n }) λ s i. i

pub put_buffer-Sparing : (off : ℕ) (bytes : List ℕ) → Safe Sparing Any (put_buffer off bytes)
put_buffer-Sparing off bytes = record {
  run = λ s i. after s i (put_at off bytes s.dfu.control_buffer);
}
  where
    after :
        (s : Usb)
        → Sparing s
        → (o : Option (List ℕ))
        → Holds
            (λ a t. Any a × Sparing t)
            (elim o [
              | none ↦ none
              | some b ↦ some (tt, record s { dfu = record s.dfu { control_buffer = b } })
            ])
    after s i none = nothing
    after s i (some b) = holds (tt, i)

pub code-Sparing : (c : ReturnCode) → Safe Sparing Any (pure c)
code-Sparing c = Safe-pure c tt

pub answer-Sparing : (bytes : List ℕ) (n : ℕ) → Safe Sparing Any (answer bytes n)
answer-Sparing bytes n =
    Safe-bind (put_buffer-Sparing 0 bytes)
      λ _ _. Safe-bind (set_datasize-Sparing n) λ _ _. code-Sparing handled
