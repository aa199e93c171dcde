-- ===== src/Stage2/Spared.antt =====
-- The main loop of stage 2 leaves the boot loader's flash as it is.
pub mod Drivers
pub mod Setup
use swindle_bootloader_gd.Common.{
  ℕ, zero, suc, ◌+◌, ◌^◌, ◌<◌, Bool, true, false, not, ltb, Option, none, some, List, All, arith,
  u32, M, Returns, Returns_mono,
}
use swindle_bootloader_gd.Common.Partial.{
  Holds, nothing, holds, Returns-Holds, Any, Safe, Safe-pure, Safe-done, Safe-bind, Safe-if,
  Safe-change,
}
use swindle_bootloader_gd.Bus.{word, Env}
use swindle_bootloader_gd.Flash.Settles.{Settles}
use swindle_bootloader_gd.Flash.Spared.{Spared, after_ar-Clear, before_ar-Clear, store-Spared}
use swindle_bootloader_gd.Device.{Config, Chip, DfuState, manifest}
use swindle_bootloader_gd.Board.{digital_write}
use swindle_bootloader_gd.Usb.State.{Usb}
use swindle_bootloader_gd.Usb.Hardware.{PacketTable}
use swindle_bootloader_gd.Usb.Dispatch.{FitsString}
use swindle_bootloader_gd.Usb.Poll.{Polite}
use swindle_bootloader_gd.Usb.Spared.Memory.{PacketMemory}
use swindle_bootloader_gd.Usb.Spared.State.{Sparing, on_hw-Sparing}
use swindle_bootloader_gd.Usb.Spared.Poll.{do_usb_poll-Sparing}
use swindle_bootloader_gd.Stage2.{
  MainLoop, Outcome, running, was_reset, aircr, led_pin, led2_pin, led3_pin, on_stack, blink,
  after_poll, main_round, main_loop, full_system_reset, next_round,
}
use swindle_bootloader_gd.Stage2.Loop.{Polling, Ended, main_loop-Ended}

abbrev Kept : MainLoop → Type 0
Kept s = Sparing s.stack

on_stack-Kept :
    {A : Type 0} {P : A → Type 0} {m : M Usb A} → Safe Sparing P m → Safe Kept P (on_stack m)
on_stack-Kept {A} {P} {m} k = record { run = λ s i. after s (m s.stack) (k.run s.stack i) }
  where
    after :
        (s : MainLoop) (o : Option (A × Usb))
        → Holds (λ a t. P a × Sparing t) o
        → Holds
            (λ a t. P a × Kept t)
            (elim o [ none ↦ none | some (a, u) ↦ some (a, record s { stack = u }) ])
    after s none r = nothing
    after s (some (a, u)) (holds (p, j)) = holds (p, j)

module _ (env : Env) where
  led-Spared :
      (crystalless value : Bool) → Safe Spared Any (digital_write env (led_pin crystalless) value)
  unfolding digital_write
  led-Spared true value = store-Spared word _ _ (before_ar-Clear _ (omega arith) (omega arith))
  led-Spared false value = store-Spared word _ _ (before_ar-Clear _ (omega arith) (omega arith))

  leds-Spared :
      (value : Bool)
      → Safe Spared Any (digital_write env led2_pin value)
        × Safe Spared Any (digital_write env led3_pin value)
  unfolding digital_write
  leds-Spared value = (
    store-Spared word _ _ (before_ar-Clear _ (omega arith) (omega arith)),
    store-Spared word _ _ (before_ar-Clear _ (omega arith) (omega arith)),
  )

module _ (env : Env) (memory : PacketMemory env) (fuel : ℕ) (cfg : Config) (chip : Chip)
    (density : chip.flash_size < 2 ^ 16) (strings : List (List ℕ)) (crystalless : Bool) where
  blink-Kept : (tick : ℕ) → Safe Kept Any (blink env fuel cfg chip strings crystalless tick)
  unfolding blink
  blink-Kept tick = record {
    run = λ s i.
        Safe.run
          (Safe-if (ltb s.next_tick tick)
            (Safe-bind
              (on_stack-Kept (
                on_hw-Sparing (
                  Safe-bind (led-Spared env crystalless s.led)
                    λ _ _. Safe-bind (leds-Spared env s.led).0 λ _ _. (leds-Spared env s.led).1)))
              λ _ _.
                Safe-change (λ t. record t { next_tick = u32 (t.next_tick + 100); led = not t.led })
                  λ t j. j)
            Safe-done)
          s i;
  }

  after_poll-Kept :
      (st : DfuState) (tick : ℕ)
      → Safe Kept Any (after_poll env fuel cfg chip strings crystalless st tick)
  unfolding after_poll full_system_reset
  after_poll-Kept manifest tick =
      Safe-bind
        (on_stack-Kept (
          on_hw-Sparing
            (store-Spared word aircr (0x05FA0000 + 4) (after_ar-Clear aircr (omega arith)))))
        λ _ _. Safe-pure was_reset tt
  after_poll-Kept _ tick = Safe-bind (blink-Kept tick) λ _ _. Safe-pure running tt

  main_round-Kept :
      (tick : ℕ) → Safe Kept Any (main_round env fuel cfg chip strings crystalless tick)
  unfolding main_round
  main_round-Kept tick =
      Safe-bind (on_stack-Kept (do_usb_poll-Sparing env memory fuel cfg chip density strings))
        λ _ _. record { run = λ s i. Safe.run (after_poll-Kept s.stack.dfu.usbdfu_state tick) s i }

  next_round-Kept :
      (o : Outcome) {rest : M MainLoop Outcome}
      → Safe Kept Any rest
      → Safe Kept Any (next_round o rest)
  next_round-Kept was_reset k = Safe-pure was_reset tt
  next_round-Kept running k = k

  main_loop-Kept :
      (ticks : ℕ → ℕ) (n : ℕ)
      → Safe Kept Any (main_loop env fuel cfg chip strings crystalless ticks n)
  unfolding main_loop
  main_loop-Kept ticks zero = record { run = λ s i. holds (tt, i) }
  main_loop-Kept ticks (suc n) = record {
    run = λ s i.
        Safe.run
          (Safe-bind (main_round-Kept (ticks n)) λ o _. next_round-Kept o (main_loop-Kept ticks n))
          s i;
  }

  -- Any number of rounds of the main loop comes back, at whatever times, ended as `Ended` says, and
  -- whatever the host sends, the run has written no address of the boot loader's flash and named no
  -- page of it to erase, if it had not before. The hardware and the host are as for one poll; the
  -- transmit buffer of endpoint 0 lies in the packet memory. Not covered is the mass erase, a bit of
  -- the control register that the code writes back as it reads it.
  pub main_loop-Spared :
      PacketTable env
      → Polite env
      → Settles env fuel
      → All FitsString strings
      → (ticks : ℕ → ℕ) (n : ℕ) (s : MainLoop) → Polling s
      → Spared s.stack.dfu.log
      → Returns
          (λ o t. Ended o t × Spared t.stack.dfu.log)
          (main_loop env fuel cfg chip strings crystalless ticks n s)
  main_loop-Spared table polite settles fits ticks n s p i =
      Returns_mono
        (Returns-Holds
          (main_loop-Ended env table polite fuel settles cfg chip density strings fits crystalless
            ticks n s p)
          ((main_loop-Kept ticks n).run s (p.serving.sized.fits, i)))
        λ o t (e, (_, (_, k))). (e, k)
