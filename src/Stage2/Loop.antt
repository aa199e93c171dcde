-- ===== src/Stage2/Loop.antt =====
-- The main loop of stage 2: it goes on, or ends in a reset.
use swindle_bootloader_gd.Common.{
  ℕ, zero, suc, ◌^◌, ◌<◌, ◌≡◌, refl, ap, Bool, true, false, ltb, Option, none, some, List, ◌∷◌, All,
  M, Returns, returns, Returns-bind, Returns-if, Keeps,
}
use swindle_bootloader_gd.Bus.{word, write, Log, Env}
use swindle_bootloader_gd.Flash.Settles.{Settles}
use swindle_bootloader_gd.Device.{Config, Chip, DfuState, manifest}
use swindle_bootloader_gd.Board.{digital_write}
use swindle_bootloader_gd.Usb.State.{Usb}
use swindle_bootloader_gd.Usb.Hardware.{PacketTable}
use swindle_bootloader_gd.Usb.Dispatch.{FitsString}
use swindle_bootloader_gd.Usb.Serving.{Serving}
use swindle_bootloader_gd.Usb.Poll.{Polite, do_usb_poll-Serving}
use swindle_bootloader_gd.Stage2.{
  MainLoop, Outcome, running, was_reset, aircr, on_stack, blink, after_poll, main_round, main_loop,
  full_system_reset, next_round,
}
use swindle_bootloader_gd.Usb.Control.{do_usb_poll}

abbrev is_manifest : DfuState → Bool
is_manifest manifest = true
is_manifest _ = false

-- The stack is as a poll leaves it, and the application does not ask for a reset.
pub record Polling (s : MainLoop) : Type 0 where
  pub serving : Serving s.stack
  pub no_reset : is_manifest s.stack.dfu.usbdfu_state ≡ false

-- The application asks for a reset, and the last access wrote the reset's key and request.
pub record Reset (s : MainLoop) : Type 0 where
  pub asked : s.stack.dfu.usbdfu_state ≡ manifest
  pub before : Log
  pub last : s.stack.dfu.log ≡ write word aircr 0x05FA0004 ∷ before

abbrev pub Ended : Outcome → MainLoop → Type 0
Ended running s = Polling s
Ended was_reset s = Reset s

on_stack-Returns :
    {A : Type 0} (m : M Usb A) (s : MainLoop)
    → Keeps Serving m
    → Serving s.stack
    → Returns (λ _ t. Serving t.stack) (on_stack m s)
on_stack-Returns {A} m s k z = after (m s.stack) (k.run s.stack z)
  where
    after :
        (o : Option (A × Usb))
        → Returns (λ _ u. Serving u) o
        → Returns
            (λ _ t. Serving t.stack)
            (elim o [ none ↦ none | some (a, u) ↦ some (a, record s { stack = u }) ])
    after none r = elim r [ ]
    after (some (a, u)) (returns p) = returns p

module _ (env : Env) (fuel : ℕ) (cfg : Config) (chip : Chip) (strings : List (List ℕ))
    (crystalless : Bool) where
  blink-Polling : (tick : ℕ) → Keeps Polling (blink env fuel cfg chip strings crystalless tick)
  unfolding blink digital_write
  blink-Polling tick = record {
    run = λ s p.
        Returns-if (ltb s.next_tick tick) _ _ s
          (λ _. returns (record {
            serving = record {
              sized = record {
                control = p.serving.sized.control;
                shadow = p.serving.sized.shadow;
                fits = p.serving.sized.fits;
              };
              cap = p.serving.cap;
              mild = p.serving.mild;
              room = p.serving.room;
            };
            no_reset = p.no_reset;
          }))
          (λ _. returns p);
  }

  after_poll-Ended :
      (st : DfuState) (tick : ℕ) (s : MainLoop)
      → Serving s.stack
      → s.stack.dfu.usbdfu_state ≡ st
      → Returns Ended (after_poll env fuel cfg chip strings crystalless st tick s)
  unfolding after_poll full_system_reset
  after_poll-Ended manifest tick s z e =
      returns (record { asked = e; before = s.stack.dfu.log; last = refl })
  after_poll-Ended _ tick s z e =
      Returns-bind
        (Keeps.run (blink-Polling tick) s (record { serving = z; no_reset = ap is_manifest e }))
        λ _ t p. returns p

next_round-Ended :
    (o : Outcome) (t : MainLoop) (rest : M MainLoop Outcome)
    → (Polling t → Returns Ended (rest t))
    → Ended o t
    → Returns Ended (next_round o rest t)
next_round-Ended was_reset t rest next e = returns e
next_round-Ended running t rest next e = next e

module _ (env : Env) (table : PacketTable env) (polite : Polite env) (fuel : ℕ)
    (settles : Settles env fuel) (cfg : Config) (chip : Chip) (density : chip.flash_size < 2 ^ 16)
    (strings : List (List ℕ)) (fits : All FitsString strings) (crystalless : Bool) where
  main_round-Ended :
      (tick : ℕ) (s : MainLoop)
      → Polling s
      → Returns Ended (main_round env fuel cfg chip strings crystalless tick s)
  unfolding main_round
  main_round-Ended tick s p =
      Returns-bind
        (on_stack-Returns (do_usb_poll env fuel cfg chip strings) s
          (do_usb_poll-Serving env table polite fuel settles cfg chip density strings fits)
          p.serving)
        λ _ t z.
          after_poll-Ended env fuel cfg chip strings crystalless t.stack.dfu.usbdfu_state tick t z
            refl

  -- Any number of rounds of the main loop comes back, at whatever times: either the application does
  -- not ask for a reset, and the stack is as a poll leaves it, or the application asked for one, and
  -- the last access of the run wrote the reset's key and request. The hardware and the host are as
  -- for one poll.
  pub main_loop-Ended :
      (ticks : ℕ → ℕ) (n : ℕ) (s : MainLoop)
      → Polling s
      → Returns Ended (main_loop env fuel cfg chip strings crystalless ticks n s)
  unfolding main_loop
  main_loop-Ended ticks zero s p = returns p
  main_loop-Ended ticks (suc n) s p = Returns-bind (main_round-Ended (ticks n) s p) λ o t e.
      next_round-Ended o t (main_loop env fuel cfg chip strings crystalless ticks n)
        (main_loop-Ended ticks n t) e
