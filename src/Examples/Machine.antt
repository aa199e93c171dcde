-- ===== src/Examples/Machine.antt =====
-- The machine of the DFU application, the system clock, pins and crashes on concrete inputs.
use swindle_bootloader_gd.Common.{
  ℕ, ◌*◌, ◌/◌, ◌≡◌, suc, refl, Bool, true, false, none, List, [], ◌∷◌, ◌==◌, if◌then◌else◌, arith,
  ◌>>◌, Returns,
}
use swindle_bootloader_gd.Bus.{Log, Env}
use swindle_bootloader_gd.Device.{manifest, boot}
use swindle_bootloader_gd.Dfu.Sized.{IsSized}
use swindle_bootloader_gd.Dfu.Quiet.{Event, request, polled, run}
use swindle_bootloader_gd.Dfu.Machine.{Follows}
use swindle_bootloader_gd.Dfu.Runs.{run-Follows, run-AsksEnd, AsksEnd, Any}
use swindle_bootloader_gd.Board.{on, off, pulse_low, pulse_high, fast_io, digital_write}
use swindle_bootloader_gd.Board.Levels.{level, fast_io-digital_write}
use swindle_bootloader_gd.Board.{CpuId}
use swindle_bootloader_gd.Clock.{rcu_cfg0, Clocks, init_system_clock}
use swindle_bootloader_gd.Clock.System.{Oscillates, Ready, input_clock, init_system_clock-Ready}
use swindle_bootloader_gd.System.Faults.{Faults, overrun, dead_end}
use swindle_bootloader_gd.System.Faults.Crash.{dead_end-overrun}
use swindle_bootloader_gd.Examples.World.{world, world-Settles, plain, gd256, class_request}

boot-IsSized : IsSized boot
unfolding boot
boot-IsSized = record { control = refl; shadow = refl; fits = omega arith }

-- A block, its poll and its callback, and the end of the firmware with its poll.
abbrev firmware : List Event
firmware =
    request (class_request 1 2 100) 100
    ∷ request (class_request 3 0 6) 6
    ∷ polled
    ∷ request (class_request 1 3 0) 0
    ∷ request (class_request 3 0 6) 6
    ∷ []

run-Follows_example :
    Returns
      (λ _ t. IsSized t × Follows boot.usbdfu_state firmware t.usbdfu_state)
      (run world 3 plain gd256 firmware boot)
run-Follows_example =
    run-Follows world 3 world-Settles plain gd256 (omega arith) firmware boot boot-IsSized

run-AsksEnd_example :
    Returns
      (λ _ t. t.usbdfu_state ≡ manifest → Any AsksEnd firmware)
      (run world 3 plain gd256 firmware boot)
unfolding boot
run-AsksEnd_example =
    run-AsksEnd world 3 plain gd256 firmware boot world-Settles (omega arith) boot-IsSized
      (λ e. ground arith)

-- The status of the clock's switch reads as zero, and every other register as ones.
abbrev clocked : Env
clocked h w a = if a == rcu_cfg0 then 0 else 0xffff_ffff

clocked-Oscillates : Oscillates clocked 2 false
clocked-Oscillates = record {
  irc8_starts = λ h on. (0, omega arith, refl);
  pll_locks = λ h on. (0, omega arith, refl);
  back = λ h chosen. (0, omega arith, refl);
  xtal_starts = λ e h on. (0, omega arith, refl);
}

abbrev stopped : Clocks
stopped = record {
  system_core_clock = 0;
  rcu_clock_apb1 = 0;
  rcu_clock_apb2 = 0;
  jtag_id = 0;
  log = [];
}

abbrev no_cpu : CpuId
no_cpu = record { cpu_id = 0; flash_size = 0; gd = false }

init_system_clock-Ready_example :
    Returns
      (λ _ t. Ready clocked 2 (input_clock false * (72 / input_clock false) * 1000000) t)
      (init_system_clock clocked 2 false 72 no_cpu stopped)
init_system_clock-Ready_example =
    init_system_clock-Ready clocked 2 false 72 no_cpu stopped clocked-Oscillates (omega arith)

abbrev low : ℕ → Bool
low pin = false

fast_io-digital_write_example :
    Returns
      (λ _ t. level low t 30 ≡ (if 30 == 30 then true else level low [] 30))
      (digital_write world 30 true [])
    × Returns
        (λ io _.
          (s : Log)
          → (on io s ≡ digital_write world 30 true s)
            × (off io s ≡ digital_write world 30 false s)
            × (pulse_low io s ≡ (do digital_write world 30 false; digital_write world 30 true) s)
            × (pulse_high io s ≡ (do digital_write world 30 true; digital_write world 30 false) s))
        (fast_io world 0 30 [])
fast_io-digital_write_example = fast_io-digital_write world 0 30 30 low true []

abbrev calm : Faults
calm = record {
  adc_irq_handler = none;
  cur_interrupt = 0;
  cur_ln_interrupt = 0;
  last_error_code = 0;
  log = [];
}

dead_end-overrun_example :
    dead_end (suc (suc (suc (suc 3)))) 0x90 calm ≡ overrun (record calm { last_error_code = 2 })
dead_end-overrun_example = dead_end-overrun 3 0x90 calm
