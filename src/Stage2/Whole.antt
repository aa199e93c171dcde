-- ===== src/Stage2/Whole.antt =====
-- Stage 2 from its entry on, through any number of rounds of its loop.
use swindle_bootloader_gd.Common.{
  ℕ, ◌+◌, ◌*◌, ◌≤◌, ◌<◌, refl, Bool, Option, none, some, List, [], All, length, arith, Returns,
  returns,
}
use swindle_bootloader_gd.Common.Partial.{Returns-Holds}
use swindle_bootloader_gd.Bus.{Log, Env}
use swindle_bootloader_gd.Flash.Settles.{Settles}
use swindle_bootloader_gd.Flash.Spared.{Spared}
use swindle_bootloader_gd.Device.{Config, start_addr, boot}
use swindle_bootloader_gd.Board.{CpuId}
use swindle_bootloader_gd.Usb.State.{power_on}
use swindle_bootloader_gd.Usb.Hardware.{PacketTable}
use swindle_bootloader_gd.Usb.Dispatch.{FitsString}
use swindle_bootloader_gd.Usb.Poll.{Polite}
use swindle_bootloader_gd.Usb.Spared.Memory.{PacketMemory}
use swindle_bootloader_gd.Stage2.{stage2_entry, chip_of, loop_start, main_loop, run_stage2}
use swindle_bootloader_gd.Stage2.Loop.{Polling, Ended}
use swindle_bootloader_gd.Stage2.Entry.{Starts, HoldsLoader, IsFound, stage2_entry-latest}
use swindle_bootloader_gd.Stage2.Spared.{main_loop-Spared}
use swindle_bootloader_gd.Stage2.Spared.Setup.{stage2_entry-Spared}

pub loop_start-Polling : (start : ℕ) (h : Log) → Polling (loop_start start h)
unfolding loop_start power_on boot
loop_start-Polling start h = record {
  serving = record {
    sized = record { control = refl; shadow = refl; fits = omega arith };
    cap = omega arith;
    mild = λ e. omega arith;
    room = tt;
  };
  no_reset = refl;
}

module _ (env : Env) (memory : PacketMemory env) (table : PacketTable env) (polite : Polite env)
    (large : HoldsLoader env) (fuel : ℕ) (settles : Settles env fuel) (unset : ℕ) (cfg : Config)
    (version : List ℕ) (small : length version ≤ 2000) (crystalless : Bool)
    (starts : Starts env fuel unset crystalless) where
  after_entry :
      (P : Log → Type 0) (start : ℕ) (ticks : ℕ → ℕ) (n : ℕ)
      (o : Option ((CpuId × List (List ℕ)) × Log))
      → Returns (λ r h. (P h × IsFound r.0 × All FitsString r.1) × (Unit {0} × Spared h)) o
      → Returns
          (λ o t. Ended o t × Spared t.stack.dfu.log)
          (elim o [
            | none ↦ none
            | some ((id, strings), h) ↦
                main_loop env fuel cfg (chip_of id) strings crystalless ticks n (loop_start start h)
          ])
  unfolding loop_start
  after_entry P start ticks n none r = elim r [ ]
  after_entry P start ticks n (some ((id, strings), h)) (returns ((p, found, fits), (_, spared))) =
      main_loop-Spared env memory fuel cfg (chip_of id) found.1 strings crystalless table polite
        settles fits ticks n (loop_start start h) (loop_start-Polling start h) spared

  -- Stage 2 comes from its entry through any number of rounds of its loop: either the application does
  -- not ask for a reset, and the stack is as a poll leaves it, or the application asked for one, and
  -- the last access wrote the reset's key and request. Whatever the host sends, the whole run writes
  -- no address of the boot loader's flash and names no page of it to erase. This is for a chip whose
  -- flash holds the boot loader, oscillators that start, a flash controller whose busy flag clears, a
  -- table of packets at its place with the transmit buffer of endpoint 0 in the packet memory, a host
  -- that announces class requests of at most 4096 bytes, a version of at most 2000 bytes, and a .bss
  -- between the boot loader and the peripherals. A mass erase is not covered: the code writes the bit
  -- for it back as it reads it.
  pub run_stage2-Spared :
      (bss_start bss_words start : ℕ) (ticks : ℕ → ℕ) (n : ℕ)
      → start_addr ≤ bss_start
      → bss_start + 4 * bss_words < 0x4000_0000
      → Returns
          (λ o t. Ended o t × Spared t.stack.dfu.log)
          (run_stage2 env fuel unset cfg version crystalless bss_start bss_words start ticks n [])
  unfolding run_stage2 Spared
  run_stage2-Spared bss_start bss_words start ticks n lo hi =
      after_entry _ start ticks n
        (stage2_entry env fuel unset crystalless version bss_start bss_words [])
        (Returns-Holds
          (stage2_entry-latest env fuel unset crystalless version bss_start bss_words [] small large
            starts)
          ((stage2_entry-Spared env fuel unset crystalless version bss_start bss_words lo hi).run []
            tt))
