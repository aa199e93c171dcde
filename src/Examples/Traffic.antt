-- ===== src/Examples/Traffic.antt =====
-- The USB stack on a concrete unit: each poll finds a setup packet on endpoint 0, the class request
-- DFU_DETACH with a length of 8 bytes.
use swindle_bootloader_gd.Common.{
  ℕ, ◌+◌, ◌*◌, ◌^◌, refl, false, [], ◌∷◌, ◌==◌, get_or, if◌then◌else◌, arith, replicate, Returns,
  returns, Returns-bind, Keeps, Gives, Gives-pure, Gives-if,
}
use swindle_bootloader_gd.Common.Words.{byte_at}
use swindle_bootloader_gd.Usb.Requests.{strlen}
use swindle_bootloader_gd.Bus.{Width, half, Env}
use swindle_bootloader_gd.Flash.{flash_sr}
use swindle_bootloader_gd.Flash.Settles.{Settles}
use swindle_bootloader_gd.Device.{boot, dnload_idle}
use swindle_bootloader_gd.Usb.Registers.{usb_istr, ep_reg, rx_valid}
use swindle_bootloader_gd.Usb.State.{data_out, Usb}
use swindle_bootloader_gd.Usb.Packets.{ep_read_packet}
use swindle_bootloader_gd.Usb.Control.{setup_bytes, setup_data, do_usb_poll}
use swindle_bootloader_gd.Usb.Hardware.{rx_count, PacketTable, set_ep_rx_stat-Done}
use swindle_bootloader_gd.Usb.Serving.{Serving}
use swindle_bootloader_gd.Usb.State.{power_on}
use swindle_bootloader_gd.Stage2.{main_loop, loop_start, run_stage2}
use swindle_bootloader_gd.Stage2.Entry.{Starts}
use swindle_bootloader_gd.Stage2.Whole.{loop_start-Polling, run_stage2-Spared}
use swindle_bootloader_gd.Clock.{rcu_ctl}
use swindle_bootloader_gd.Stage2.Loop.{Ended}
use swindle_bootloader_gd.Stage2.Spared.{main_loop-Spared}
use swindle_bootloader_gd.Flash.Spared.{Spared}
use swindle_bootloader_gd.Usb.Spared.Memory.{PacketMemory}
use swindle_bootloader_gd.Usb.Poll.{Polite, do_usb_poll-Serving}
use swindle_bootloader_gd.Examples.World.{busy_after, guarded, gd256, class_request}

abbrev packet_byte : Width → ℕ
packet_byte half = 0x21
packet_byte _ = 0

abbrev unit : Env
unit h w a =
    if a == flash_sr
    then busy_after h
    else if a == usb_istr
    then 0x8010
    else if a == ep_reg 0
    then 0x0800
    else if a == rx_count
    then 8
    else if a == rcu_ctl
    then 2 ^ 17 + 2 ^ 25
    else if a == 0x1FFFF7E0
    then 256
    else packet_byte w

unit-Settles : Settles unit 3
unit-Settles h = (1, omega arith, refl)

unit-PacketTable : PacketTable unit
unit-PacketTable = record { base = λ h. refl; count = λ h. refl }

unit-Polite : Polite unit
unfolding ep_read_packet setup_data setup_bytes byte_at
unit-Polite nak last mild = record {
  run = λ h.
      Returns-bind
        (Gives.run
          (Gives-if (get_or false nak 0) (Gives-pure tt tt) (set_ep_rx_stat-Done unit 0 rx_valid))
          _)
        λ _ _ _. returns (λ e. omega arith);
}

do_usb_poll-Serving_example :
    Keeps Serving (do_usb_poll unit 3 guarded gd256 ((72 ∷ 105 ∷ 0 ∷ []) ∷ []))
unfolding strlen
do_usb_poll-Serving_example =
    do_usb_poll-Serving unit unit-PacketTable unit-Polite 3 unit-Settles guarded gd256 (omega arith)
      ((72 ∷ 105 ∷ 0 ∷ []) ∷ []) (omega arith, tt)

-- 64 of 100 bytes have arrived.
abbrev receiving : Usb
receiving = record {
  fsm = data_out;
  datasize = 64;
  dataoff = 0;
  pm_top = 0;
  needs_zlp = false;
  req = class_request 1 2 100;
  force_nak = replicate 8 false;
  complete_cb = false;
  dfu = record {
    control_buffer = replicate 4096 0;
    prog = record { buf = replicate 4096 0; len = 0; addr = 0; blocknum = 0 };
    usbdfu_state = dnload_idle;
    erased = false;
    log = [];
  };
}

unit-PacketMemory : PacketMemory unit
unit-PacketMemory = record { base = λ h. refl; buffer = λ h. omega arith }

main_loop-Spared_example :
    Returns
      (λ o t. Ended o t × Spared t.stack.dfu.log)
      (main_loop unit 3 guarded gd256
        ((72 ∷ 105 ∷ 0 ∷ []) ∷ [])
        false
        (λ n. 50 * n)
        7
        (loop_start 0 []))
unfolding strlen loop_start power_on boot Spared
main_loop-Spared_example =
    main_loop-Spared unit unit-PacketMemory 3 guarded gd256 (omega arith) ((72 ∷ 105 ∷ 0 ∷ []) ∷ [])
      false unit-PacketTable unit-Polite unit-Settles (omega arith, tt) (λ n. 50 * n) 7
      (loop_start 0 []) (loop_start-Polling 0 []) tt

unit-Starts : Starts unit 3 0 false
unit-Starts = (λ h on. (0, omega arith, refl), λ h on. (0, omega arith, refl))

run_stage2-Spared_example :
    Returns
      (λ o t. Ended o t × Spared t.stack.dfu.log)
      (run_stage2 unit 3 0 guarded (49 ∷ 46 ∷ 48 ∷ []) false 0x2000_0000 5 0 (λ n. 50 * n) 7 [])
run_stage2-Spared_example =
    run_stage2-Spared unit unit-PacketMemory unit-PacketTable unit-Polite (λ h. omega arith) 3
      unit-Settles 0 guarded (49 ∷ 46 ∷ 48 ∷ []) (omega arith) false unit-Starts 0x2000_0000 5 0
      (λ n. 50 * n) 7 (omega arith) (omega arith)
