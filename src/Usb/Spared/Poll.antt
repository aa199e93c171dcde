-- ===== src/Usb/Spared/Poll.antt =====
-- The poll of usb.cpp leaves the boot loader's flash as it is.
use swindle_bootloader_gd.Common.{
  ℕ, ◌-◌, ◌^◌, ◌<◌, bit_and, not, List, ◌==◌, arith, u16, bit_and-mask,
}
use swindle_bootloader_gd.Common.Partial.{Any, Safe, Safe-done, Safe-bind, Safe-if, Safe-change}
use swindle_bootloader_gd.Bus.{word, Env}
use swindle_bootloader_gd.Flash.Spared.{before_ar-Clear, load-Spared, store-Spared}
use swindle_bootloader_gd.Device.{Config, Chip}
use swindle_bootloader_gd.Usb.Registers.{usb_cntr, usb_istr, usb_daddr, ep_reg}
use swindle_bootloader_gd.Usb.State.{on_hw}
use swindle_bootloader_gd.Usb.Descriptors.{max_packet_size}
use swindle_bootloader_gd.Usb.Requests.{pm_top_start}
use swindle_bootloader_gd.Usb.Control.{clear_istr, transfer, bus_reset, do_usb_poll}
use swindle_bootloader_gd.Usb.Spared.{tx_ctr-Spared}
use swindle_bootloader_gd.Usb.Spared.Memory.{PacketMemory}
use swindle_bootloader_gd.Usb.Spared.State.{Sparing, on_hw-Sparing}
use swindle_bootloader_gd.Usb.Spared.Endpoints.{unit-Sparing, ep_setup-Sparing}
use swindle_bootloader_gd.Usb.Spared.Control.{setup-Sparing, out-Sparing, in-Sparing}

module _ (env : Env) (memory : PacketMemory env) (fuel : ℕ) (cfg : Config) (chip : Chip)
    (density : chip.flash_size < 2 ^ 16) (strings : List (List ℕ)) where
  clear-Sparing :
      (istr bit : ℕ) → Safe Sparing Any (on_hw (clear_istr env fuel cfg chip strings istr bit))
  clear-Sparing istr bit = on_hw-Sparing (
      Safe-if (bit_and istr bit == 0) Safe-done (
        store-Spared word usb_istr (u16 (0xFFFF_FFFF - bit))
          (before_ar-Clear usb_istr (omega arith) (omega arith))))

  transfer-Sparing : (istr : ℕ) → Safe Sparing Any (transfer env fuel cfg chip strings istr)
  unfolding transfer
  transfer-Sparing istr =
      let ep = bit_and istr 0x000F in
      let small = bit_and-mask 8 istr 0x000F (omega arith) in
      Safe-if (not (bit_and istr 0x0010 == 0))
        (Safe-bind (on_hw-Sparing (load-Spared env word (ep_reg ep))) λ v _.
          Safe-if (not (bit_and v 0x0800 == 0))
            (setup-Sparing env memory fuel cfg chip density strings)
            (out-Sparing env memory fuel cfg chip density strings))
        (Safe-bind (on_hw-Sparing (tx_ctr-Spared env ep small))
          λ _ _. in-Sparing env memory fuel cfg chip density strings)

  bus_reset-Sparing : Safe Sparing Any (bus_reset env fuel cfg chip strings)
  unfolding bus_reset
  bus_reset-Sparing =
      Safe-bind (unit-Sparing usb_istr (0xFFFF_FFFF - 0x0400) (omega arith) (omega arith)) λ _ _.
        Safe-bind (Safe-change (λ s. record s { pm_top = pm_top_start }) λ s i. i) λ _ _.
          Safe-bind (ep_setup-Sparing env memory 0 0 max_packet_size (omega arith))
            λ _ _. unit-Sparing usb_daddr 0x80 (omega arith) (omega arith)

  pub do_usb_poll-Sparing : Safe Sparing Any (do_usb_poll env fuel cfg chip strings)
  unfolding do_usb_poll
  do_usb_poll-Sparing = Safe-bind (on_hw-Sparing (load-Spared env word usb_istr)) λ v _.
      let istr = u16 v in
      Safe-if (not (bit_and istr 0x0400 == 0)) bus_reset-Sparing (
        Safe-bind (Safe-if (not (bit_and istr 0x8000 == 0)) (transfer-Sparing istr) Safe-done)
          λ _ _. Safe-bind (clear-Sparing istr 0x0800) λ _ _.
            Safe-bind (clear-Sparing istr 0x1000) λ _ _.
              Safe-bind (clear-Sparing istr 0x0200) λ _ _.
                Safe-bind (on_hw-Sparing (load-Spared env word usb_cntr)) λ c _. on_hw-Sparing (
                  store-Spared word usb_cntr (bit_and c (0xFFFF_FFFF - 0x0200))
                    (before_ar-Clear usb_cntr (omega arith) (omega arith))))
