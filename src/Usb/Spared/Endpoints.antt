-- ===== src/Usb/Spared/Endpoints.antt =====
-- The endpoint operations of usb.cpp on the stack leave the boot loader's flash as it is.
use swindle_bootloader_gd.Common.{
  ℕ, ◌+◌, ◌-◌, ◌≤◌, ◌<◌, bit_and, Bool, true, false, not, ◌||◌, some, ◌==◌, if◌then◌else◌, arith,
  u16, set, bit_and-small,
}
use swindle_bootloader_gd.Common.Partial.{Any, Safe, Safe-done, Safe-bind, Safe-if, Safe-change}
use swindle_bootloader_gd.Bus.{word, Env}
use swindle_bootloader_gd.Flash.Spared.{before_ar-Clear, store-Spared}
use swindle_bootloader_gd.Usb.Registers.{
  usb_daddr, rx_nak, rx_valid, tx_nak, set_reg, set_ep_tx_addr, set_ep_rx_addr,
}
use swindle_bootloader_gd.Usb.State.{idle, on_hw}
use swindle_bootloader_gd.Usb.Packets.{
  ep_read_packet, ep_nak_set, ep_setup, ep_type, stall_transaction,
}
use swindle_bootloader_gd.Usb.Spared.{
  rx_stat-Spared, tx_stat-Spared, tx_dtog-Spared, rx_dtog-Spared, ep_type-Spared, ep_addr-Spared,
  read_packet-Spared, stall_set-Spared,
}
use swindle_bootloader_gd.Usb.Spared.Memory.{PacketMemory, entries-Spared, bufsize-Spared}
use swindle_bootloader_gd.Usb.Spared.State.{Sparing, on_hw-Sparing, set_fsm-Sparing}

-- A register of the USB unit
pub unit-Sparing :
    (r v : ℕ) → usb_daddr - 0x4C ≤ r → r < 0x4000_6000 → Safe Sparing Any (on_hw (set_reg r v))
unit-Sparing r v lo hi =
    on_hw-Sparing (store-Spared word r (u16 v) (before_ar-Clear r (omega arith) (omega arith)))

module _ (env : Env) where
  pub nak_set-Sparing : (nak : Bool) → Safe Sparing Any (ep_nak_set env 0 nak)
  unfolding ep_nak_set
  nak_set-Sparing nak = Safe-if (not (bit_and 0 0x80 == 0)) Safe-done (
      Safe-bind (Safe-change (λ s. record s { force_nak = set s.force_nak 0 nak }) λ s i. i) λ _ _.
        on_hw-Sparing (rx_stat-Spared env 0 (if nak then rx_nak else rx_valid) (omega arith)))

  pub stall-Sparing : Safe Sparing Any (stall_transaction env)
  unfolding stall_transaction
  stall-Sparing =
      Safe-bind (on_hw-Sparing (stall_set-Spared env 0 true (omega arith)))
        λ _ _. set_fsm-Sparing idle

  -- A packet of endpoint 0 is read.
  pub read-Sparing :
      (len : ℕ) → Safe Sparing Any (λ s. on_hw (ep_read_packet env s.force_nak 0 len) s)
  read-Sparing len = record {
    run = λ s i.
        Safe.run (on_hw-Sparing (read_packet-Spared env s.force_nak 0 len (omega arith))) s i;
  }

  pub forget-Sparing : Safe Sparing Any (λ t. some (tt, record t { complete_cb = false }))
  forget-Sparing = Safe-change (λ t. record t { complete_cb = false }) λ t j. j

  module _ (memory : PacketMemory env) where
    -- The place of the next buffer, for the transmit or the receive side.
    buffer_place-Sparing :
        (ep : ℕ)
        → ep < 256
        → Safe Sparing Any (λ s. on_hw (set_ep_tx_addr env ep s.pm_top) s)
          × Safe Sparing Any (λ s. on_hw (set_ep_rx_addr env ep s.pm_top) s)
    buffer_place-Sparing ep lt = (
      record {
        run = λ s i. Safe.run (on_hw-Sparing (entries-Spared env memory ep s.pm_top lt).0) s i;
      },
      record {
        run = λ s i. Safe.run (on_hw-Sparing (entries-Spared env memory ep s.pm_top lt).2) s i;
      },
    )

    pm_top-Sparing :
        (size : ℕ) → Safe Sparing Any (λ s. some (tt, record s { pm_top = u16 (s.pm_top + size) }))
    pm_top-Sparing size = Safe-change (λ s. record s { pm_top = u16 (s.pm_top + size) }) λ s i. i

    pub ep_setup-Sparing :
        (addr type size : ℕ) → addr < 256 → Safe Sparing Any (ep_setup env addr type size)
    unfolding ep_setup
    ep_setup-Sparing addr type size lt =
        let dir = bit_and addr 0x80 in
        let ep = bit_and addr 0x7F in
        let small = bit_and-small 8 addr 0x7F lt in
        Safe-bind (on_hw-Sparing (ep_addr-Spared env ep ep small)) λ _ _.
          Safe-bind (on_hw-Sparing (ep_type-Spared env ep (ep_type type) small)) λ _ _.
            Safe-bind
              (Safe-if (not (dir == 0) || ep == 0)
                (Safe-bind (buffer_place-Sparing ep small).0 λ _ _.
                  Safe-bind (on_hw-Sparing (tx_dtog-Spared env ep small)) λ _ _.
                    Safe-bind (on_hw-Sparing (tx_stat-Spared env ep tx_nak small))
                      λ _ _. pm_top-Sparing size)
                Safe-done)
              λ _ _.
                Safe-if (dir == 0)
                  (Safe-bind (buffer_place-Sparing ep small).1 λ _ _.
                    Safe-bind (on_hw-Sparing (bufsize-Spared env memory ep size small)) λ _ _.
                      Safe-bind (on_hw-Sparing (rx_dtog-Spared env ep small)) λ _ _.
                        Safe-bind (on_hw-Sparing (rx_stat-Spared env ep rx_valid small))
                          λ _ _. pm_top-Sparing size)
                  Safe-done
