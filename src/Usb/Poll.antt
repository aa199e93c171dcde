-- ===== src/Usb/Poll.antt =====
-- A poll of the USB unit: whatever the unit reports, do_usb_poll comes back and keeps what the stack
-- relies on.
use swindle_bootloader_gd.Common.{
  ℕ, ◌+◌, ◌-◌, ◌^◌, ◌≤◌, ◌<◌, refl, bit_and, Bool, true, false, not, ◌||◌, some, List, ◌==◌, u16,
  All, blit, length, Returns, returns, Returns-bind, Returns-if, Keeps, Keeps-pure, Keeps-bind,
  Keeps-if, Gives, Gives-if, ltb,
}
use swindle_bootloader_gd.Bus.{Done, word, Env, load, load-Gives, store-Gives}
use swindle_bootloader_gd.Flash.Settles.{Settles}
use swindle_bootloader_gd.Device.{Config, Chip, SetupData, dfu_transfer_size}
use swindle_bootloader_gd.Dfu.Sized.{IsSized}
use swindle_bootloader_gd.Usb.Registers.{
  set_reg, usb_daddr, usb_istr, usb_cntr, ep_reg, tx_nak, rx_valid, set_ep_addr, set_ep_type,
  set_ep_tx_addr, set_ep_rx_addr, set_ep_rx_count, clr_ep_tx_dtog, clr_ep_rx_dtog, clr_ep_tx_ctr,
  set_ep_tx_stat, set_ep_rx_stat,
}
use swindle_bootloader_gd.Usb.State.{Usb, on_hw}
use swindle_bootloader_gd.Usb.Descriptors.{max_packet_size}
use swindle_bootloader_gd.Usb.Packets.{
  ep_read_packet, ep_type, set_ep_rx_bufsize, ep_setup, stall_transaction,
}
use swindle_bootloader_gd.Usb.Requests.{pm_top_start}
use swindle_bootloader_gd.Usb.Control.{
  setup_bytes, setup_data, setup_stage, control_setup, clear_istr, transfer, bus_reset, do_usb_poll,
}
use swindle_bootloader_gd.Usb.Hardware.{PacketTable, Returns-on_hw}
use swindle_bootloader_gd.Usb.Dispatch.{FitsString}
use swindle_bootloader_gd.Usb.Serving.{Mild, Serving, on_hw-Serving}
use swindle_bootloader_gd.Usb.Stages.{
  ep_nak_set-Serving, refuse-Serving, setup_read-Serving, setup_write-Serving,
}
use swindle_bootloader_gd.Usb.Handlers.{control_out-Serving, control_in-Serving}

-- The host's setup packets: a class request for the interface announces at most 4096 bytes. What a
-- short packet does not bring is left of the last one.
abbrev pub Polite : Env → Type 0
Polite env =
    (nak : List Bool) (last : SetupData)
    → Mild last
    → Gives (λ bytes. Mild (setup_data (blit bytes (setup_bytes last))))
        (ep_read_packet env nak 0 8)

module _ (env : Env) where
  -- The writes of `_usb_ep_setup`, which come back.
  ep_writes-Done :
      (ep v : ℕ)
      → Done (set_ep_addr env ep v)
        × Done (set_ep_type env ep v)
        × Done (set_ep_tx_addr env ep v)
        × Done (set_ep_rx_addr env ep v)
        × Done (set_ep_tx_stat env ep v)
        × Done (set_ep_rx_stat env ep v)
        × Done (clr_ep_tx_dtog env ep)
        × Done (clr_ep_rx_dtog env ep)
  unfolding set_ep_addr set_ep_type set_ep_tx_addr set_ep_rx_addr set_ep_tx_stat set_ep_rx_stat
      clr_ep_tx_dtog clr_ep_rx_dtog
  ep_writes-Done ep v = (
    record { run = λ h. returns tt },
    record { run = λ h. returns tt },
    record { run = λ h. returns tt },
    record { run = λ h. returns tt },
    record { run = λ h. returns tt },
    record { run = λ h. returns tt },
    record { run = λ h. returns tt },
    record { run = λ h. returns tt },
  )

  bufsize-Done : (ep size : ℕ) → Done (set_ep_rx_bufsize env ep size)
  unfolding set_ep_rx_bufsize set_ep_rx_count
  bufsize-Done ep size =
      Gives-if (ltb 62 size) (record { run = λ h. returns tt }) (record { run = λ h. returns tt })

  clr_tx_ctr-Done : (ep : ℕ) → Done (clr_ep_tx_ctr env ep)
  unfolding clr_ep_tx_ctr
  clr_tx_ctr-Done ep = record { run = λ h. returns tt }

  set_reg-Done : (r v : ℕ) → Done (set_reg r v)
  set_reg-Done r v = record { run = λ h. returns tt }

  buffer_addr-Serving :
      (ep : ℕ)
      → Keeps Serving (λ s. on_hw (set_ep_tx_addr env ep s.pm_top) s)
        × Keeps Serving (λ s. on_hw (set_ep_rx_addr env ep s.pm_top) s)
  buffer_addr-Serving ep = (
    record { run = λ s b. Keeps.run (on_hw-Serving (ep_writes-Done ep s.pm_top).2) s b },
    record { run = λ s b. Keeps.run (on_hw-Serving (ep_writes-Done ep s.pm_top).3) s b },
  )

  pm_top-Serving :
      (size : ℕ) → Keeps Serving (λ s. some (tt, record s { pm_top = u16 (s.pm_top + size) }))
  pm_top-Serving size = record {
    run = λ s b. returns (record { sized = b.sized; cap = b.cap; mild = b.mild; room = b.room });
  }

  ep_setup-Serving : (addr type size : ℕ) → Keeps Serving (ep_setup env addr type size)
  unfolding ep_setup
  ep_setup-Serving addr type size =
      let dir = bit_and addr 0x80 in
      let ep = bit_and addr 0x7F in
      Keeps-bind (on_hw-Serving (ep_writes-Done ep ep).0) λ _.
        Keeps-bind (on_hw-Serving (ep_writes-Done ep (ep_type type)).1) λ _.
          Keeps-bind
            (Keeps-if (not (dir == 0) || ep == 0)
              (Keeps-bind (buffer_addr-Serving ep).0 λ _.
                Keeps-bind (on_hw-Serving (ep_writes-Done ep 0).6) λ _.
                  Keeps-bind (on_hw-Serving (ep_writes-Done ep tx_nak).4) λ _. pm_top-Serving size)
              (Keeps-pure tt))
            λ _.
              Keeps-if (dir == 0)
                (Keeps-bind (buffer_addr-Serving ep).1 λ _.
                  Keeps-bind (on_hw-Serving (bufsize-Done ep size)) λ _.
                    Keeps-bind (on_hw-Serving (ep_writes-Done ep 0).7) λ _.
                      Keeps-bind (on_hw-Serving (ep_writes-Done ep rx_valid).5)
                        λ _. pm_top-Serving size)
                (Keeps-pure tt)

module _ (env : Env) (table : PacketTable env) (polite : Polite env) (fuel : ℕ)
    (settles : Settles env fuel) (cfg : Config) (chip : Chip) (density : chip.flash_size < 2 ^ 16)
    (strings : List (List ℕ)) (fits : All FitsString strings) where
  bus_reset-Serving : Keeps Serving (bus_reset env fuel cfg chip strings)
  unfolding bus_reset
  bus_reset-Serving =
      Keeps-bind (on_hw-Serving (set_reg-Done env usb_istr (0xFFFF_FFFF - 0x0400))) λ _.
        Keeps-bind top-Serving λ _.
          Keeps-bind (ep_setup-Serving env 0 0 max_packet_size)
            λ _. on_hw-Serving (set_reg-Done env usb_daddr 0x80)
    where
      top-Serving : Keeps Serving (λ s. some (tt, record s { pm_top = pm_top_start }))
      top-Serving = record {
        run =
            λ s b. returns (record { sized = b.sized; cap = b.cap; mild = b.mild; room = b.room });
      }

  setup_stage-Serving :
      (bytes : List ℕ) (s : Usb)
      → IsSized s.dfu
      → s.datasize ≤ dfu_transfer_size
      → Mild (setup_data (blit bytes (setup_bytes s.req)))
      → Returns (λ _ t. Serving t) (setup_stage env fuel cfg chip strings bytes s)
  unfolding setup_stage
  setup_stage-Serving bytes s z cap mild =
      let r = setup_data (blit bytes (setup_bytes s.req)) in
      let t = record s { req = r } in
      Returns-if (not (length bytes == 8)) (stall_transaction env) _ t
        (λ _.
          refuse-Serving env {r = r} {start = s.dataoff} mild t
            (record { sized = z; cap = cap; same = refl; off = refl }))
        (λ _.
          Returns-if (r.length == 0 || not (bit_and r.request_type 0x80 == 0)) _ _ t
            (λ _. setup_read-Serving env fuel cfg chip strings fits t z cap mild)
            (λ _. setup_write-Serving env fuel cfg chip strings t z cap mild))

  setup-Serving : Keeps Serving (control_setup env fuel cfg chip strings)
  unfolding control_setup
  setup-Serving = record {
    run = λ s b.
        Returns-bind
          ((ep_nak_set-Serving env true).run (record s { complete_cb = false })
            (record { sized = b.sized; cap = b.cap; mild = b.mild; room = b.room }))
          λ _ t c.
            Returns-on_hw (ep_read_packet env t.force_nak 0 8)
              (setup_stage env fuel cfg chip strings) t (polite t.force_nak t.req c.mild)
              λ bytes h mild.
                setup_stage-Serving bytes (record t { dfu = record t.dfu { log = h } })
                  (record {
                    control = c.sized.control;
                    shadow = c.sized.shadow;
                    fits = c.sized.fits;
                  })
                  c.cap mild;
  }

  load-Serving : (a : ℕ) → Keeps Serving (on_hw (load env word a))
  load-Serving a = on_hw-Serving (load-Gives env word a)

  transfer-Serving : (istr : ℕ) → Keeps Serving (transfer env fuel cfg chip strings istr)
  unfolding transfer
  transfer-Serving istr =
      let ep = bit_and istr 0x000F in
      Keeps-if (not (bit_and istr 0x0010 == 0))
        (Keeps-bind (load-Serving (ep_reg ep)) λ v.
          Keeps-if (not (bit_and v 0x0800 == 0)) setup-Serving
            (control_out-Serving env table fuel settles cfg chip density strings fits))
        (Keeps-bind (on_hw-Serving (clr_tx_ctr-Done env ep))
          λ _. control_in-Serving env table fuel settles cfg chip density strings fits)

  clear-Serving :
      (istr bit : ℕ) → Keeps Serving (on_hw (clear_istr env fuel cfg chip strings istr bit))
  clear-Serving istr bit = on_hw-Serving (
      Gives-if (bit_and istr bit == 0) (record { run = λ h. returns tt })
        (set_reg-Done env usb_istr (0xFFFF_FFFF - bit)))

  -- Whatever the USB unit reports at a poll, the poll returns, and the arrays keep their sizes, the
  -- stale length stays within the buffer, and a data stage keeps room for its next packet. This is
  -- for a table of packets at its place, a host that announces class requests of at most 4096 bytes,
  -- a flash controller whose busy flag clears, and strings whose descriptors fit the buffer.
  pub do_usb_poll-Serving : Keeps Serving (do_usb_poll env fuel cfg chip strings)
  unfolding do_usb_poll
  do_usb_poll-Serving = Keeps-bind (load-Serving usb_istr) λ v.
      let istr = u16 v in
      Keeps-if (not (bit_and istr 0x0400 == 0)) bus_reset-Serving (
        Keeps-bind
          (Keeps-if (not (bit_and istr 0x8000 == 0)) (transfer-Serving istr) (Keeps-pure tt))
          λ _. Keeps-bind (clear-Serving istr 0x0800) λ _.
            Keeps-bind (clear-Serving istr 0x1000) λ _. Keeps-bind (clear-Serving istr 0x0200) λ _.
              Keeps-bind (load-Serving usb_cntr)
                λ c. on_hw-Serving (store-Gives word usb_cntr (bit_and c (0xFFFF_FFFF - 0x0200))))
