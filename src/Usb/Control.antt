-- ===== src/Usb/Control.antt =====
-- The control transfers of src_stage2/usb.cpp: setup, data and status stages, and the poll.
use swindle_bootloader_gd.Common.{
  ℕ, ◌+◌, ◌-◌, ◌*◌, ◌/◌, ◌%◌, ◌^◌, bit_and, bit_or, Bool, true, false, not, ◌&&◌, ◌||◌, some, List,
  [], ◌∷◌, leb, ltb, ◌==◌, if◌then◌else◌, u16, length, drop, blit, byte_at, M, pure, ◌>>=◌, ◌>>◌,
}
use swindle_bootloader_gd.Bus.{word, Log, Env, load, store}
use swindle_bootloader_gd.Device.{Config, Chip, SetupData, ReturnCode, notsupp, dfu_transfer_size}
use swindle_bootloader_gd.Dfu.{usbdfu_getstatus_complete}
use swindle_bootloader_gd.Usb.Registers.{
  usb_cntr, usb_istr, usb_daddr, ep_reg, set_reg, clr_ep_tx_ctr,
}
use swindle_bootloader_gd.Usb.State.{
  Fsm, idle, data_in, last_data_in, status_in, data_out, last_data_out, status_out, Usb, on_hw,
  on_dfu, set_fsm, set_datasize, put_at, put_buffer,
}
use swindle_bootloader_gd.Usb.Packets.{
  ep_write_packet, ep_read_packet, ep_nak_set, ep_setup, stall_transaction,
}
use swindle_bootloader_gd.Usb.Descriptors.{max_packet_size}
use swindle_bootloader_gd.Usb.Requests.{pm_top_start, control_request_dispatch}

-- `_needs_zlp`
unfoldable pub needs_zlp : ℕ → ℕ → ℕ → Bool
needs_zlp len wlength ep_size = ltb len wlength && (not (len == 0) && (len % ep_size == 0))

-- The eight bytes of `struct usb_setup_data`, and their meaning.
unfoldable pub setup_bytes : SetupData → List ℕ
setup_bytes r =
    r.request_type
    ∷ r.request
    ∷ r.value % 256
    ∷ r.value / 256
    ∷ r.index % 256
    ∷ r.index / 256
    ∷ r.length % 256
    ∷ r.length / 256
    ∷ []

unfoldable pub setup_data : List ℕ → SetupData
setup_data p = record {
  request_type = byte_at p 0;
  request = byte_at p 1;
  value = byte_at p 2 + byte_at p 3 * 256;
  index = byte_at p 4 + byte_at p 5 * 256;
  length = byte_at p 6 + byte_at p 7 * 256;
}

abbrev pub expected_packet : ℕ → ℕ → ℕ
expected_packet wlength datasize =
    if ltb (datasize + max_packet_size) wlength
    then max_packet_size
    else (wlength + 2 ^ 16 - datasize) % 2 ^ 16

module _ (env : Env) (fuel : ℕ) (cfg : Config) (chip : Chip) (strings : List (List ℕ)) where
  -- `_usbd_ep_write_packet(0, &usbd_control_buffer[off], len)`
  unfoldable pub send_buffer : ℕ → ℕ → M Usb ℕ
  unfolding ep_write_packet
  send_buffer off len s = on_hw (ep_write_packet env 0 (drop off s.dfu.control_buffer) len) s

  unfoldable pub control_send_chunk : M Usb (Unit {0})
  unfolding send_buffer
  control_send_chunk s =
      (if ltb max_packet_size s.datasize
          then (do
            _ ← send_buffer s.dataoff max_packet_size
            λ t. some (
              tt,
              record t {
                fsm = data_in;
                dataoff = u16 (t.dataoff + max_packet_size);
                datasize = t.datasize - max_packet_size;
              },
            ))
          else (do
            _ ← send_buffer s.dataoff s.datasize
            λ t. some (
              tt,
              record t {
                fsm = if t.needs_zlp then data_in else last_data_in;
                needs_zlp = false;
                datasize = 0;
              },
            )))
        s

  -- The result says that the packet had the expected size, where the code returns it and not -1.
  -- The difference of `wLength` and `datasize` is an `int` that is cut to 16 bits.
  unfoldable pub control_recv_chunk : M Usb Bool
  unfolding ep_read_packet stall_transaction put_at
  control_recv_chunk s =
      let packetsize = expected_packet s.req.length s.datasize in
      (do
        bytes ← on_hw (ep_read_packet env s.force_nak 0 packetsize)
        put_buffer s.datasize bytes
        if length bytes == packetsize
            then (do set_datasize (u16 (s.datasize + length bytes)); pure true)
            else (do stall_transaction env; pure false))
        s

  -- `_usbd_ep_write_packet(0, 0, 0)` and the status stage behind it
  unfoldable pub send_status : M Usb (Unit {0})
  unfolding ep_write_packet
  send_status = do _ ← on_hw (ep_write_packet env 0 [] 0); set_fsm status_in

  -- The body of `_usb_control_setup_read` for a request that was handled.
  unfoldable pub start_reply : M Usb (Unit {0})
  unfolding control_send_chunk send_status needs_zlp
  start_reply s =
      let wlength = s.req.length in
      let size = if ltb wlength s.datasize then wlength else s.datasize in
      (if wlength == 0 then send_status else control_send_chunk) (record s {
        datasize = size;
        needs_zlp = if wlength == 0 then s.needs_zlp else needs_zlp size wlength max_packet_size;
      })

  abbrev pub when_handled : ReturnCode → M Usb (Unit {0}) → M Usb (Unit {0})
  when_handled notsupp m = stall_transaction env
  when_handled _ m = m

  unfoldable pub control_setup_read : M Usb (Unit {0})
  unfolding control_request_dispatch stall_transaction start_reply
  control_setup_read = do
    λ s. some (tt, record s { dataoff = 0 })
    code ← control_request_dispatch env cfg chip strings
    when_handled code start_reply

  unfoldable pub control_setup_write : M Usb (Unit {0})
  unfolding stall_transaction ep_nak_set
  control_setup_write s =
      (if ltb dfu_transfer_size s.req.length then stall_transaction env else (do
        set_datasize 0
        set_fsm (if ltb max_packet_size s.req.length then data_out else last_data_out)
        ep_nak_set env 0 false))
        s

  -- `_usb_control_setup` behind the read: the setup packet is stored over the last one, as far as it
  -- goes.
  unfoldable pub setup_stage : List ℕ → M Usb (Unit {0})
  unfolding stall_transaction control_setup_read control_setup_write setup_bytes setup_data
  setup_stage bytes s =
      let t = record s { req = setup_data (blit bytes (setup_bytes s.req)) } in
      (if not (length bytes == 8)
          then stall_transaction env
          else if t.req.length == 0 || not (bit_and t.req.request_type 0x80 == 0)
          then control_setup_read
          else control_setup_write)
        t

  unfoldable pub control_setup : M Usb (Unit {0})
  unfolding ep_nak_set ep_read_packet setup_stage
  control_setup = do
    λ s. some (tt, record s { complete_cb = false })
    ep_nak_set env 0 true
    bytes ← λ s. on_hw (ep_read_packet env s.force_nak 0 8) s
    setup_stage bytes

  -- `if (usb_complete_cb) usb_complete_cb(&usb_req);`
  unfoldable pub call_complete : M Usb (Unit {0})
  unfolding usbdfu_getstatus_complete
  call_complete s =
      (if s.complete_cb then on_dfu (usbdfu_getstatus_complete env fuel cfg chip) else pure tt) s

  -- The switches of the two transaction handlers.
  unfoldable pub control_out_in : Fsm → M Usb (Unit {0})
  unfolding control_recv_chunk control_request_dispatch send_status stall_transaction ep_read_packet
      call_complete
  control_out_in data_out = do
    good ← control_recv_chunk
    λ s.
        (if good && leb s.req.length (s.datasize + max_packet_size)
            then set_fsm last_data_out
            else pure tt)
          s
  control_out_in last_data_out = do
    good ← control_recv_chunk
    if good
        then (do
          code ← control_request_dispatch env cfg chip strings
          when_handled code send_status)
        else pure tt
  control_out_in status_out = do
    _ ← λ s. on_hw (ep_read_packet env s.force_nak 0 0) s
    set_fsm idle
    call_complete
    λ s. some (tt, record s { complete_cb = false })
  control_out_in _ = stall_transaction env

  unfoldable pub control_out : M Usb (Unit {0})
  unfolding control_out_in
  control_out s = control_out_in s.fsm s

  unfoldable pub control_in_in : Fsm → M Usb (Unit {0})
  unfolding control_send_chunk ep_nak_set call_complete stall_transaction
  control_in_in data_in = control_send_chunk
  control_in_in last_data_in = do set_fsm status_out; ep_nak_set env 0 false
  control_in_in status_in = do
    call_complete
    λ s.
        (if s.req.request_type == 0 && s.req.request == 5
            then on_hw (set_reg usb_daddr (bit_or (bit_and s.req.value 0x7F) 0x80))
            else pure tt)
          s
    set_fsm idle
  control_in_in _ = stall_transaction env

  unfoldable pub control_in : M Usb (Unit {0})
  unfolding control_in_in
  control_in s = control_in_in s.fsm s

  abbrev pub clear_istr : ℕ → ℕ → M Log (Unit {0})
  clear_istr istr bit =
      if bit_and istr bit == 0 then pure tt else set_reg usb_istr (0xFFFF_FFFF - bit)

  -- The transaction that CTR announces.
  unfoldable pub transfer : ℕ → M Usb (Unit {0})
  unfolding control_setup control_out control_in clr_ep_tx_ctr
  transfer istr =
      let ep = bit_and istr 0x000F in
      if not (bit_and istr 0x0010 == 0)
      then (do
        v ← on_hw (load env word (ep_reg ep))
        if not (bit_and v 0x0800 == 0) then control_setup else control_out)
      else (do on_hw (clr_ep_tx_ctr env ep); control_in)

  unfoldable pub bus_reset : M Usb (Unit {0})
  unfolding ep_setup
  bus_reset = do
    on_hw (set_reg usb_istr (0xFFFF_FFFF - 0x0400))
    λ s. some (tt, record s { pm_top = pm_top_start })
    ep_setup env 0 0 max_packet_size
    on_hw (set_reg usb_daddr 0x80)

  unfoldable pub do_usb_poll : M Usb (Unit {0})
  unfolding transfer bus_reset
  do_usb_poll = do
    v ← on_hw (load env word usb_istr)
    let istr = u16 v
    if not (bit_and istr 0x0400 == 0) then bus_reset else (do
      if not (bit_and istr 0x8000 == 0) then transfer istr else pure tt
      on_hw (clear_istr istr 0x0800)
      on_hw (clear_istr istr 0x1000)
      on_hw (clear_istr istr 0x0200)
      c ← on_hw (load env word usb_cntr)
      on_hw (store word usb_cntr (bit_and c (0xFFFF_FFFF - 0x0200))))
