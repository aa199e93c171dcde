-- ===== src/Usb/Spared/Control.antt =====
-- The stages of a control transfer of usb.cpp leave the boot loader's flash as it is.
use swindle_bootloader_gd.Common.{
  ℕ, ◌+◌, ◌-◌, ◌^◌, ◌≤◌, ◌<◌, bit_and, bit_or, true, false, not, ◌&&◌, ◌||◌, List, [], leb, ltb,
  ◌==◌, if◌then◌else◌, arith, u16, length, drop, blit, M, pure,
}
use swindle_bootloader_gd.Common.Partial.{
  Any, Safe, Safe-pure, Safe-done, Safe-bind, Safe-if, Safe-test, Safe-change,
}
use swindle_bootloader_gd.Bus.{Env}
use swindle_bootloader_gd.Device.{
  Config, Chip, ReturnCode, notsupp, handled, next_callback, dfu_transfer_size,
}
use swindle_bootloader_gd.Dfu.Spared.{getstatus_complete-Spares}
use swindle_bootloader_gd.Usb.Registers.{usb_daddr, set_reg}
use swindle_bootloader_gd.Usb.State.{
  Fsm, idle, data_in, last_data_in, status_in, data_out, last_data_out, status_out, Usb, on_hw,
}
use swindle_bootloader_gd.Usb.Descriptors.{max_packet_size}
use swindle_bootloader_gd.Usb.Control.{
  needs_zlp, setup_bytes, setup_data, expected_packet, send_buffer, control_send_chunk,
  control_recv_chunk, send_status, start_reply, when_handled, control_setup_read,
  control_setup_write, setup_stage, control_setup, call_complete, control_out_in, control_out,
  control_in_in, control_in,
}
use swindle_bootloader_gd.Usb.Spared.{read_packet-Spared}
use swindle_bootloader_gd.Usb.Spared.Memory.{PacketMemory, write_packet-Spared}
use swindle_bootloader_gd.Usb.Spared.State.{
  Sparing, on_hw-Sparing, on_dfu-Sparing, set_fsm-Sparing, set_datasize-Sparing, put_buffer-Sparing,
}
use swindle_bootloader_gd.Usb.Spared.Requests.{dispatch-Sparing}
use swindle_bootloader_gd.Usb.Spared.Endpoints.{
  unit-Sparing, nak_set-Sparing, stall-Sparing, read-Sparing, forget-Sparing,
}

module _ (env : Env) (memory : PacketMemory env) (fuel : ℕ) (cfg : Config) (chip : Chip)
    (density : chip.flash_size < 2 ^ 16) (strings : List (List ℕ)) where
  send_buffer-Sparing :
      (off len : ℕ) → len ≤ 64 → Safe Sparing Any (send_buffer env fuel cfg chip strings off len)
  unfolding send_buffer
  send_buffer-Sparing off len small = record {
    run = λ s i.
        Safe.run
          (on_hw-Sparing (write_packet-Spared env memory (drop off s.dfu.control_buffer) len small))
          s i;
  }

  send_chunk-Sparing : Safe Sparing Any (control_send_chunk env fuel cfg chip strings)
  unfolding control_send_chunk
  send_chunk-Sparing = record {
    run = λ s i.
        Safe.run
          (Safe-test (ltb max_packet_size s.datasize)
            (λ e. Safe-bind (send_buffer-Sparing s.dataoff max_packet_size (omega arith)) λ _ _.
              Safe-change
                (λ t. record t {
                  fsm = data_in;
                  dataoff = u16 (t.dataoff + max_packet_size);
                  datasize = t.datasize - max_packet_size;
                })
                λ t j. j)
            (λ e. Safe-bind (send_buffer-Sparing s.dataoff s.datasize (ground arith)) λ _ _.
              Safe-change
                (λ t. record t {
                  fsm = if t.needs_zlp then data_in else last_data_in;
                  needs_zlp = false;
                  datasize = 0;
                })
                λ t j. j))
          s i;
  }

  recv_chunk-Sparing : Safe Sparing Any (control_recv_chunk env fuel cfg chip strings)
  unfolding control_recv_chunk
  recv_chunk-Sparing = record {
    run = λ s i.
        let size = expected_packet s.req.length s.datasize in
        Safe.run
          (Safe-bind (on_hw-Sparing (read_packet-Spared env s.force_nak 0 size (omega arith)))
            λ bytes _. Safe-bind (put_buffer-Sparing s.datasize bytes) λ _ _.
              Safe-if (length bytes == size)
                (Safe-bind (set_datasize-Sparing (u16 (s.datasize + length bytes)))
                  λ _ _. Safe-pure true tt)
                (Safe-bind (stall-Sparing env) λ _ _. Safe-pure false tt))
          s i;
  }

  send_status-Sparing : Safe Sparing Any (send_status env fuel cfg chip strings)
  unfolding send_status
  send_status-Sparing =
      Safe-bind (on_hw-Sparing (write_packet-Spared env memory [] 0 (omega arith)))
        λ _ _. set_fsm-Sparing status_in

  start_reply-Sparing : Safe Sparing Any (start_reply env fuel cfg chip strings)
  unfolding start_reply
  start_reply-Sparing = record {
    run = λ s i.
        let wlength = s.req.length in
        let size = if ltb wlength s.datasize then wlength else s.datasize in
        Safe.run (Safe-if (wlength == 0) send_status-Sparing send_chunk-Sparing)
          (record s {
            datasize = size;
            needs_zlp =
                if wlength == 0 then s.needs_zlp else needs_zlp size wlength max_packet_size;
          })
          i;
  }

  when_handled-Sparing :
      (code : ReturnCode) {m : M Usb (Unit {0})}
      → Safe Sparing Any m
      → Safe Sparing Any (when_handled env fuel cfg chip strings code m)
  when_handled-Sparing notsupp k = stall-Sparing env
  when_handled-Sparing handled k = k
  when_handled-Sparing next_callback k = k

  setup_read-Sparing : Safe Sparing Any (control_setup_read env fuel cfg chip strings)
  unfolding control_setup_read
  setup_read-Sparing = Safe-bind (Safe-change (λ s. record s { dataoff = 0 }) λ s i. i) λ _ _.
      Safe-bind (dispatch-Sparing env cfg chip strings)
        λ code _. when_handled-Sparing code start_reply-Sparing

  setup_write-Sparing : Safe Sparing Any (control_setup_write env fuel cfg chip strings)
  unfolding control_setup_write
  setup_write-Sparing = record {
    run = λ s i.
        Safe.run
          (Safe-if (ltb dfu_transfer_size s.req.length) (stall-Sparing env) (
            Safe-bind (set_datasize-Sparing 0) λ _ _.
              Safe-bind
                (set_fsm-Sparing
                  (if ltb max_packet_size s.req.length then data_out else last_data_out))
                λ _ _. nak_set-Sparing env false))
          s i;
  }

  setup_stage-Sparing :
      (bytes : List ℕ) → Safe Sparing Any (setup_stage env fuel cfg chip strings bytes)
  unfolding setup_stage
  setup_stage-Sparing bytes = record {
    run = λ s i.
        let r = setup_data (blit bytes (setup_bytes s.req)) in
        Safe.run
          (Safe-if (not (length bytes == 8)) (stall-Sparing env) (
            Safe-if (r.length == 0 || not (bit_and r.request_type 0x80 == 0)) setup_read-Sparing
              setup_write-Sparing))
          (record s { req = r }) i;
  }

  pub setup-Sparing : Safe Sparing Any (control_setup env fuel cfg chip strings)
  unfolding control_setup
  setup-Sparing = Safe-bind (forget-Sparing env) λ _ _.
      Safe-bind (nak_set-Sparing env true)
        λ _ _. Safe-bind (read-Sparing env 8) λ bytes _. setup_stage-Sparing bytes

  call_complete-Sparing : Safe Sparing Any (call_complete env fuel cfg chip strings)
  unfolding call_complete
  call_complete-Sparing = record {
    run = λ s i.
        Safe.run
          (Safe-if s.complete_cb
            (on_dfu-Sparing (getstatus_complete-Spares env fuel cfg chip density)) Safe-done)
          s i;
  }

  out_in-Sparing : (f : Fsm) → Safe Sparing Any (control_out_in env fuel cfg chip strings f)
  unfolding control_out_in
  out_in-Sparing data_out = Safe-bind recv_chunk-Sparing λ good _. record {
    run = λ s i.
        Safe.run
          (Safe-if (good && leb s.req.length (s.datasize + max_packet_size))
            (set_fsm-Sparing last_data_out) Safe-done)
          s i;
  }
  out_in-Sparing last_data_out = Safe-bind recv_chunk-Sparing λ good _.
      Safe-if good
        (Safe-bind (dispatch-Sparing env cfg chip strings)
          λ code _. when_handled-Sparing code send_status-Sparing)
        Safe-done
  out_in-Sparing status_out = Safe-bind (read-Sparing env 0) λ _ _.
      Safe-bind (set_fsm-Sparing idle)
        λ _ _. Safe-bind call_complete-Sparing λ _ _. forget-Sparing env
  out_in-Sparing _ = stall-Sparing env

  pub out-Sparing : Safe Sparing Any (control_out env fuel cfg chip strings)
  unfolding control_out
  out-Sparing = record { run = λ s i. Safe.run (out_in-Sparing s.fsm) s i }

  in_in-Sparing : (f : Fsm) → Safe Sparing Any (control_in_in env fuel cfg chip strings f)
  unfolding control_in_in
  in_in-Sparing data_in = send_chunk-Sparing
  in_in-Sparing last_data_in =
      Safe-bind (set_fsm-Sparing status_out) λ _ _. nak_set-Sparing env false
  in_in-Sparing status_in =
      Safe-bind call_complete-Sparing λ _ _. Safe-bind address-Sparing λ _ _. set_fsm-Sparing idle
    where
      address-Sparing : Safe Sparing Any (λ s.
          (if s.req.request_type == 0 && s.req.request == 5
              then on_hw (set_reg usb_daddr (bit_or (bit_and s.req.value 0x7F) 0x80))
              else pure tt)
            s)
      address-Sparing = record {
        run = λ s i.
            Safe.run
              (Safe-if (s.req.request_type == 0 && s.req.request == 5)
                (unit-Sparing usb_daddr (bit_or (bit_and s.req.value 0x7F) 0x80) (omega arith)
                  (omega arith))
                Safe-done)
              s i;
      }
  in_in-Sparing _ = stall-Sparing env

  pub in-Sparing : Safe Sparing Any (control_in env fuel cfg chip strings)
  unfolding control_in
  in-Sparing = record { run = λ s i. Safe.run (in_in-Sparing s.fsm) s i }
