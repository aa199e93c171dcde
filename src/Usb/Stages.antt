-- ===== src/Usb/Stages.antt =====
-- The setup, data and status stages of a control transfer in usb.cpp keep what the stack relies on.
use swindle_bootloader_gd.Common.{
  ℕ, ◌≤◌, refl, Bool, true, false, List, [], ltb, ◌==◌, if◌then◌else◌, arith, All, set, Returns,
  returns, Returns-bind, Returns-if, Keeps,
}
use swindle_bootloader_gd.Bus.{Env}
use swindle_bootloader_gd.Device.{
  Config, Chip, SetupData, ReturnCode, notsupp, handled, next_callback, dfu_transfer_size,
}
use swindle_bootloader_gd.Dfu.Sized.{IsSized}
use swindle_bootloader_gd.Usb.Registers.{rx_nak, rx_valid}
use swindle_bootloader_gd.Usb.State.{idle, status_in, data_out, last_data_out, Usb, set_fsm}
use swindle_bootloader_gd.Usb.Descriptors.{max_packet_size}
use swindle_bootloader_gd.Usb.Packets.{ep_write_packet, ep_nak_set, ep_stall_set, stall_transaction}
use swindle_bootloader_gd.Usb.Requests.{control_request_dispatch}
use swindle_bootloader_gd.Usb.Control.{
  send_status, start_reply, when_handled, control_setup_read, control_setup_write,
}
use swindle_bootloader_gd.Usb.Hardware.{
  Returns-on_hw, ep_write_packet-Done, ep_stall_set-Done, set_ep_rx_stat-Done,
}
use swindle_bootloader_gd.Usb.Base.{Base}
use swindle_bootloader_gd.Usb.Dispatch.{FitsString, dispatch-Base}
use swindle_bootloader_gd.Usb.Serving.{Mild, ToReceive, Room, Serving, on_hw-Serving}
use swindle_bootloader_gd.Usb.Transfers.{send_chunk-Serving}

pub ep_nak_set-Serving : (env : Env) (nak : Bool) → Keeps Serving (ep_nak_set env 0 nak)
unfolding ep_nak_set
ep_nak_set-Serving env nak = record {
  run = λ s b.
      Keeps.run (on_hw-Serving (set_ep_rx_stat-Done env 0 (if nak then rx_nak else rx_valid)))
        (record s { force_nak = set s.force_nak 0 nak })
        (record { sized = b.sized; cap = b.cap; mild = b.mild; room = b.room });
}

-- After a request was dispatched, the two ways to end without data.
module _ (env : Env) {r : SetupData} {start : ℕ} (mild : Mild r) (t : Usb)
    (b : Base r start t) where
  pub refuse-Serving : Returns (λ _ u. Serving u) (stall_transaction env t)
  unfolding stall_transaction
  refuse-Serving =
      Returns-on_hw (ep_stall_set env 0 true) (λ _. set_fsm idle) t (ep_stall_set-Done env 0 true)
        λ _ h _. returns (record {
          sized = record {
            control = b.sized.control;
            shadow = b.sized.shadow;
            fits = b.sized.fits;
          };
          cap = b.cap;
          mild = rw b.same mild;
          room = tt;
        })

module _ (env : Env) (fuel : ℕ) (cfg : Config) (chip : Chip) (strings : List (List ℕ)) where
  pub status-Serving :
      {r : SetupData} {start : ℕ}
      → Mild r
      → (t : Usb) → Base r start t
      → Returns (λ _ u. Serving u) (send_status env fuel cfg chip strings t)
  unfolding send_status
  status-Serving mild t b =
      Returns-on_hw (ep_write_packet env 0 [] 0) (λ _. set_fsm status_in) t
        (ep_write_packet-Done env 0 [] 0 (omega arith) (omega arith))
        λ _ h _. returns (record {
          sized = record {
            control = b.sized.control;
            shadow = b.sized.shadow;
            fits = b.sized.fits;
          };
          cap = b.cap;
          mild = rw b.same mild;
          room = tt;
        })

  -- The answer is cut to the announced length, and starts at the buffer's start.
  start_reply-Serving :
      {r : SetupData}
      → Mild r
      → (t : Usb) → Base r 0 t
      → Returns (λ _ u. Serving u) (start_reply env fuel cfg chip strings t)
  unfolding start_reply
  start_reply-Serving mild t b =
      let size = if ltb t.req.length t.datasize then t.req.length else t.datasize in
      let le : size ≤ dfu_transfer_size = ground (arith, b.cap) in
      Returns-if (t.req.length == 0) _ _ _
        (λ _.
          status-Serving mild _ (record { sized = b.sized; cap = le; same = b.same; off = b.off }))
        (λ _.
          send_chunk-Serving env fuel cfg chip strings _ b.sized (rw b.same mild)
            (record { inside = omega (arith, b.off, le); even = omega (arith, b.off) }))

  module _ (fits : All FitsString strings) where
    pub dispatched :
        (s : Usb)
        → IsSized s.dfu
        → s.datasize ≤ dfu_transfer_size
        → Mild s.req
        → Returns (λ _ t. Base s.req s.dataoff t) (control_request_dispatch env cfg chip strings s)
    dispatched s z cap mild =
        (dispatch-Base env cfg chip strings fits mild).run s
          (record { sized = z; cap = cap; same = refl; off = refl })

    pub setup_read-Serving :
        (s : Usb)
        → IsSized s.dfu
        → s.datasize ≤ dfu_transfer_size
        → Mild s.req
        → Returns (λ _ t. Serving t) (control_setup_read env fuel cfg chip strings s)
    unfolding control_setup_read
    setup_read-Serving s z cap mild =
        Returns-bind (dispatched (record s { dataoff = 0 }) z cap mild) λ code t b. reply code t b
      where
        reply :
            (code : ReturnCode) (t : Usb)
            → Base s.req 0 t
            → Returns
                (λ _ u. Serving u)
                (when_handled env fuel cfg chip strings code
                  (start_reply env fuel cfg chip strings)
                  t)
        reply notsupp t b = refuse-Serving env mild t b
        reply handled t b = start_reply-Serving mild t b
        reply next_callback t b = start_reply-Serving mild t b

  -- A write that fits the buffer starts empty; a longer one is refused.
  pub setup_write-Serving :
      (s : Usb)
      → IsSized s.dfu
      → s.datasize ≤ dfu_transfer_size
      → Mild s.req
      → Returns (λ _ t. Serving t) (control_setup_write env fuel cfg chip strings s)
  unfolding control_setup_write
  setup_write-Serving s z cap mild =
      Returns-if (ltb dfu_transfer_size s.req.length) (stall_transaction env) _ s
        (λ _. refuse-Serving env mild s (record { sized = z; cap = cap; same = refl; off = refl }))
        (λ e.
          let bound : s.req.length ≤ dfu_transfer_size = ground (arith, e) in
          let empty : ToReceive 0 s.req.length = record { arrived = omega arith; bound = bound } in
          Keeps.run (ep_nak_set-Serving env false) _ (record {
            sized = z;
            cap = omega arith;
            mild = mild;
            room = first_room (ltb max_packet_size s.req.length) s.dataoff s.req.length empty;
          }))
    where
      first_room :
          (long : Bool) (off len : ℕ)
          → ToReceive 0 len
          → Room (if long then data_out else last_data_out) off 0 len
      first_room true off len room = room
      first_room false off len room = room
