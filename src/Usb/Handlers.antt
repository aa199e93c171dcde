-- ===== src/Usb/Handlers.antt =====
-- The three transaction handlers of usb.cpp keep what the stack relies on, in every state.
use swindle_bootloader_gd.Common.{
  ap, ℕ, ◌+◌, ◌^◌, ◌≤◌, ◌<◌, ◌≡◌, refl, bit_and, bit_or, Bool, true, false, ◌&&◌, List, ◌∙◌, leb,
  ◌==◌, if◌then◌else◌, arith, All, ◌>>=◌, pure, Returns, returns, Returns_mono, Returns-bind,
  Returns-if, Keeps, Keeps-pure, Keeps-bind, Keeps-if, Gives,
}
use swindle_bootloader_gd.Bus.{Done, Env}
use swindle_bootloader_gd.Flash.Settles.{Settles}
use swindle_bootloader_gd.Device.{
  Config, Chip, SetupData, ReturnCode, notsupp, handled, next_callback, dfu_transfer_size,
}
use swindle_bootloader_gd.Dfu.Callback.{getstatus_complete-IsSized}
use swindle_bootloader_gd.Usb.Registers.{set_reg, usb_daddr}
use swindle_bootloader_gd.Usb.State.{
  Fsm, data_in, last_data_in, status_in, data_out, last_data_out, status_out, Usb, on_hw, set_fsm,
}
use swindle_bootloader_gd.Usb.Descriptors.{max_packet_size}
use swindle_bootloader_gd.Usb.Packets.{ep_read_packet}
use swindle_bootloader_gd.Usb.Requests.{control_request_dispatch}
use swindle_bootloader_gd.Usb.Control.{
  send_status, when_handled, call_complete, control_out_in, control_out, control_in_in, control_in,
}
use swindle_bootloader_gd.Usb.Hardware.{PacketTable, ep_read_packet-length}
use swindle_bootloader_gd.Usb.Base.{Base}
use swindle_bootloader_gd.Usb.Dispatch.{FitsString}
use swindle_bootloader_gd.Usb.Serving.{
  Mild, ToReceive, Serving, on_hw-Serving, idle-Serving, forget-Serving, status_out-Serving,
  stall-Serving, on_dfu-Serving,
}
use swindle_bootloader_gd.Usb.Transfers.{Received, send_chunk-Serving, recv_chunk-Received}
use swindle_bootloader_gd.Usb.Stages.{
  ep_nak_set-Serving, refuse-Serving, status-Serving, dispatched,
}

Received-ToReceive :
    (s t : Usb)
    → Received s true t
    → ToReceive s.datasize s.req.length
    → ToReceive t.datasize t.req.length
Received-ToReceive s t p room =
    let same : t.req.length ≡ s.req.length = ap (λ (r : SetupData). r.length) p.same in
    record {
      arrived = omega (arith, p.small, p.next.1, same);
      bound = omega (arith, room.bound, same);
    }

module _ (env : Env) (table : PacketTable env) (fuel : ℕ) (settles : Settles env fuel)
    (cfg : Config) (chip : Chip) (density : chip.flash_size < 2 ^ 16) (strings : List (List ℕ))
    (fits : All FitsString strings) where
  complete-Serving : Keeps Serving (call_complete env fuel cfg chip strings)
  unfolding call_complete
  complete-Serving = record {
    run = λ s b.
        Keeps.run
          (Keeps-if s.complete_cb
            (on_dfu-Serving (getstatus_complete-IsSized env fuel settles cfg chip density))
            (Keeps-pure tt))
          s b;
  }

  -- The data stage stops at a packet of the wrong size, goes on, or comes to its last packet.
  more-Serving :
      (s : Usb)
      → s.fsm ≡ data_out
      → Serving s
      → ToReceive s.datasize s.req.length
      → (good : Bool) (t : Usb) → Received s good t
      → Returns
          (λ _ u. Serving u)
          ((if good && leb t.req.length (t.datasize + max_packet_size)
              then set_fsm last_data_out
              else pure tt)
            t)
  more-Serving s at b room true t p =
      let next = Received-ToReceive s t p room in
      let here : t.fsm ≡ data_out = p.next.2 ∙ at in
      let cap : t.datasize ≤ dfu_transfer_size = omega (arith, next.arrived, next.bound) in
      Returns-if (leb t.req.length (t.datasize + max_packet_size)) _ _ t
        (λ _. returns (record { sized = p.sized; cap = cap; mild = rw p.same b.mild; room = next }))
        (λ _.
          returns
            (record { sized = p.sized; cap = cap; mild = rw p.same b.mild; room = rw here next }))
  more-Serving s at b room false t p = returns (record {
    sized = p.sized;
    cap = rw p.next.0 b.cap;
    mild = rw p.same b.mild;
    room = rw p.next.1 tt;
  })

  answer-Serving :
      {r : SetupData} {start : ℕ} (code : ReturnCode) (t : Usb)
      → Mild r
      → Base r start t
      → Returns
          (λ _ u. Serving u)
          (when_handled env fuel cfg chip strings code (send_status env fuel cfg chip strings) t)
  answer-Serving notsupp t mild b = refuse-Serving env mild t b
  answer-Serving handled t mild b = status-Serving env fuel cfg chip strings mild t b
  answer-Serving next_callback t mild b = status-Serving env fuel cfg chip strings mild t b

  -- The last packet of a data stage starts the request.
  last-Serving :
      (s : Usb)
      → Serving s
      → ToReceive s.datasize s.req.length
      → (good : Bool) (t : Usb) → Received s good t
      → Returns
          (λ _ u. Serving u)
          ((if good
              then (do
                code ← control_request_dispatch env cfg chip strings
                when_handled env fuel cfg chip strings code (send_status env fuel cfg chip strings))
              else pure tt)
            t)
  last-Serving s b room true t p =
      let next = Received-ToReceive s t p room in
      let mild : Mild t.req = λ _. next.bound in
      Returns-bind
        (dispatched env fuel cfg chip strings fits t p.sized
          (omega (arith, next.arrived, next.bound)) mild)
        λ code u d. answer-Serving code u mild d
  last-Serving s b room false t p = returns (record {
    sized = p.sized;
    cap = rw p.next.0 b.cap;
    mild = rw p.same b.mild;
    room = rw p.next.1 tt;
  })

  out_in-Serving :
      (f : Fsm) (s : Usb)
      → s.fsm ≡ f
      → Serving s
      → Returns (λ _ t. Serving t) (control_out_in env fuel cfg chip strings f s)
  unfolding control_out_in
  out_in-Serving data_out s at b =
      let room = rw at at b.room in
      Returns-bind (recv_chunk-Received env table fuel cfg chip strings s b.sized room)
        λ good t p. more-Serving s at b room good t p
  out_in-Serving last_data_out s at b =
      let room = rw at at b.room in
      Returns-bind (recv_chunk-Received env table fuel cfg chip strings s b.sized room)
        λ good t p. last-Serving s b room good t p
  out_in-Serving status_out s at b =
      Keeps.run
        (Keeps-bind (on_hw-Serving (read-Done s.force_nak))
          λ _. Keeps-bind idle-Serving λ _. Keeps-bind complete-Serving λ _. forget-Serving)
        s b
    where
      read-Done : (nak : List Bool) → Done (ep_read_packet env nak 0 0)
      read-Done nak = record {
        run = λ h.
            Returns_mono (Gives.run (ep_read_packet-length env table nak 0 (omega arith)) h)
              λ _ _ _. tt;
      }
  out_in-Serving _ s at b = Keeps.run (stall-Serving env) s b

  in_in-Serving :
      (f : Fsm) (s : Usb)
      → s.fsm ≡ f
      → Serving s
      → Returns (λ _ t. Serving t) (control_in_in env fuel cfg chip strings f s)
  unfolding control_in_in
  in_in-Serving data_in s at b =
      send_chunk-Serving env fuel cfg chip strings s b.sized b.mild (rw at at b.room)
  in_in-Serving last_data_in s at b =
      Keeps.run (Keeps-bind status_out-Serving λ _. ep_nak_set-Serving env false) s b
  in_in-Serving status_in s at b =
      Keeps.run (Keeps-bind complete-Serving λ _. Keeps-bind address-Serving λ _. idle-Serving) s b
    where
      address-Serving : Keeps Serving (λ t.
          (if t.req.request_type == 0 && t.req.request == 5
              then on_hw (set_reg usb_daddr (bit_or (bit_and t.req.value 0x7F) 0x80))
              else pure tt)
            t)
      address-Serving = record {
        run = λ t c.
            Keeps.run
              (Keeps-if (t.req.request_type == 0 && t.req.request == 5)
                (on_hw-Serving (record { run = λ h. returns tt })) (Keeps-pure tt))
              t c;
      }
  in_in-Serving _ s at b = Keeps.run (stall-Serving env) s b

  -- Whatever arrives in whatever state, an OUT transaction that is no setup comes back and keeps what
  -- the stack relies on.
  pub control_out-Serving : Keeps Serving (control_out env fuel cfg chip strings)
  unfolding control_out
  control_out-Serving = record { run = λ s b. out_in-Serving s.fsm s refl b }

  -- So does an IN transaction.
  pub control_in-Serving : Keeps Serving (control_in env fuel cfg chip strings)
  unfolding control_in
  control_in-Serving = record { run = λ s b. in_in-Serving s.fsm s refl b }
