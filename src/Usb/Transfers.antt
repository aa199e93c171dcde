-- ===== src/Usb/Transfers.antt =====
-- The packets of a data stage of usb.cpp stay inside the control buffer.
use swindle_bootloader_gd.Common.{
  ℕ, zero, suc, ◌+◌, ◌*◌, ◌/◌, ◌^◌, ◌≤◌, ◌<◌, ◌≡◌, refl, Bool, true, false, List, [], ◌∷◌, ◌++◌,
  ltb, ltb→lt, ◌==◌, ==→eq, if◌then◌else◌, u16, arith, length, take, drop, ◌>>◌, pure, Returns,
  returns, Returns-bind, Returns-if,
}
use swindle_bootloader_gd.Bus.{Log, Env}
use swindle_bootloader_gd.Device.{Config, Chip, dfu_transfer_size}
use swindle_bootloader_gd.Dfu.Sized.{IsSized}
use swindle_bootloader_gd.Usb.State.{
  idle, data_in, last_data_in, Usb, set_fsm, set_datasize, put_buffer,
}
use swindle_bootloader_gd.Usb.Descriptors.{max_packet_size}
use swindle_bootloader_gd.Usb.Packets.{ep_read_packet, ep_stall_set, stall_transaction}
use swindle_bootloader_gd.Usb.Control.{
  expected_packet, send_buffer, control_send_chunk, control_recv_chunk,
}
use swindle_bootloader_gd.Usb.Hardware.{
  PacketTable, Logged, on_hw-Logged, Returns-on_hw, ep_write_packet-Done, ep_read_packet-length,
  ep_stall_set-Done,
}
use swindle_bootloader_gd.Usb.Base.{put_at-take}
use swindle_bootloader_gd.Usb.Serving.{Mild, ToSend, ToReceive, Room, Serving}

length-drop : (n : ℕ) (xs : List ℕ) → n ≤ length xs → length (drop n xs) + n ≡ length xs
length-drop zero xs le = omega arith
length-drop (suc n) [] le = absurd (omega arith)
length-drop (suc n) (x ∷ xs) le = omega (arith, length-drop n xs)

module _ (env : Env) (fuel : ℕ) (cfg : Config) (chip : Chip) (strings : List (List ℕ)) where
  send_buffer-Logged :
      (s : Usb) (off len : ℕ)
      → IsSized s.dfu
      → len < 2 ^ 15
      → off + 2 * ((len + 1) / 2) ≤ dfu_transfer_size
      → Returns (λ _ t. Unit {0} × Logged s t) (send_buffer env fuel cfg chip strings off len s)
  unfolding send_buffer
  send_buffer-Logged s off len z small fits =
      let l = length-drop off s.dfu.control_buffer (omega (arith, z.control)) in
      on_hw-Logged s (
        ep_write_packet-Done env 0 (drop off s.dfu.control_buffer) len small
          (omega (arith, l, z.control)))

  -- The next packet of an answer is read inside the control buffer, and leaves room for the rest.
  pub send_chunk-Serving :
      (s : Usb)
      → IsSized s.dfu
      → Mild s.req
      → ToSend s.dataoff s.datasize
      → Returns (λ _ t. Serving t) (control_send_chunk env fuel cfg chip strings s)
  unfolding control_send_chunk
  send_chunk-Serving s z mild room =
      Returns-if (ltb max_packet_size s.datasize) _ _ s
        (λ e.
          let more = ltb→lt max_packet_size s.datasize e in
          Returns-bind
            (send_buffer-Logged s s.dataoff max_packet_size z (omega arith)
              (omega (arith, room.inside)))
            λ _ t (_, (h, eq)). rw eq (
              returns (record {
                sized = record { control = z.control; shadow = z.shadow; fits = z.fits };
                cap = omega (arith, room.inside);
                mild = mild;
                room = record {
                  inside = omega (arith, room.inside);
                  even = omega (arith, room.inside, room.even);
                };
              })))
        (λ e.
          Returns-bind
            (send_buffer-Logged s s.dataoff s.datasize z (omega (arith, room.inside))
              (omega (arith, room.inside, room.even)))
            λ _ t (_, (h, eq)). rw eq (
              returns (record {
                sized = record { control = z.control; shadow = z.shadow; fits = z.fits };
                cap = omega arith;
                mild = mild;
                room = last_room s.needs_zlp s.dataoff s.datasize s.req.length room;
              })))
    where
      last_room :
          (zlp : Bool) (off size len : ℕ)
          → ToSend off size
          → Room (if zlp then data_in else last_data_in) off 0 len
      last_room true off size len room = record {
        inside = omega (arith, room.inside);
        even = room.even;
      }
      last_room false off size len room = tt

-- How the reading of a packet ends: with the expected size, or in a stall.
abbrev pub Next : Usb → List ℕ → Bool → Usb → Type 0
Next s packet true t =
    (length packet ≡ expected_packet s.req.length s.datasize)
    × (t.datasize ≡ s.datasize + length packet)
    × (t.fsm ≡ s.fsm)
Next s packet false t = (t.datasize ≡ s.datasize) × (t.fsm ≡ idle)

-- From `s` to `t`, a packet was stored behind what had arrived.
pub record Received (s : Usb) (good : Bool) (t : Usb) : Type 0 where
  pub sized : IsSized t.dfu
  pub same : t.req ≡ s.req
  pub packet : List ℕ
  pub small : s.datasize + length packet ≤ s.req.length
  pub stored :
      take (s.datasize + length packet) t.dfu.control_buffer
      ≡ take s.datasize s.dfu.control_buffer ++ packet
  pub next : Next s packet good t

expected_packet-le :
    (size len : ℕ) → size ≤ len → len ≤ dfu_transfer_size → size + expected_packet len size ≤ len
expected_packet-le size len le bound = ground arith

module _ (env : Env) (table : PacketTable env) (fuel : ℕ) (cfg : Config) (chip : Chip)
    (strings : List (List ℕ)) where
  stall-Idle :
      (t : Usb)
      → Returns
          (λ _ u. (h : Log) × (u ≡ record t { dfu = record t.dfu { log = h }; fsm = idle }))
          (stall_transaction env t)
  unfolding stall_transaction
  stall-Idle t =
      Returns-on_hw (ep_stall_set env 0 true) (λ _. set_fsm idle) t (ep_stall_set-Done env 0 true)
        λ _ h _. returns (h, refl)

  stall-Received :
      (s t : Usb) (packet : List ℕ)
      → IsSized t.dfu
      → t.req ≡ s.req
      → t.datasize ≡ s.datasize
      → s.datasize + length packet ≤ s.req.length
      → take (s.datasize + length packet) t.dfu.control_buffer
        ≡ take s.datasize s.dfu.control_buffer ++ packet
      → Returns (Received s) ((do stall_transaction env; pure false) t)
  stall-Received s t packet z same size small stored = Returns-bind (stall-Idle t) λ _ u (h, eq).
      rw eq (
        returns {a = false} {s = record t { dfu = record t.dfu { log = h }; fsm = idle }} (record {
          sized = record { control = z.control; shadow = z.shadow; fits = z.fits };
          same = same;
          packet = packet;
          small = small;
          stored = stored;
          next = (size, refl);
        }))

  -- The end of the reading, from the state in which the packet is stored.
  compare-Received :
      (s t : Usb) (packet : List ℕ)
      → IsSized t.dfu
      → t.req ≡ s.req
      → t.datasize ≡ s.datasize
      → t.fsm ≡ s.fsm
      → s.datasize + length packet ≤ s.req.length
      → s.req.length ≤ dfu_transfer_size
      → take (s.datasize + length packet) t.dfu.control_buffer
        ≡ take s.datasize s.dfu.control_buffer ++ packet
      → Returns (Received s) (
          (if length packet == expected_packet s.req.length s.datasize
              then (do set_datasize (u16 (s.datasize + length packet)); pure true)
              else (do stall_transaction env; pure false))
            t)
  compare-Received s t packet z same size state small bound stored =
      Returns-if (length packet == expected_packet s.req.length s.datasize)
        (do set_datasize (u16 (s.datasize + length packet)); pure true)
        (do stall_transaction env; pure false) t
        (λ e.
          let whole = ==→eq (length packet) (expected_packet s.req.length s.datasize) e in
          returns (record {
            sized = record { control = z.control; shadow = z.shadow; fits = z.fits };
            same = same;
            packet = packet;
            small = small;
            stored = stored;
            next = (whole, omega (arith, small, bound), state);
          }))
        (λ _. stall-Received s t packet z same size small stored)

  pub recv_chunk-Received :
      (s : Usb)
      → IsSized s.dfu
      → ToReceive s.datasize s.req.length
      → Returns (Received s) (control_recv_chunk env fuel cfg chip strings s)
  unfolding control_recv_chunk
  recv_chunk-Received s z room =
      let size = expected_packet s.req.length s.datasize in
      let le : s.datasize + size ≤ s.req.length =
        expected_packet-le s.datasize s.req.length room.arrived room.bound in
      Returns-on_hw (ep_read_packet env s.force_nak 0 size)
        (λ bytes. do
          put_buffer s.datasize bytes
          if length bytes == size
              then (do set_datasize (u16 (s.datasize + length bytes)); pure true)
              else (do stall_transaction env; pure false))
        s (ep_read_packet-length env table s.force_nak size (omega (arith, le, room.bound)))
        λ bytes h short.
          let (r, e, l, stored) =
            put_at-take s.datasize bytes s.dfu.control_buffer
              (omega (arith, short, le, room.bound, z.control)) in
          let small : s.datasize + length bytes ≤ s.req.length = omega (arith, short, le) in
          let sized : IsSized (record s.dfu { log = h; control_buffer = r }) = record {
            control = omega (arith, l, z.control);
            shadow = z.shadow;
            fits = z.fits;
          } in
          rw (e, put_buffer)
            (compare-Received s (record s { dfu = record s.dfu { log = h; control_buffer = r } })
              bytes sized refl refl refl small room.bound stored)
