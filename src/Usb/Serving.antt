-- ===== src/Usb/Serving.antt =====
-- What usb.cpp keeps between two polls: the arrays' sizes, and in the data stages the room that is
-- left for the next packet.
use swindle_bootloader_gd.Common.{
  ℕ, ◌+◌, ◌%◌, ◌≤◌, ◌≡◌, true, false, Option, none, some, M, Returns, returns, Returns_mono, Keeps,
  Keeps-bind,
}
use swindle_bootloader_gd.Bus.{Done, Log, Env}
use swindle_bootloader_gd.Device.{SetupData, dfu_transfer_size, Dfu}
use swindle_bootloader_gd.Dfu.Sized.{IsSized}
use swindle_bootloader_gd.Usb.State.{
  Fsm, idle, data_in, status_in, data_out, last_data_out, status_out, Usb, on_hw, on_dfu, set_fsm,
}
use swindle_bootloader_gd.Usb.Packets.{stall_transaction}
use swindle_bootloader_gd.Usb.Requests.{is_class_interface}
use swindle_bootloader_gd.Usb.Hardware.{on_hw-Logged, ep_stall_set-Done}

-- A class request announces at most the transfer size, as the functional descriptor has it.
abbrev pub Mild : SetupData → Type 0
Mild r = is_class_interface r.request_type ≡ true → r.length ≤ dfu_transfer_size

-- The next packet starts inside the buffer, at a half word, and what is left to send ends inside.
pub record ToSend (off size : ℕ) : Type 0 where
  pub inside : off + size ≤ dfu_transfer_size
  pub even : off % 2 ≡ 0

-- What has arrived is at most what was announced, which the buffer holds.
pub record ToReceive (size len : ℕ) : Type 0 where
  pub arrived : size ≤ len
  pub bound : len ≤ dfu_transfer_size

abbrev pub Room : Fsm → ℕ → ℕ → ℕ → Type 0
Room data_in off size len = ToSend off size
Room data_out off size len = ToReceive size len
Room last_data_out off size len = ToReceive size len
Room _ off size len = Unit {0}

pub record Serving (s : Usb) : Type 0 where
  pub sized : IsSized s.dfu
  pub cap : s.datasize ≤ dfu_transfer_size
  pub mild : Mild s.req
  pub room : Room s.fsm s.dataoff s.datasize s.req.length

pub on_hw-Serving : {A : Type 0} {m : M Log A} → Done m → Keeps Serving (on_hw m)
on_hw-Serving d = record {
  run = λ s b. Returns_mono (on_hw-Logged s d) λ _ t (_, (h, e)). rw e (record {
    sized = record { control = b.sized.control; shadow = b.sized.shadow; fits = b.sized.fits };
    cap = b.cap;
    mild = b.mild;
    room = b.room;
  });
}

pub idle-Serving : Keeps Serving (set_fsm idle)
idle-Serving = record {
  run = λ s b. returns (record { sized = b.sized; cap = b.cap; mild = b.mild; room = tt });
}

pub forget-Serving : Keeps Serving (λ t. some (tt, record t { complete_cb = false }))
forget-Serving = record {
  run = λ t c. returns (record { sized = c.sized; cap = c.cap; mild = c.mild; room = c.room });
}

pub status_out-Serving : Keeps Serving (set_fsm status_out)
status_out-Serving = record {
  run = λ s b. returns (record { sized = b.sized; cap = b.cap; mild = b.mild; room = tt });
}

pub status_in-Serving : Keeps Serving (set_fsm status_in)
status_in-Serving = record {
  run = λ s b. returns (record { sized = b.sized; cap = b.cap; mild = b.mild; room = tt });
}

pub stall-Serving : (env : Env) → Keeps Serving (stall_transaction env)
unfolding stall_transaction
stall-Serving env = Keeps-bind (on_hw-Serving (ep_stall_set-Done env 0 true)) λ _. idle-Serving

-- A command of the DFU application that keeps its buffers.
pub on_dfu-Serving : {A : Type 0} {m : M Dfu A} → Keeps IsSized m → Keeps Serving (on_dfu m)
on_dfu-Serving {A} {m} k = record { run = λ s b. after s b (m s.dfu) (k.run s.dfu b.sized) }
  where
    after :
        (s : Usb)
        → Serving s
        → (o : Option (A × Dfu)) → Returns (λ _ d. IsSized d) o
        → Returns
            (λ _ t. Serving t)
            (elim o [ none ↦ none | some (a, d) ↦ some (a, record s { dfu = d }) ])
    after s b none r = elim r [ ]
    after s b (some (a, d)) (returns z) =
        returns (record { sized = z; cap = b.cap; mild = b.mild; room = b.room })
