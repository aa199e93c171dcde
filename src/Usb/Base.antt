-- ===== src/Usb/Base.antt =====
-- What every step of the USB stack keeps: the sizes of the buffers, and the request being served.
use native.Mathlib.Nat.{add-zero}
use mathlib.Core.List.{append-nil}
use swindle_bootloader_gd.Common.{
  ℕ, zero, suc, ◌+◌, ◌≤◌, ◌≡◌, refl, true, some, List, [], ◌∷◌, ◌++◌, arith, length, take, M,
  returns, Returns_mono, Keeps, Keeps-bind,
}
use swindle_bootloader_gd.Bus.{Done, Log, Env}
use swindle_bootloader_gd.Device.{SetupData, dfu_transfer_size}
use swindle_bootloader_gd.Dfu.Sized.{IsSized}
use swindle_bootloader_gd.Usb.State.{
  Fsm, idle, Usb, on_hw, set_fsm, set_datasize, put_at, put_buffer,
}
use swindle_bootloader_gd.Usb.Packets.{stall_transaction}
use swindle_bootloader_gd.Usb.Hardware.{on_hw-Logged, ep_stall_set-Done}

-- A write that fits succeeds: it keeps the size and what stands before it, and adds its bytes.
pub put_at-take :
    (off : ℕ) (xs buf : List ℕ)
    → off + length xs ≤ length buf
    → (r : List ℕ) × (put_at off xs buf ≡ some r)
      × (length r ≡ length buf)
      × (take (off + length xs) r ≡ take off buf ++ xs)
unfolding put_at
put_at-take off [] buf fits = (buf, refl, refl, rw (add-zero, append-nil))
put_at-take zero (x ∷ xs) [] fits = absurd (omega arith)
put_at-take zero (x ∷ xs) (y ∷ buf) fits =
    let (r, e, l, t) = put_at-take 0 xs buf (omega arith) in
    let more : 0 + suc (length xs) ≡ suc (0 + length xs) = omega arith in
    (x ∷ r, rw e, omega (arith, l), rw (more, t))
put_at-take (suc n) (x ∷ xs) [] fits = absurd (omega arith)
put_at-take (suc n) (x ∷ xs) (y ∷ buf) fits =
    let (r, e, l, t) = put_at-take n (x ∷ xs) buf (omega arith) in
    let more : suc n + suc (length xs) ≡ suc (n + suc (length xs)) = omega arith in
    (y ∷ r, rw e, omega (arith, l), rw (more, t))

-- Between the steps of serving the request `r`; the answer starts at `start`.
pub record Base (r : SetupData) (start : ℕ) (s : Usb) : Type 0 where
  pub sized : IsSized s.dfu
  pub cap : s.datasize ≤ dfu_transfer_size
  pub same : s.req ≡ r
  pub off : s.dataoff ≡ start

module _ {r : SetupData} {start : ℕ} where
  pub on_hw-Base : {A : Type 0} {m : M Log A} → Done m → Keeps (Base r start) (on_hw m)
  on_hw-Base d = record {
    run = λ s b. Returns_mono (on_hw-Logged s d) λ _ t (_, (h, e)). rw e (record {
      sized = record { control = b.sized.control; shadow = b.sized.shadow; fits = b.sized.fits };
      cap = b.cap;
      same = b.same;
      off = b.off;
    });
  }

  pub set_fsm-Base : (f : Fsm) → Keeps (Base r start) (set_fsm f)
  set_fsm-Base f = record {
    run = λ s b. returns (record { sized = b.sized; cap = b.cap; same = b.same; off = b.off });
  }

  pub set_datasize-Base : (n : ℕ) → n ≤ dfu_transfer_size → Keeps (Base r start) (set_datasize n)
  set_datasize-Base n le = record {
    run = λ s b. returns (record { sized = b.sized; cap = le; same = b.same; off = b.off });
  }

  pub put_buffer-Base :
      (off : ℕ) (bytes : List ℕ)
      → off + length bytes ≤ dfu_transfer_size
      → Keeps (Base r start) (put_buffer off bytes)
  put_buffer-Base off bytes fits = record {
    run = λ s b.
        let (q, e, l, t) =
          put_at-take off bytes s.dfu.control_buffer (omega (arith, b.sized.control)) in
        rw (e, put_buffer)
          (returns (record {
            sized = record {
              control = omega (arith, l, b.sized.control);
              shadow = b.sized.shadow;
              fits = b.sized.fits;
            };
            cap = b.cap;
            same = b.same;
            off = b.off;
          }));
  }

  pub stall-Base : (env : Env) → Keeps (Base r start) (stall_transaction env)
  unfolding stall_transaction
  stall-Base env = Keeps-bind (on_hw-Base (ep_stall_set-Done env 0 true)) λ _. set_fsm-Base idle
