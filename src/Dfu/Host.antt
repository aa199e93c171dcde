-- ===== src/Dfu/Host.antt =====
-- A host that downloads a firmware: SETADDR, the blocks, and the zero-length block that ends it.
use swindle_bootloader_gd.Common.{
  ℕ, zero, suc, ◌+◌, ◌-◌, ◌*◌, ◌^◌, ◌≤◌, ◌<◌, ◌≡◌, refl, ap, ◌∙◌, some, List, [], ◌∷◌, arith,
  length, get_or, take, drop, blit, length-blit, M, pure, ◌>>=◌, ◌>>◌, returns, Keeps, Keeps-bind,
}
use swindle_bootloader_gd.Common.Words.{byte_at}
use swindle_bootloader_gd.Bus.{Env}
use swindle_bootloader_gd.Flash.Settles.{Settles}
use swindle_bootloader_gd.Device.{Config, Chip, SetupData, dfu_transfer_size, Dfu}
use swindle_bootloader_gd.Dfu.{
  block_address, clamp_len, cmd_setaddr, usbdfu_control_request, usbdfu_getstatus_complete,
}
use swindle_bootloader_gd.Dfu.Sized.{IsSized, control_request-IsSized}
use swindle_bootloader_gd.Dfu.Callback.{getstatus_complete-IsSized}
use swindle_bootloader_gd.Dfu.Transfer.{command, u32_bytes}

-- What the USB stack leaves in the control buffer.
abbrev pub fill : List ℕ → M Dfu (Unit {0})
fill bytes s = some (tt, record s { control_buffer = blit bytes s.control_buffer })

abbrev pub dnload_setup : ℕ → ℕ → SetupData
dnload_setup value len = record {
  request_type = 0x21;
  request = 1;
  value = value;
  index = 0;
  length = len;
}

abbrev pub getstatus_setup : SetupData
getstatus_setup = record { request_type = 0xa1; request = 3; value = 0; index = 0; length = 6 }

module _ (env : Env) (fuel : ℕ) (cfg : Config) (chip : Chip) where
  -- A payload, its download as block `value`, and the poll.
  abbrev pub send : ℕ → ℕ → List ℕ → M Dfu (Unit {0})
  send value len bytes = do
    fill bytes
    command env fuel cfg chip (dnload_setup value len) getstatus_setup len

  -- The rest of the firmware, in `rounds` blocks of at most 4096 bytes from block `value` on.
  unfoldable pub send_blocks : ℕ → ℕ → List ℕ → M Dfu (Unit {0})
  send_blocks zero value firmware s = pure tt s
  send_blocks (suc rounds) value firmware s =
      (do
        send value (clamp_len (length firmware)) (take (clamp_len (length firmware)) firmware)
        send_blocks rounds (suc value) (drop dfu_transfer_size firmware))
        s

  -- A host's whole download of a firmware to an address.
  unfoldable pub session : ℕ → ℕ → List ℕ → M Dfu (Unit {0})
  session rounds addr firmware = do
    send 0 5 (cmd_setaddr ∷ u32_bytes addr)
    send_blocks rounds 2 firmware
    _ ← usbdfu_control_request env cfg chip (dnload_setup (2 + rounds) 0) 0
    _ ← usbdfu_control_request env cfg chip getstatus_setup 6
    usbdfu_getstatus_complete env fuel cfg chip

pub first_byte : (a : ℕ) → byte_at (cmd_setaddr ∷ u32_bytes a) 0 ≡ cmd_setaddr
unfolding byte_at
first_byte a = refl

pub byte_at-drop : (c n : ℕ) (xs : List ℕ) → byte_at (drop c xs) n ≡ byte_at xs (c + n)
unfolding byte_at
byte_at-drop c n xs = rw (get_or-drop c n xs) refl
  where
    get_or-drop : (c n : ℕ) (xs : List ℕ) → get_or 0 (drop c xs) n ≡ get_or 0 xs (c + n)
    get_or-drop zero n xs = ap (λ j. get_or 0 xs j) {x = n} {y = 0 + n} (omega arith)
    get_or-drop (suc c) n [] = refl
    get_or-drop (suc c) n (x ∷ xs) =
        get_or-drop c n xs
        ∙ ap (λ j. get_or 0 (x ∷ xs) j) {x = suc (c + n)} {y = suc c + n} (omega arith)

pub block_at :
    (addr value a : ℕ)
    → 2 ≤ value
    → addr + (value - 2) * dfu_transfer_size ≡ a
    → a < 2 ^ 32
    → block_address addr value ≡ a
unfolding block_address
block_at addr value a v at small = omega arith

module _ (env : Env) (fuel : ℕ) (cfg : Config) (chip : Chip) (settles : Settles env fuel)
    (density : chip.flash_size < 2 ^ 16) where
  pub fill-IsSized : (bytes : List ℕ) → Keeps IsSized (fill bytes)
  fill-IsSized bytes = record {
    run = λ s z. returns (record {
      control = omega (arith, length-blit bytes s.control_buffer, z.control);
      shadow = z.shadow;
      fits = z.fits;
    });
  }

  pub send-IsSized :
      (value len : ℕ) (bytes : List ℕ) → Keeps IsSized (send env fuel cfg chip value len bytes)
  send-IsSized value len bytes = Keeps-bind (fill-IsSized bytes) λ _.
      Keeps-bind (control_request-IsSized env cfg chip (dnload_setup value len) len) λ _.
        Keeps-bind (control_request-IsSized env cfg chip getstatus_setup 6)
          λ _. getstatus_complete-IsSized env fuel settles cfg chip density
