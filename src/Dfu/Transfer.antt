-- ===== src/Dfu/Transfer.antt =====
-- A download command from the control buffer to its effect: DFU_DNLOAD, DFU_GETSTATUS, callback.
use swindle_bootloader_gd.Common.{
  ℕ, ◌+◌, ◌/◌, ◌%◌, ◌^◌, ◌≤◌, ◌<◌, ◌≡◌, refl, false, List, [], ◌∷◌, ◌==◌, ltb, arith, length, take,
  blit, byte_at-lt, byte_at-blit-take, M, ◌>>=◌, Returns, returns, Returns_mono,
}
use swindle_bootloader_gd.Common.Words.{byte_at}
use swindle_bootloader_gd.Bus.{Env}
use swindle_bootloader_gd.Flash.{flash_lock, flash_unlock}
use swindle_bootloader_gd.Flash.Program.{flash_bytes}
use swindle_bootloader_gd.Device.{Config, Chip, dnload_idle, SetupData, dfu_transfer_size, Dfu}
use swindle_bootloader_gd.Dfu.{
  read_u32, cmd_setaddr, usbdfu_control_request, usbdfu_getstatus_complete,
}
use swindle_bootloader_gd.Dfu.Sized.{IsSized}

-- the little-endian bytes of a `uint32_t`
abbrev pub u32_bytes : ℕ → List ℕ
u32_bytes a = a % 256 ∷ a / 2 ^ 8 % 256 ∷ a / 2 ^ 16 % 256 ∷ a / 2 ^ 24 % 256 ∷ []

-- Behind any byte, the four little-endian bytes of a word are read back as that word, and what is
-- read of any bytes is a word.
pub read_u32-u32_bytes :
    (a c i : ℕ) (p : List ℕ)
    → a < 2 ^ 32
    → (read_u32 (c ∷ u32_bytes a) 1 ≡ a) × (read_u32 p i < 2 ^ 32)
unfolding read_u32 byte_at
read_u32-u32_bytes a c i p lt = (
  omega arith,
  omega (arith, byte_at-lt p i, byte_at-lt p (i + 1), byte_at-lt p (i + 2), byte_at-lt p (i + 3)),
)

-- The host's side of a command: the download, and the poll behind it.
abbrev pub command : Env → ℕ → Config → Chip → SetupData → SetupData → ℕ → M Dfu (Unit {0})
command env fuel cfg chip down poll len = do
  _ ← usbdfu_control_request env cfg chip down len
  _ ← usbdfu_control_request env cfg chip poll 6
  usbdfu_getstatus_complete env fuel cfg chip

-- A copy of at least five bytes agrees with the source on the command and its argument.
pub record Kept (src copy : List ℕ) : Type 0 where
  pub first : byte_at copy 0 ≡ byte_at src 0
  pub word : read_u32 copy 1 ≡ read_u32 src 1

pub copied :
    (n : ℕ) (xs dst : List ℕ)
    → 5 ≤ n
    → n ≤ length xs
    → n ≤ length dst
    → Kept xs (blit (take n xs) dst)
unfolding read_u32
copied n xs dst h p q =
    let same = λ (i : ℕ) (lt : i < n). byte_at-blit-take n i xs dst lt p q in
    record {
      first = same 0 (omega arith);
      word = omega (
        arith,
        same 1 (omega arith),
        same 2 (omega arith),
        same 3 (omega arith),
        same 4 (omega arith),
      );
    }

-- The command changes the target address and the state, and the flash not at all.
setaddr-run :
    (env : Env) (fuel : ℕ) (cfg : Config) (chip : Chip) (down poll : SetupData) (len : ℕ) (s : Dfu)
    → IsSized s
    → down.request ≡ 1
    → down.value ≡ 0
    → poll.request ≡ 3
    → 5 ≤ len
    → len ≤ dfu_transfer_size
    → byte_at s.control_buffer 0 ≡ cmd_setaddr
    → Returns
        (λ _ t.
          (t.prog.addr ≡ read_u32 s.control_buffer 1)
          × (t.usbdfu_state ≡ dnload_idle)
          × (flash_bytes t.log ≡ flash_bytes s.log))
        (command env fuel cfg chip down poll len s)
unfolding usbdfu_control_request usbdfu_getstatus_complete flash_lock flash_unlock flash_bytes
setaddr-run env fuel cfg chip down poll len s z d v p low high c =
    let nonzero : (len == 0) ≡ false = ground arith in
    let whole : ltb dfu_transfer_size len ≡ false = ground arith in
    let kept : Kept s.control_buffer (blit (take len s.control_buffer) s.prog.buf) =
      copied len s.control_buffer s.prog.buf low (omega (arith, z.control))
        (omega (arith, z.shadow)) in
    rw (d, p, nonzero, whole, v, kept.first, c) (returns (kept.word, refl, refl))

-- A payload that begins with the SETADDR code and an address sets that address, sent as block 0 and
-- polled, and the application is ready for the next download.
pub setaddr-command :
    (env : Env) (fuel : ℕ) (cfg : Config) (chip : Chip) (down poll : SetupData) (len : ℕ) (s : Dfu)
    → IsSized s
    → down.request ≡ 1
    → down.value ≡ 0
    → poll.request ≡ 3
    → 5 ≤ len
    → len ≤ dfu_transfer_size
    → byte_at s.control_buffer 0 ≡ cmd_setaddr
    → Returns
        (λ _ t. (t.prog.addr ≡ read_u32 s.control_buffer 1) × (t.usbdfu_state ≡ dnload_idle))
        (command env fuel cfg chip down poll len s)
setaddr-command env fuel cfg chip down poll len s z d v p low high c =
    Returns_mono (setaddr-run env fuel cfg chip down poll len s z d v p low high c)
      λ _ t (addr, idle, flash). (addr, idle)
