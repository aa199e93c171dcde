-- ===== src/Stage1.antt =====
-- Stage 1: src_stage1/main.cpp, the decision between the application and the DFU mode, and
-- src_stage1/ch32_crc.c.
pub mod Memory
pub mod Boots
pub mod Decision
use swindle_bootloader_gd.Common.{
  ℕ, zero, suc, ◌+◌, ◌-◌, ◌*◌, ◌/◌, ◌%◌, ◌^◌, bit_and, bit_or, Bool, true, false, not, ◌&&◌, ◌||◌,
  Option, none, some, List, [], ◌∷◌, ltb, ◌==◌, if◌then◌else◌, u32, M, pure, ◌>>=◌, ◌>>◌,
}
use swindle_bootloader_gd.Bus.{byte, word, Log, Env, load, store}
use swindle_bootloader_gd.Device.{start_addr}
use swindle_bootloader_gd.Board.{
  input_pullup, gpiob, gpioc, af, enable, CpuId, or_into, pin_mode, digital_read, peripheral_action,
  identify,
}

abbrev pub ram_start_addr : ℕ
ram_start_addr = 0x2000_0000

abbrev pub vtor : ℕ
vtor = 0xE000ED08

abbrev pub force_dfu_io : ℕ
force_dfu_io = 30

abbrev pub crc_data : ℕ
crc_data = 0x40023000

abbrev pub crc_control : ℕ
crc_control = 0x40023008

-- the two words of the 64-bit marker
abbrev pub marker_low : ℕ
marker_low = 0xCC00FFEE

abbrev pub marker_high : ℕ
marker_high = 0xDEADBEEF

-- Where the processor goes on: the vector table, and the two words that are loaded from it.
pub record Jump : Type 0 where
  pub base : ℕ
  pub stack : ℕ
  pub entry : ℕ

unfoldable pub clear_reboot_flags : M Log (Unit {0})
clear_reboot_flags = do store word ram_start_addr 0; store word (ram_start_addr + 4) 0

unfoldable pub reboot_into_bootloader : M Log (Unit {0})
reboot_into_bootloader = do
  store word ram_start_addr marker_low
  store word (ram_start_addr + 4) marker_high

-- `memcpy` to `p`, byte by byte
unfoldable pub copy_bytes : ℕ → List ℕ → M Log (Unit {0})
copy_bytes p [] h = pure tt h
copy_bytes p (b ∷ bytes) h = (do store byte p b; copy_bytes (p + 1) bytes) h

module _ (env : Env) where
  unfoldable pub rebooted_into_dfu : M Log Bool
  rebooted_into_dfu = do
    low ← load env word ram_start_addr
    high ← load env word (ram_start_addr + 4)
    pure ((low == marker_low) && (high == marker_high))

  unfoldable pub chain_to : ℕ → M Log Jump
  chain_to addr = do
    store word vtor addr
    stack ← load env word addr
    entry ← load env word (addr + 4)
    pure (record { base = addr; stack = stack; entry = entry })

  -- The loop of `ch32_crc`, with the words left.
  unfoldable pub feed_words : ℕ → ℕ → M Log (Unit {0})
  feed_words zero p h = pure tt h
  feed_words (suc n) p h = (do v ← load env word p; store word crc_data v; feed_words n (p + 4)) h

  unfoldable pub ch32_crc : ℕ → ℕ → M Log ℕ
  unfolding feed_words
  ch32_crc addr len_in_u32 = do
    or_into env 0x40021014 0x40
    store word crc_control 1
    feed_words len_in_u32 addr
    load env word crc_data

  -- the three bits that are cleared, and the value 0 for them, then the remap of timer 1
  unfoldable pub exti_swd_only : M Log (Unit {0})
  exti_swd_only = do
    v ← load env word 0x40010004
    store word 0x40010004 (bit_or (bit_and v (0xffff_ffff - 7 * 2 ^ 24)) 0)
    v ← load env word 0x40010004
    store word 0x40010004 (bit_or (bit_and v (0xffff_ffff - 3 * 2 ^ 8)) (2 ^ 8))

  -- The `if (!go_dfu)` around the hash: the next `go_dfu`.
  unfoldable pub check_image : ℕ → ℕ → ℕ → M Log ℕ
  unfolding ch32_crc
  check_image go_dfu image_size checksum =
      if not (go_dfu == 0)
      then pure go_dfu
      else if ltb image_size (256 * 1024)
      then (if not (image_size == 0x1234) || not (checksum == 0x5678)
          then (do
            computed ← ch32_crc (start_addr + 16) (image_size / 4)
            pure (if computed == checksum then go_dfu else bit_or go_dfu 4))
          else pure go_dfu)
      else pure 1

  -- The end of `main`: the application, or stage 2, copied to RAM.
  unfoldable pub go_on : List ℕ → ℕ → M Log Jump
  unfolding chain_to copy_bytes
  go_on stage2_payload go_dfu =
      if go_dfu == 0
      then chain_to (bit_and start_addr 0xffff_fff0)
      else (do copy_bytes ram_start_addr stage2_payload; chain_to ram_start_addr)

  -- `main`; `unset` is what the local variables of `lnPinMode` hold before they are set.
  unfoldable pub main : ℕ → List ℕ → M Log Jump
  unfolding rebooted_into_dfu exti_swd_only check_image clear_reboot_flags go_on pin_mode
      digital_read peripheral_action identify
  main unset stage2_payload = do
    sig ← load env word start_addr
    image_size ← load env word (start_addr + 8)
    checksum ← load env word (start_addr + 12)
    asked ← rebooted_into_dfu
    let go : ℕ = if asked then 1 else 0
    peripheral_action env gpiob enable
    peripheral_action env gpioc enable
    peripheral_action env af enable
    exti_swd_only
    pin_mode env unset force_dfu_io input_pullup 0
    high ← digital_read env force_dfu_io
    let pressed : ℕ = if high then go else bit_or go 1
    let go_dfu : ℕ =
        if (pressed == 0) && not (sig / 2 ^ 20 == 0x200) then bit_or pressed 2 else pressed
    or_into env 0x40021024 (2 ^ 24)
    _ ← identify env (record { cpu_id = 0; flash_size = 0; gd = false })
    result ← check_image go_dfu image_size checksum
    clear_reboot_flags
    go_on stage2_payload result
