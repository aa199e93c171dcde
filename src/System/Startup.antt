-- ===== src/System/Startup.antt =====
-- What runs before `main` of either stage: arm_gd32fx/start.cpp.
pub mod Filled
use swindle_bootloader_gd.Common.{ℕ, zero, suc, ◌+◌, ◌-◌, ◌/◌, u32, M, pure, ◌>>=◌, ◌>>◌}
use swindle_bootloader_gd.Bus.{word, Log, Env, load, store}
use swindle_bootloader_gd.Stage2.{clear_words}

-- The symbols of the linker's script, and the address that `_lm_rom_img_cfgp` holds.
pub record Sections : Type 0 where
  pub image : ℕ
  pub data_start : ℕ
  pub data_end : ℕ
  pub bss_start : ℕ
  pub bss_end : ℕ

-- The rounds of `while (p < end) p++` on words.
abbrev pub words_between : ℕ → ℕ → ℕ
words_between first end = (end - first + 3) / 4

-- `RAM(offset)`
abbrev pub ram : ℕ → ℕ
ram offset = 0x2000_0000 + offset

module _ (env : Env) where
  unfoldable pub copy_words : ℕ → ℕ → ℕ → M Log (Unit {0})
  copy_words zero src dst h = pure tt h
  copy_words (suc n) src dst h =
      (do v ← load env word src; store word dst v; copy_words n (u32 (src + 4)) (u32 (dst + 4))) h

  -- Both loops of `start_c`.
  unfoldable pub load_sections : Sections → M Log (Unit {0})
  unfolding copy_words
  load_sections s = do
    copy_words (words_between s.data_start s.data_end) s.image s.data_start
    clear_words (words_between s.bss_start s.bss_end) s.bss_start

  -- `start_c` up to the call of `main`; `libc_init_array` is the C library's.
  unfoldable pub start_c : Sections → M Log (Unit {0}) → M Log (Unit {0})
  unfolding load_sections
  start_c s libc_init_array = do
    ram0 ← load env word (ram 0)
    ram1 ← load env word (ram 4)
    load_sections s
    libc_init_array
    store word (ram 0) ram0
    store word (ram 4) ram1
