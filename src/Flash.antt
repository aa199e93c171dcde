-- ===== src/Flash.antt =====
-- The flash routines of src_stage2/flash.h. `page_size` is what `get_flash_page_size` returns.
-- Every busy-wait polls at most `fuel` times; a wait that runs out is a run that does not return.
pub mod Settles
pub mod Confined
pub mod Program
pub mod Total
pub mod Spared
pub mod Cells
pub mod Erase
pub mod Fill
use swindle_bootloader_gd.Common.{
  ℕ, zero, suc, ◌+◌, ◌-◌, ◌*◌, ◌/◌, ◌%◌, bit_and, bit_or, Bool, true, false, not, ◌||◌, none, List,
  ltb, ◌==◌, if◌then◌else◌, u32, byte_at, M, pure, ◌>>=◌, ◌>>◌,
}
use swindle_bootloader_gd.Bus.{half, word, Log, Env, load, store}

-- `fmc->KEY`, `OPTKEY`, `STAT`, `CTL` and `ADDR`
abbrev pub flash_keyr : ℕ
flash_keyr = 0x40022004

abbrev pub flash_optkeyr : ℕ
flash_optkeyr = 0x40022008

abbrev pub flash_sr : ℕ
flash_sr = 0x4002200C

abbrev pub flash_cr : ℕ
flash_cr = 0x40022010

abbrev pub flash_ar : ℕ
flash_ar = 0x40022014

abbrev pub sr_bsy : ℕ
sr_bsy = 0x01

abbrev pub cr_pg : ℕ
cr_pg = 0x01

abbrev pub cr_per : ℕ
cr_per = 0x02

abbrev pub cr_optpg : ℕ
cr_optpg = 0x10

abbrev pub cr_opter : ℕ
cr_opter = 0x20

abbrev pub cr_strt : ℕ
cr_strt = 0x40

abbrev pub cr_lock : ℕ
cr_lock = 0x80

-- The size and the new value of the static `cached_size`, which starts at 0.
unfoldable pub get_flash_page_size : Bool → ℕ → ℕ × ℕ
get_flash_page_size gd cached =
    let filled = if cached == 0 then (if gd then 2048 else 1024) else cached in (filled, filled)

-- `data[i]` as a little-endian `uint16_t` or `uint32_t`, `i` counting bytes
abbrev pub half_at : List ℕ → ℕ → ℕ
half_at buf i = byte_at buf i + byte_at buf (i + 1) * 256

abbrev pub word_at : List ℕ → ℕ → ℕ
word_at buf i = half_at buf i + half_at buf (i + 2) * 65536

module _ (env : Env) where
  -- `R |= bits` on a volatile register, and `R &= ~bits`
  abbrev pub set_bits : ℕ → ℕ → M Log (Unit {0})
  set_bits r bits = do v ← load env word r; store word r (bit_or v bits)

  abbrev pub clear_bits : ℕ → ℕ → M Log (Unit {0})
  clear_bits r bits = do v ← load env word r; store word r (bit_and v (0xffff_ffff - bits))

  unfoldable pub flash_lock : M Log (Unit {0})
  flash_lock = set_bits flash_cr cr_lock

  unfoldable pub flash_wait_for_last_operation : ℕ → M Log (Unit {0})
  flash_wait_for_last_operation zero h = none
  flash_wait_for_last_operation (suc k) h =
      (do
        sr ← load env word flash_sr
        let again = flash_wait_for_last_operation k
        if bit_and sr sr_bsy == 0 then pure tt else again)
        h

  unfoldable pub flash_erase_page : ℕ → ℕ → M Log (Unit {0})
  unfolding flash_wait_for_last_operation
  flash_erase_page fuel page_address = do
    flash_wait_for_last_operation fuel
    set_bits flash_cr cr_per
    store word flash_ar page_address
    set_bits flash_cr cr_strt
    flash_wait_for_last_operation fuel
    clear_bits flash_cr cr_per

  -- The two routines for option bytes, which ENABLE_PROTECTIONS builds in.
  unfoldable pub flash_erase_option_bytes : ℕ → M Log (Unit {0})
  unfolding flash_wait_for_last_operation
  flash_erase_option_bytes fuel = do
    flash_wait_for_last_operation fuel
    set_bits flash_cr cr_opter
    set_bits flash_cr cr_strt
    flash_wait_for_last_operation fuel
    clear_bits flash_cr cr_opter

  unfoldable pub flash_program_option_bytes : ℕ → ℕ → ℕ → M Log (Unit {0})
  unfolding flash_wait_for_last_operation
  flash_program_option_bytes fuel address value = do
    flash_wait_for_last_operation fuel
    set_bits flash_cr cr_optpg
    store half address value
    flash_wait_for_last_operation fuel
    clear_bits flash_cr cr_optpg

  -- The loop of `_flash_page_is_erased`, with the number of words left to read.
  unfoldable pub words_are_erased : ℕ → ℕ → M Log Bool
  words_are_erased zero p h = pure true h
  words_are_erased (suc n) p h =
      (do
        v ← load env word p
        let rest = words_are_erased n (u32 (p + 4))
        if v == 0xffff_ffff then rest else pure false)
        h

  unfoldable pub flash_page_is_erased : ℕ → ℕ → M Log Bool
  unfolding words_are_erased
  flash_page_is_erased page_size addr = words_are_erased (page_size / 4) addr

  -- The loops of `_flash_program_buffer16` and `32`: `n` elements are left, `i` bytes are done.
  unfoldable pub program_halves : ℕ → ℕ → List ℕ → ℕ → ℕ → M Log (Unit {0})
  program_halves fuel address buf zero i h = pure tt h
  program_halves fuel address buf (suc n) i h =
      (do
        store half (u32 (address + i)) (half_at buf i)
        flash_wait_for_last_operation fuel
        program_halves fuel address buf n (i + 2))
        h

  unfoldable pub program_words : ℕ → ℕ → List ℕ → ℕ → ℕ → M Log (Unit {0})
  program_words fuel address buf zero i h = pure tt h
  program_words fuel address buf (suc n) i h =
      (do
        store word (u32 (address + i)) (word_at buf i)
        flash_wait_for_last_operation fuel
        program_words fuel address buf n (i + 4))
        h

  unfoldable pub flash_program_buffer : ℕ → ℕ → List ℕ → ℕ → M Log (Unit {0})
  unfolding flash_wait_for_last_operation program_halves
  flash_program_buffer fuel address buf len = do
    flash_wait_for_last_operation fuel
    set_bits flash_cr cr_pg
    program_halves fuel address buf (len / 2) 0
    clear_bits flash_cr cr_pg

  -- `x & 3` is the remainder by 4.
  unfoldable pub flash_program_buffer_gd32 : ℕ → ℕ → List ℕ → ℕ → M Log (Unit {0})
  unfolding flash_wait_for_last_operation program_words flash_program_buffer
  flash_program_buffer_gd32 fuel address buf len =
      if not (len % 4 == 0) || not (address % 4 == 0)
      then flash_program_buffer fuel address buf len
      else do
        flash_wait_for_last_operation fuel
        set_bits flash_cr cr_pg
        program_words fuel address buf (len / 4) 0
        clear_bits flash_cr cr_pg

  -- `for (page = from; page < to; page += size) if (!erased(page)) erase(page)`, on `rounds`.
  unfoldable pub erase_pages : ℕ → ℕ → ℕ → ℕ → ℕ → M Log (Unit {0})
  erase_pages fuel size zero page to h = none
  erase_pages fuel size (suc rounds) page to h =
      let round : M Log (Unit {0}) = (do
        blank ← flash_page_is_erased size page
        if blank then pure tt else flash_erase_page fuel page
        erase_pages fuel size rounds (u32 (page + size)) to) in
      (if ltb page to then round else pure tt) h

unfoldable pub flash_unlock : Bool → M Log (Unit {0})
flash_unlock opt = do
  store word flash_keyr 0x45670123
  store word flash_keyr 0xcdef89ab
  if opt
      then (do store word flash_optkeyr 0x45670123; store word flash_optkeyr 0xcdef89ab)
      else pure tt
