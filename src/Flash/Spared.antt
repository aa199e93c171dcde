-- ===== src/Flash/Spared.antt =====
-- The routines of src_stage2/flash.h leave the boot loader's flash as it is, as far as they get.
use swindle_bootloader_gd.Common.{
  ℕ, zero, suc, ◌+◌, ◌-◌, ◌*◌, ◌/◌, ◌%◌, ◌^◌, ◌≤◌, ◌<◌, ◌≡◌, ◌≢◌, bit_and, bit_or, false, not, ◌||◌,
  List, [], ◌∷◌, ltb, ltb→lt, ◌==◌, if◌then◌else◌, arith, u32, pure, ◌>>=◌,
}
use swindle_bootloader_gd.Common.Partial.{
  nothing, holds, Any, Safe, Safe-pure, Safe-done, Safe-bind, Safe-if, Safe-test,
}
use swindle_bootloader_gd.Bus.{Width, half, word, modulus, read, write, Log, Env, load, store}
use swindle_bootloader_gd.Device.{flash_base_addr, start_addr}
use swindle_bootloader_gd.Flash.{
  flash_keyr, flash_sr, flash_cr, flash_ar, sr_bsy, cr_per, cr_strt, cr_pg, half_at, word_at,
  set_bits, clear_bits, flash_lock, flash_unlock, flash_wait_for_last_operation, flash_erase_page,
  words_are_erased, flash_page_is_erased, program_halves, program_words, flash_program_buffer,
  flash_program_buffer_gd32, erase_pages,
}

-- An address that is neither in the boot loader's flash nor the register of the page to erase.
pub record Clear (a : ℕ) : Type 0 where
  pub outside : flash_base_addr ≤ a → start_addr ≤ a
  pub elsewhere : a ≢ flash_ar

-- A write that leaves the boot loader's flash: not into it, and naming no page of it to erase.
pub record Harmless (a v : ℕ) : Type 0 where
  pub outside : flash_base_addr ≤ a → start_addr ≤ a
  pub page : a ≡ flash_ar → start_addr ≤ v

-- Every write of a run is harmless.
unfoldable pub Spared : Log → Type 0
Spared [] = Unit
Spared (read w a ∷ h) = Spared h
Spared (write w a v ∷ h) = Harmless a v × Spared h

pub before_ar-Clear : (a : ℕ) → start_addr ≤ a → a < flash_ar → Clear a
before_ar-Clear a lo hi = record { outside = λ h. lo; elsewhere = λ e. omega arith }

pub after_ar-Clear : (a : ℕ) → flash_ar < a → Clear a
after_ar-Clear a lo = record { outside = λ h. omega arith; elsewhere = λ e. omega arith }

pub Clear-Harmless : (a v : ℕ) → Clear a → Harmless a v
Clear-Harmless a v c = record { outside = c.outside; page = λ e. absurd (c.elsewhere e) }

pub load-Spared : (env : Env) (w : Width) (a : ℕ) → Safe Spared Any (load env w a)
unfolding Spared
load-Spared env w a = record { run = λ h s. holds (tt, s) }

pub store-Harmless :
    (w : Width) (a v : ℕ) → Harmless a (v % modulus w) → Safe Spared Any (store w a v)
unfolding Spared
store-Harmless w a v k = record { run = λ h s. holds (tt, (k, s)) }

pub store-Spared : (w : Width) (a v : ℕ) → Clear a → Safe Spared Any (store w a v)
store-Spared w a v c = store-Harmless w a v (Clear-Harmless a (v % modulus w) c)

cr-Clear : Clear flash_cr
cr-Clear = before_ar-Clear flash_cr (omega arith) (omega arith)

pub unlock-Spared : Safe Spared Any (flash_unlock false)
unfolding flash_unlock
unlock-Spared =
    let keyr = before_ar-Clear flash_keyr (omega arith) (omega arith) in
    Safe-bind (store-Spared word flash_keyr 0x45670123 keyr)
      λ _ _. Safe-bind (store-Spared word flash_keyr 0xcdef89ab keyr) λ _ _. Safe-done

module _ (env : Env) where
  -- A register that is read and written back.
  pub update-Spared :
      (w : Width) (a : ℕ) (f : ℕ → ℕ)
      → Clear a
      → Safe Spared Any (do v ← load env w a; store w a (f v))
  update-Spared w a f c = Safe-bind (load-Spared env w a) λ v _. store-Spared w a (f v) c

  cr_bits-Spared :
      (bits : ℕ)
      → Safe Spared Any (set_bits env flash_cr bits)
        × Safe Spared Any (clear_bits env flash_cr bits)
  cr_bits-Spared bits = (
    update-Spared word flash_cr (λ v. bit_or v bits) cr-Clear,
    update-Spared word flash_cr (λ v. bit_and v (0xffff_ffff - bits)) cr-Clear,
  )

  pub lock-Spared : Safe Spared Any (flash_lock env)
  unfolding flash_lock
  lock-Spared = (cr_bits-Spared 0x80).0

  wait-Spared : (fuel : ℕ) → Safe Spared Any (flash_wait_for_last_operation env fuel)
  unfolding flash_wait_for_last_operation
  wait-Spared zero = record { run = λ h s. nothing }
  wait-Spared (suc k) = record {
    run = λ h s.
        Safe.run
          (Safe-bind (load-Spared env word flash_sr)
            λ sr _. Safe-if (bit_and sr sr_bsy == 0) Safe-done (wait-Spared k))
          h s;
  }

  pub erase_page-Spared :
      (fuel page : ℕ)
      → start_addr ≤ page
      → page < 2 ^ 32
      → Safe Spared Any (flash_erase_page env fuel page)
  unfolding flash_erase_page
  erase_page-Spared fuel page lo hi =
      let named : Harmless flash_ar (page % modulus word) = record {
        outside = λ h. omega arith;
        page = λ e. omega arith;
      } in
      Safe-bind (wait-Spared fuel) λ _ _. Safe-bind (cr_bits-Spared cr_per).0 λ _ _.
        Safe-bind (store-Harmless word flash_ar page named) λ _ _.
          Safe-bind (cr_bits-Spared cr_strt).0
            λ _ _. Safe-bind (wait-Spared fuel) λ _ _. (cr_bits-Spared cr_per).1

  words_are_erased-Spared : (n p : ℕ) → Safe Spared Any (words_are_erased env n p)
  unfolding words_are_erased
  words_are_erased-Spared zero p = record { run = λ h s. holds (tt, s) }
  words_are_erased-Spared (suc n) p = record {
    run = λ h s.
        Safe.run
          (Safe-bind (load-Spared env word p) λ v _.
            Safe-if (v == 0xffff_ffff) (words_are_erased-Spared n (u32 (p + 4)))
              (Safe-pure false tt))
          h s;
  }

  pub page_is_erased-Spared : (size page : ℕ) → Safe Spared Any (flash_page_is_erased env size page)
  unfolding flash_page_is_erased
  page_is_erased-Spared size page = words_are_erased-Spared (size / 4) page

  pub clear_page-Spared :
      (fuel size page : ℕ)
      → start_addr ≤ page
      → page < 2 ^ 32
      → Safe Spared Any (do
        blank ← flash_page_is_erased env size page
        if blank then pure tt else flash_erase_page env fuel page)
  clear_page-Spared fuel size page lo hi =
      Safe-bind (page_is_erased-Spared size page)
        λ blank _. Safe-if blank Safe-done (erase_page-Spared fuel page lo hi)

  -- The pages from one behind the boot loader on, up to an end below which no sum wraps around.
  pub erase_pages-Spared :
      (fuel size rounds page to : ℕ)
      → start_addr ≤ page
      → to + size < 2 ^ 32
      → Safe Spared Any (erase_pages env fuel size rounds page to)
  unfolding erase_pages
  erase_pages-Spared fuel size zero page to lo hi = record { run = λ h s. nothing }
  erase_pages-Spared fuel size (suc rounds) page to lo hi = record {
    run = λ h s.
        Safe.run
          (Safe-test (ltb page to)
            (λ e.
              let below = ltb→lt page to e in
              Safe-bind (page_is_erased-Spared size page) λ blank _.
                Safe-bind (Safe-if blank Safe-done (erase_page-Spared fuel page lo (omega arith)))
                  λ _ _.
                    erase_pages-Spared fuel size rounds (u32 (page + size)) to (omega arith) hi)
            (λ e. Safe-done))
          h s;
  }

  module _ (fuel address : ℕ) (buf : List ℕ) (len : ℕ)
      (clear : (j : ℕ) → j < len → Clear (u32 (address + j))) where
    program_halves-Spared :
        (n i : ℕ) → i + 2 * n ≤ len → Safe Spared Any (program_halves env fuel address buf n i)
    unfolding program_halves
    program_halves-Spared zero i h = record { run = λ l s. holds (tt, s) }
    program_halves-Spared (suc n) i h = record {
      run = λ l s.
          Safe.run
            (Safe-bind
              (store-Spared half (u32 (address + i)) (half_at buf i) (clear i (omega arith)))
              λ _ _.
                Safe-bind (wait-Spared fuel) λ _ _. program_halves-Spared n (i + 2) (omega arith))
            l s;
    }

    program_words-Spared :
        (n i : ℕ) → i + 4 * n ≤ len → Safe Spared Any (program_words env fuel address buf n i)
    unfolding program_words
    program_words-Spared zero i h = record { run = λ l s. holds (tt, s) }
    program_words-Spared (suc n) i h = record {
      run = λ l s.
          Safe.run
            (Safe-bind
              (store-Spared word (u32 (address + i)) (word_at buf i) (clear i (omega arith)))
              λ _ _.
                Safe-bind (wait-Spared fuel) λ _ _. program_words-Spared n (i + 4) (omega arith))
            l s;
    }

    pub program_buffer-Spared : Safe Spared Any (flash_program_buffer env fuel address buf len)
    unfolding flash_program_buffer
    program_buffer-Spared = Safe-bind (wait-Spared fuel) λ _ _.
        Safe-bind (cr_bits-Spared cr_pg).0 λ _ _.
          Safe-bind (program_halves-Spared (len / 2) 0 (omega arith))
            λ _ _. (cr_bits-Spared cr_pg).1

    pub program_buffer_gd32-Spared :
        Safe Spared Any (flash_program_buffer_gd32 env fuel address buf len)
    unfolding flash_program_buffer_gd32
    program_buffer_gd32-Spared =
        Safe-if (not (len % 4 == 0) || not (address % 4 == 0)) program_buffer-Spared (
          Safe-bind (wait-Spared fuel) λ _ _. Safe-bind (cr_bits-Spared cr_pg).0 λ _ _.
            Safe-bind (program_words-Spared (len / 4) 0 (omega arith))
              λ _ _. (cr_bits-Spared cr_pg).1)
