-- ===== src/Flash/Total.antt =====
-- The routines of src_stage2/flash.h come back, wherever they are sent, if the controller settles.
use swindle_bootloader_gd.Common.{
  ℕ, zero, suc, ◌+◌, ◌/◌, ◌%◌, ◌^◌, ◌≤◌, ◌<◌, ◌≡◌, true, false, inl, inr, ◌⊎◌, List, not, ◌||◌,
  ◌==◌, arith, ltb, Bool-cases, u32, Returns_mono, ltb→lt, geb→ltb, returns, Gives, Gives-pure,
  Gives-bind, Gives-if,
}
use swindle_bootloader_gd.Bus.{Done, half, word, Env, load-Gives, store-Gives}
use swindle_bootloader_gd.Flash.{
  flash_cr, flash_ar, cr_pg, cr_per, cr_strt, cr_lock, set_bits, clear_bits, half_at, word_at,
  flash_wait_for_last_operation, flash_erase_page, words_are_erased, flash_page_is_erased,
  program_halves, program_words, flash_program_buffer, flash_program_buffer_gd32, erase_pages,
  flash_lock, flash_unlock,
}
use swindle_bootloader_gd.Flash.Settles.{Settles, wait-Polled}

-- A round's page is behind the next one by a page, so the rounds left are enough for the rest.
step_enough :
    (size page to k : ℕ)
    → (size ≡ 1024) ⊎ (size ≡ 2048)
    → to + 4096 ≤ 2 ^ 32
    → page < to
    → to ≤ page + suc k
    → to ≤ u32 (page + size) + k
step_enough size page to k (inl e) cap lt enough = rw e (omega arith)
step_enough size page to k (inr e) cap lt enough = rw e (omega arith)

pub unlock-Done : Done (flash_unlock false)
unfolding flash_unlock
unlock-Done = record { run = λ h. returns tt }

module _ (env : Env) where
  set_bits-Done : (bits : ℕ) → Done (set_bits env flash_cr bits)
  set_bits-Done bits = record { run = λ h. returns tt }

  clear_bits-Done : (bits : ℕ) → Done (clear_bits env flash_cr bits)
  clear_bits-Done bits = record { run = λ h. returns tt }

  pub lock-Done : Done (flash_lock env)
  unfolding flash_lock
  lock-Done = set_bits-Done cr_lock

  words_are_erased-Done : (n p : ℕ) → Done (words_are_erased env n p)
  unfolding words_are_erased
  words_are_erased-Done zero p = Gives-pure true tt
  words_are_erased-Done (suc n) p = Gives-bind (load-Gives env word p) λ v _.
      Gives-if (v == 0xffff_ffff) (words_are_erased-Done n (u32 (p + 4))) (Gives-pure false tt)

  pub page_is_erased-Done : (size p : ℕ) → Done (flash_page_is_erased env size p)
  unfolding flash_page_is_erased
  page_is_erased-Done size p = words_are_erased-Done (size / 4) p

  module _ (fuel : ℕ) (settles : Settles env fuel) where
    wait-Done : Done (flash_wait_for_last_operation env fuel)
    wait-Done = record {
      run = λ h.
          let (k, lt, ready) = settles h in
          Returns_mono (wait-Polled env fuel k h lt ready) λ _ _ _. tt;
    }

    pub erase_page-Done : (v : ℕ) → Done (flash_erase_page env fuel v)
    unfolding flash_erase_page
    erase_page-Done v = Gives-bind wait-Done λ _ _. Gives-bind (set_bits-Done cr_per) λ _ _.
        Gives-bind (store-Gives word flash_ar v) λ _ _.
          Gives-bind (set_bits-Done cr_strt)
            λ _ _. Gives-bind wait-Done λ _ _. clear_bits-Done cr_per

    program_halves-Done :
        (address : ℕ) (buf : List ℕ) (n i : ℕ) → Done (program_halves env fuel address buf n i)
    unfolding program_halves
    program_halves-Done address buf zero i = Gives-pure tt tt
    program_halves-Done address buf (suc n) i =
        Gives-bind (store-Gives half (u32 (address + i)) (half_at buf i))
          λ _ _. Gives-bind wait-Done λ _ _. program_halves-Done address buf n (i + 2)

    program_words-Done :
        (address : ℕ) (buf : List ℕ) (n i : ℕ) → Done (program_words env fuel address buf n i)
    unfolding program_words
    program_words-Done address buf zero i = Gives-pure tt tt
    program_words-Done address buf (suc n) i =
        Gives-bind (store-Gives word (u32 (address + i)) (word_at buf i))
          λ _ _. Gives-bind wait-Done λ _ _. program_words-Done address buf n (i + 4)

    pub program_buffer-Done :
        (address : ℕ) (buf : List ℕ) (len : ℕ)
        → Done (flash_program_buffer env fuel address buf len)
    unfolding flash_program_buffer
    program_buffer-Done address buf len = Gives-bind wait-Done λ _ _.
        Gives-bind (set_bits-Done cr_pg) λ _ _.
          Gives-bind (program_halves-Done address buf (len / 2) 0) λ _ _. clear_bits-Done cr_pg

    pub program_buffer_gd32-Done :
        (address : ℕ) (buf : List ℕ) (len : ℕ)
        → Done (flash_program_buffer_gd32 env fuel address buf len)
    unfolding flash_program_buffer_gd32
    program_buffer_gd32-Done address buf len =
        Gives-if (not (len % 4 == 0) || not (address % 4 == 0))
          (program_buffer-Done address buf len)
          (Gives-bind wait-Done λ _ _. Gives-bind (set_bits-Done cr_pg) λ _ _.
            Gives-bind (program_words-Done address buf (len / 4) 0) λ _ _. clear_bits-Done cr_pg)

    -- Enough rounds for the distance, and an end a page away from the top of the address space.
    pub erase_pages-Done :
        (size k page to : ℕ)
        → (size ≡ 1024) ⊎ (size ≡ 2048)
        → to + 4096 ≤ 2 ^ 32
        → to ≤ page + k
        → Done (erase_pages env fuel size (suc k) page to)
    unfolding erase_pages
    erase_pages-Done size zero page to sized cap enough = record {
      run = λ h. rw (geb→ltb page to (omega arith)) (returns tt);
    }
    erase_pages-Done size (suc k) page to sized cap enough = elim (Bool-cases (ltb page to)) [
      | inr out ↦ record { run = λ h. rw out (returns tt) }
      | inl more ↦
          let lt : page < to = ltb→lt page to more in
          let next : to ≤ u32 (page + size) + k = step_enough size page to k sized cap lt enough in
          let round = Gives-bind (page_is_erased-Done size page) λ blank _.
            Gives-bind (Gives-if blank (Gives-pure tt tt) (erase_page-Done page))
              λ _ _. erase_pages-Done size k (u32 (page + size)) to sized cap next in
          record { run = λ h. rw more (Gives.run round h) }
    ]
