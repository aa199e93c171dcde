-- ===== src/Flash/Confined.antt =====
-- The flash routines touch a region of the flash and nothing else of it.
use swindle_bootloader_gd.Common.{
  ℕ, zero, suc, ◌+◌, ◌-◌, ◌*◌, ◌/◌, ◌%◌, ◌^◌, ◌≤◌, ◌<◌, ◌≡◌, Bool, true, false, inl, inr, ◌⊎◌, List,
  ◌∷◌, arith, ltb, if◌then◌else◌, Bool-cases, u32, All, Returns_mono, ltb→lt, geb→ltb, pure,
  returns, Keeps, Keeps-pure, Keeps-bind, Keeps-if,
}
use swindle_bootloader_gd.Bus.{Width, byte, half, word, Access, read, write, Log, Env, store}
use native.Mathlib.Nat.{mod-eq_of_lt}
use swindle_bootloader_gd.Flash.{
  flash_cr, flash_ar, flash_keyr, flash_sr, cr_pg, cr_per, cr_strt, set_bits, clear_bits,
  flash_wait_for_last_operation, flash_erase_page, words_are_erased, flash_page_is_erased,
  program_halves, program_words, flash_program_buffer, flash_program_buffer_gd32, erase_pages,
}
use swindle_bootloader_gd.Flash.Settles.{polls, Settles, wait-Polled}

-- A part of the flash, and the size of the pages that the controller erases.
pub record Region : Type 0 where
  pub start : ℕ
  pub end : ℕ
  pub page : ℕ

abbrev pub bytes : Width → ℕ
bytes byte = 1
bytes half = 2
bytes word = 4

-- The page that holds the address `v` lies in the region.
pub record InPage (r : Region) (v : ℕ) : Type 0 where
  pub low : r.start ≤ v - v % r.page
  pub high : v - v % r.page + r.page ≤ r.end

-- What may be done: any read, a write to the lock or control register of the flash controller, the
-- choice of a page of the region for erasing, and a write to the region itself.
pub data Allowed (r : Region) : Access → Type 0 where
  reading : {w : Width} {a : ℕ} → Allowed r (read w a)
  control : {w : Width} {v : ℕ} → Allowed r (write w flash_cr v)
  unlocking : {w : Width} {v : ℕ} → Allowed r (write w flash_keyr v)
  erasing : {w : Width} {v : ℕ} → InPage r v → Allowed r (write w flash_ar v)
  programming : {w : Width} {a v : ℕ} → r.start ≤ a → a + bytes w ≤ r.end → Allowed r (write w a v)

abbrev pub Confined : Region → Log → Type 0
Confined r = All (Allowed r)

-- What the bootloader's region meets: whole pages of one of the two sizes, far from the top of the
-- address space.
pub record IsAligned (r : Region) : Type 0 where
  pub sized : (r.page ≡ 1024) ⊎ (r.page ≡ 2048)
  pub first : r.start % r.page ≡ 0
  pub last : r.end % r.page ≡ 0
  pub cap : r.end + 4096 ≤ 2 ^ 32

page_fits :
    (size start end v : ℕ)
    → (size ≡ 1024) ⊎ (size ≡ 2048)
    → start % size ≡ 0
    → end % size ≡ 0
    → start ≤ v
    → v < end
    → (start ≤ v - v % size) × (v - v % size + size ≤ end)
page_fits size start end v sized first last low high = elim sized [
  | inl e ↦ rw e (small (rw e at first) (rw e at last))
  | inr e ↦ rw e (large (rw e at first) (rw e at last))
]
  where
    small : start % 1024 ≡ 0 → end % 1024 ≡ 0 → (start ≤ v - v % 1024) × (v - v % 1024 + 1024 ≤ end)
    small f l = omega arith

    large : start % 2048 ≡ 0 → end % 2048 ≡ 0 → (start ≤ v - v % 2048) × (v - v % 2048 + 2048 ≤ end)
    large f l = omega arith

-- Every address of an aligned region lies in a page of it.
pub IsAligned-InPage : (r : Region) (v : ℕ) → IsAligned r → r.start ≤ v → v < r.end → InPage r v
IsAligned-InPage r v al low high =
    let (p, q) = page_fits r.page r.start r.end v al.sized al.first al.last low high in
    record { low = p; high = q }

-- The next page of the loop: no wrap-around, and one round less is needed.
step_bounds :
    (r : Region) (page to k : ℕ)
    → IsAligned r
    → page < to
    → to ≤ r.end
    → to ≤ page + suc k
    → (u32 (page + r.page) ≡ page + r.page) × (to ≤ page + r.page + k)
step_bounds r page to k al lt high enough = elim al.sized [
  | inl e ↦ rw e (omega (arith, al.cap))
  | inr e ↦ rw e (omega (arith, al.cap))
]

module _ (r : Region) where
  choose : (v : ℕ) → v < 2 ^ 32 → InPage r v → Keeps (Confined r) (store word flash_ar v)
  choose v lt fits = record { run = λ h c. returns (erasing (rw (mod-eq_of_lt lt) fits), c) }

  put : (w : Width) (a v : ℕ) → r.start ≤ a → a + bytes w ≤ r.end → Keeps (Confined r) (store w a v)
  put w a v low high = record { run = λ h c. returns (programming low high, c) }

module _ (r : Region) (env : Env) where
  Confined-polls : (n : ℕ) (h : Log) → Confined r h → Confined r (polls n h)
  Confined-polls zero h c = c
  Confined-polls (suc n) h c = Confined-polls n (read word flash_sr ∷ h) (reading, c)

  pub set_bits-Confined : (bits : ℕ) → Keeps (Confined r) (set_bits env flash_cr bits)
  set_bits-Confined bits = record { run = λ h c. returns (control, (reading, c)) }

  pub clear_bits-Confined : (bits : ℕ) → Keeps (Confined r) (clear_bits env flash_cr bits)
  clear_bits-Confined bits = record { run = λ h c. returns (control, (reading, c)) }

  pub words_are_erased-Confined : (n p : ℕ) → Keeps (Confined r) (words_are_erased env n p)
  unfolding words_are_erased
  words_are_erased-Confined zero p = Keeps-pure true
  words_are_erased-Confined (suc n) p = record {
    run = λ h c.
        Keeps.run (Keeps-if _ (words_are_erased-Confined n (u32 (p + 4))) (Keeps-pure false))
          (read word p ∷ h) (reading, c);
  }

  module _ (fuel : ℕ) (settles : Settles env fuel) where
    pub wait-Confined : Keeps (Confined r) (flash_wait_for_last_operation env fuel)
    wait-Confined = record {
      run = λ h c.
          let (k, lt, ready) = settles h in
          Returns_mono (wait-Polled env fuel k h lt ready)
            λ _ h' (n, e). rw e (Confined-polls n h c);
    }

    pub erase_page-Confined :
        (v : ℕ) → v < 2 ^ 32 → InPage r v → Keeps (Confined r) (flash_erase_page env fuel v)
    unfolding flash_erase_page
    erase_page-Confined v lt fits = Keeps-bind wait-Confined λ _.
        Keeps-bind (set_bits-Confined cr_per) λ _. Keeps-bind (choose r v lt fits) λ _.
          Keeps-bind (set_bits-Confined cr_strt)
            λ _. Keeps-bind wait-Confined λ _. clear_bits-Confined cr_per

    pub program_halves-Confined :
        (address : ℕ) (buf : List ℕ) (n i : ℕ)
        → r.start ≤ address
        → address + i + 2 * n ≤ r.end
        → r.end ≤ 2 ^ 32
        → Keeps (Confined r) (program_halves env fuel address buf n i)
    unfolding program_halves
    program_halves-Confined address buf zero i low high cap = Keeps-pure tt
    program_halves-Confined address buf (suc n) i low high cap =
        Keeps-bind (put r half _ _ (omega arith) (omega arith)) λ _.
          Keeps-bind wait-Confined
            λ _. program_halves-Confined address buf n (i + 2) low (omega arith) cap

    pub program_words-Confined :
        (address : ℕ) (buf : List ℕ) (n i : ℕ)
        → r.start ≤ address
        → address + i + 4 * n ≤ r.end
        → r.end ≤ 2 ^ 32
        → Keeps (Confined r) (program_words env fuel address buf n i)
    unfolding program_words
    program_words-Confined address buf zero i low high cap = Keeps-pure tt
    program_words-Confined address buf (suc n) i low high cap =
        Keeps-bind (put r word _ _ (omega arith) (omega arith)) λ _.
          Keeps-bind wait-Confined
            λ _. program_words-Confined address buf n (i + 4) low (omega arith) cap

    module _ (address : ℕ) (buf : List ℕ) (len : ℕ) (low : r.start ≤ address)
        (high : address + len ≤ r.end) (cap : r.end ≤ 2 ^ 32) where
      pub program_buffer-Confined :
          Keeps (Confined r) (flash_program_buffer env fuel address buf len)
      unfolding flash_program_buffer
      program_buffer-Confined = Keeps-bind wait-Confined λ _.
          Keeps-bind (set_bits-Confined cr_pg) λ _.
            Keeps-bind (program_halves-Confined address buf (len / 2) 0 low (omega arith) cap)
              λ _. clear_bits-Confined cr_pg

      pub program_buffer_gd32-Confined :
          Keeps (Confined r) (flash_program_buffer_gd32 env fuel address buf len)
      unfolding flash_program_buffer_gd32
      program_buffer_gd32-Confined = Keeps-if _ program_buffer-Confined (
          Keeps-bind wait-Confined λ _. Keeps-bind (set_bits-Confined cr_pg) λ _.
            Keeps-bind (program_words-Confined address buf (len / 4) 0 low (omega arith) cap)
              λ _. clear_bits-Confined cr_pg)

    -- One page, erased unless it is blank.
    pub clear_page-Confined :
        (v : ℕ)
        → v < 2 ^ 32
        → InPage r v
        → (b : Bool) → Keeps (Confined r) (if b then pure tt else flash_erase_page env fuel v)
    clear_page-Confined v lt fits b = Keeps-if b (Keeps-pure tt) (erase_page-Confined v lt fits)

    -- The pages from an address of the region up to another, all of the region.
    pub erase_pages-Confined :
        (k page to : ℕ)
        → IsAligned r
        → r.start ≤ page
        → to ≤ r.end
        → to ≤ page + k
        → Keeps (Confined r) (erase_pages env fuel r.page (suc k) page to)
    unfolding erase_pages flash_page_is_erased
    erase_pages-Confined zero page to al low high enough = record {
      run = λ h c. rw (geb→ltb page to (omega arith)) (returns c);
    }
    erase_pages-Confined (suc k) page to al low high enough = elim (Bool-cases (ltb page to)) [
      | inr out ↦ record { run = λ h c. rw out (returns c) }
      | inl more ↦
          let lt : page < to = ltb→lt page to more in
          let next = step_bounds r page to k al lt high enough in
          let round = Keeps-bind (words_are_erased-Confined (r.page / 4) page) λ blank.
            Keeps-bind
              (clear_page-Confined page (omega (arith, al.cap))
                (IsAligned-InPage r page al low (omega arith)) blank)
              λ _.
                erase_pages-Confined k (u32 (page + r.page)) to al (omega (arith, next)) high
                  (omega (arith, next)) in
          record { run = λ h c. rw more (Keeps.run round h c) }
    ]
