-- ===== src/Flash/Cells.antt =====
-- What the flash holds after a run, by the rules of its controller: a page is erased by a write that
-- sets STRT with PER, and a write to the flash with PG set clears digits of what is there. The lock is
-- left out, and so is the mass erase, which no routine of flash.h asks for.
use swindle_bootloader_gd.Common.{
  ℕ, zero, suc, ◌+◌, ◌-◌, ◌*◌, ◌%◌, ◌^◌, ◌≤◌, ◌<◌, ◌≡◌, refl, bit_and, bit_and-small, digit, Bool,
  true, false, ◌&&◌, ◌⊎◌, Option, none, some, List, [], ◌∷◌, leb, ltb, ◌==◌, if◌then◌else◌, if-each,
  arith,
}
use swindle_bootloader_gd.Bus.{Width, word, read, write, Log, Env, modulus}
use swindle_bootloader_gd.Clock.Waits.{latest}
use swindle_bootloader_gd.Flash.{flash_cr, flash_ar, flash_sr}
use swindle_bootloader_gd.Flash.Settles.{polls}
use swindle_bootloader_gd.Flash.Program.{periph_base, split}

-- The page that the address register names has an address.
abbrev in_page : ℕ → ℕ → ℕ → Bool
in_page size named x = leb (named - named % size) x && ltb x (named - named % size + size)

-- STRT and PER
abbrev pub starts : ℕ → Bool
starts v = (digit 6 v == 1) && (digit 1 v == 1)

abbrev pub or_zero : Option ℕ → ℕ
or_zero none = 0
or_zero (some v) = v

-- PG, as it was last written
abbrev pub armed : Log → Bool
armed h = digit 0 (or_zero (latest flash_cr h)) == 1

-- The byte at `x` when some bytes are programmed, over what is there.
abbrev pub program : List (ℕ × ℕ) → ℕ → ℕ → ℕ
program [] x old = old
program ((a, b) ∷ bytes) x old = if x == a then bit_and (b % 256) old else program bytes x old

-- The byte at an address below the peripherals, for what the flash held before.
unfoldable pub cells : ℕ → (ℕ → ℕ) → Log → ℕ → ℕ
unfolding latest
cells size rom [] x = rom x
cells size rom (read w a ∷ h) x = cells size rom h x
cells size rom (write w a v ∷ h) x =
    let old = cells size rom h x in
    if a == flash_cr
    then (if starts v && in_page size (or_zero (latest flash_ar h)) x then 255 else old)
    else if ltb a periph_base && armed h
    then program (split w a v) x old
    else old

abbrev pub word_of : (ℕ → ℕ) → ℕ → ℕ
word_of f a = f a + f (a + 1) * 2 ^ 8 + f (a + 2) * 2 ^ 16 + f (a + 3) * 2 ^ 24

-- The hardware: the flash held bytes, reading it gives what it holds, and its control register reads
-- PER as it was last written, and STRT, which the end of an erasure clears, as 0.
pub record NorFlash (env : Env) (size : ℕ) (rom : ℕ → ℕ) : Type 0 where
  pub bytes : (x : ℕ) → rom x < 256
  pub reading :
      (h : Log) (a : ℕ)
      → a + 4 ≤ periph_base
      → env h word a % modulus word ≡ word_of (cells size rom h) a
  pub per :
      (h : Log) (v : ℕ)
      → latest flash_cr h ≡ some v
      → digit 1 (env h word flash_cr % modulus word) ≡ digit 1 v
  pub strt : (h : Log) → digit 6 (env h word flash_cr % modulus word) ≡ 0

program-lt : (bytes : List (ℕ × ℕ)) (x old : ℕ) → old < 256 → program bytes x old < 256
program-lt [] x old lt = lt
program-lt ((a, b) ∷ bytes) x old lt =
    if-each (λ y. y < 256) (x == a) (λ _. bit_and-small 8 (b % 256) old (omega arith))
      λ _. program-lt bytes x old lt

module _ (size : ℕ) (rom : ℕ → ℕ) where
  pub cells-lt : ((x : ℕ) → rom x < 256) → (h : Log) (x : ℕ) → cells size rom h x < 256
  unfolding cells
  cells-lt small [] x = small x
  cells-lt small (read w a ∷ h) x = cells-lt small h x
  cells-lt small (write w a v ∷ h) x =
      let old = cells-lt small h x in
      if-each (λ y. y < 256) (a == flash_cr)
        (λ _.
          if-each (λ y. y < 256) (starts v && in_page size (or_zero (latest flash_ar h)) x)
            (λ _. omega arith) λ _. old)
        λ _.
          if-each (λ y. y < 256) (ltb a periph_base && armed h)
            (λ _. program-lt (split w a v) x (cells size rom h x) old) λ _. old

  pub cells-polls : (n : ℕ) (h : Log) (x : ℕ) → cells size rom (polls n h) x ≡ cells size rom h x
  unfolding cells
  cells-polls zero h x = refl
  cells-polls (suc n) h x = cells-polls n (read word flash_sr ∷ h) x

  not_started : (v : ℕ) → digit 6 v ≡ 0 → starts v ≡ false
  not_started v e = rw e refl

  started : (v : ℕ) → digit 6 v ≡ 1 → digit 1 v ≡ 1 → starts v ≡ true
  started v e d = rw (e, d) refl

  -- A write to the control register that starts nothing.
  pub control-kept :
      (w : Width) (v : ℕ) (h : Log) (x : ℕ)
      → digit 6 v ≡ 0
      → cells size rom (write w flash_cr v ∷ h) x ≡ cells size rom h x
  unfolding cells
  control-kept w v h x e = let idle = not_started v e in rw idle refl

  -- One that erases the page.
  pub erase-inside :
      (w : Width) (v page : ℕ) (h : Log) (x : ℕ)
      → digit 6 v ≡ 1
      → digit 1 v ≡ 1
      → latest flash_ar h ≡ some page
      → page % size ≡ 0
      → page ≤ x
      → x < page + size
      → cells size rom (write w flash_cr v ∷ h) x ≡ 255
  unfolding cells
  erase-inside w v page h x e d named whole low high =
      let on = started v e d in
      let here : in_page size page x ≡ true = rw whole (ground arith) in rw (on, named, here) refl

  pub erase-outside :
      (w : Width) (v page : ℕ) (h : Log) (x : ℕ)
      → digit 6 v ≡ 1
      → digit 1 v ≡ 1
      → latest flash_ar h ≡ some page
      → page % size ≡ 0
      → (x < page) ⊎ (page + size ≤ x)
      → cells size rom (write w flash_cr v ∷ h) x ≡ cells size rom h x
  unfolding cells
  erase-outside w v page h x e d named whole out =
      let on = started v e d in
      let here : in_page size page x ≡ false = rw whole (ground arith) in rw (on, named, here) refl

pub latest-polls : (r n : ℕ) (h : Log) → latest r (polls n h) ≡ latest r h
unfolding latest
latest-polls r zero h = refl
latest-polls r (suc n) h = latest-polls r n (read word flash_sr ∷ h)
