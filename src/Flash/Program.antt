-- ===== src/Flash/Program.antt =====
-- What `_flash_program_buffer` and its GD32 variant leave in the flash, byte by byte.
use native.Mathlib.Nat.{add-zero, zero-add}
use swindle_bootloader_gd.Common.{
  ℕ, zero, suc, ◌+◌, ◌*◌, ◌/◌, ◌%◌, ◌^◌, ◌≤◌, ◌≡◌, refl, true, not, ◌||◌, List, [], ◌∷◌, ◌++◌,
  arith, ◌==◌, ltb, if◌then◌else◌, u32, byte_at, byte_at-lt, Returns, returns, Returns-bind,
  Returns_mono, Returns-if,
}
use swindle_bootloader_gd.Bus.{Width, byte, half, word, read, write, Log, Env, modulus}
use swindle_bootloader_gd.Flash.{
  flash_sr, flash_wait_for_last_operation, program_halves, program_words, flash_program_buffer,
  flash_program_buffer_gd32, half_at, word_at,
}
use swindle_bootloader_gd.Flash.Settles.{polls, Settles, wait-Polled}

-- The peripherals' registers lie from here on, the flash below.
abbrev pub periph_base : ℕ
periph_base = 0x4000_0000

-- The bytes of one write, the highest address first.
abbrev pub split : Width → ℕ → ℕ → List (ℕ × ℕ)
split byte a v = (a, v) ∷ []
split half a v = (a + 1, v / 256) ∷ (a, v % 256) ∷ []
split word a v =
    (a + 3, v / 2 ^ 24) ∷ (a + 2, v / 2 ^ 16 % 256) ∷ (a + 1, v / 256 % 256) ∷ (a, v % 256) ∷ []

-- The bytes written below the peripherals, with their addresses, the newest first.
unfoldable pub flash_bytes : Log → List (ℕ × ℕ)
flash_bytes [] = []
flash_bytes (read w a ∷ h) = flash_bytes h
flash_bytes (write w a v ∷ h) = (if ltb a periph_base then split w a v else []) ++ flash_bytes h

-- The first `n` bytes of a buffer, as bytes at `address` and on, the newest first.
unfoldable pub image : ℕ → List ℕ → ℕ → List (ℕ × ℕ)
image address buf zero = []
image address buf (suc n) = (address + n, byte_at buf n) ∷ image address buf n

pub flash_bytes-polls : (n : ℕ) (h : Log) → flash_bytes (polls n h) ≡ flash_bytes h
unfolding flash_bytes
flash_bytes-polls zero h = refl
flash_bytes-polls (suc n) h = flash_bytes-polls n (read word flash_sr ∷ h)

module _ (address : ℕ) (buf : List ℕ) (old : List (ℕ × ℕ)) where
  -- The run so far has put the first `i` bytes of the buffer behind the bytes `old`.
  abbrev Put : ℕ → Log → Type 0
  Put i h = flash_bytes h ≡ image address buf i ++ old

  Put-half :
      (i : ℕ) (h : Log)
      → address + i + 2 ≤ periph_base
      → Put i h
      → Put (i + 2) (write half (u32 (address + i)) (half_at buf i % modulus half) ∷ h)
  unfolding flash_bytes image
  Put-half i h fits e =
      let b0 = byte_at-lt buf i in
      let b1 = byte_at-lt buf (i + 1) in
      let at : u32 (address + i) ≡ address + i = omega arith in
      let inside : ltb (address + i) periph_base ≡ true = ground arith in
      let hi : half_at buf i % 2 ^ 16 / 256 ≡ byte_at buf (i + 1) = omega arith in
      let lo : half_at buf i % 2 ^ 16 % 256 ≡ byte_at buf i = omega arith in
      let two : i + 2 ≡ suc (suc i) = omega arith in
      let one : suc i ≡ i + 1 = omega arith in
      let a1 : address + i + 1 ≡ address + (i + 1) = omega arith in
      rw (at, inside, hi, lo, e, two) (rw one (rw a1))

  Put-word :
      (i : ℕ) (h : Log)
      → address + i + 4 ≤ periph_base
      → Put i h
      → Put (i + 4) (write word (u32 (address + i)) (word_at buf i % modulus word) ∷ h)
  unfolding flash_bytes image
  Put-word i h fits e =
      let b0 = byte_at-lt buf i in
      let b1 = byte_at-lt buf (i + 1) in
      let b2 = byte_at-lt buf (i + 2) in
      let b3 = byte_at-lt buf (i + 2 + 1) in
      let at : u32 (address + i) ≡ address + i = omega arith in
      let inside : ltb (address + i) periph_base ≡ true = ground arith in
      let v0 : word_at buf i % 2 ^ 32 % 256 ≡ byte_at buf i = omega arith in
      let v1 : word_at buf i % 2 ^ 32 / 256 % 256 ≡ byte_at buf (i + 1) = omega arith in
      let v2 : word_at buf i % 2 ^ 32 / 2 ^ 16 % 256 ≡ byte_at buf (i + 2) = omega arith in
      let v3 : word_at buf i % 2 ^ 32 / 2 ^ 24 ≡ byte_at buf (i + 2 + 1) = omega arith in
      let four : i + 4 ≡ suc (suc (suc (suc i))) = omega arith in
      let three : i + 2 + 1 ≡ suc (suc (suc i)) = omega arith in
      let two : i + 2 ≡ suc (suc i) = omega arith in
      let one : i + 1 ≡ suc i = omega arith in
      let a3 : address + i + 3 ≡ address + suc (suc (suc i)) = omega arith in
      let a2 : address + i + 2 ≡ address + suc (suc i) = omega arith in
      let a1 : address + i + 1 ≡ address + suc i = omega arith in
      rw (at, inside, v3, v2, v1, v0, e, four, three, two, one, a3, a2, a1)

  module _ (env : Env) (fuel : ℕ) (settles : Settles env fuel) where
    wait-Put :
        (i : ℕ) (h : Log)
        → Put i h
        → Returns (λ _ t. Put i t) (flash_wait_for_last_operation env fuel h)
    wait-Put i h p =
        let (k, lt, ready) = settles h in
        Returns_mono (wait-Polled env fuel k h lt ready)
          λ _ t (n, e). rw (e, flash_bytes-polls n h) p

    program_halves-Put :
        (n i : ℕ) (h : Log)
        → address + i + 2 * n ≤ periph_base
        → Put i h
        → Returns (λ _ t. Put (i + 2 * n) t) (program_halves env fuel address buf n i h)
    unfolding program_halves
    program_halves-Put zero i h fits p = returns (rw add-zero p)
    program_halves-Put (suc n) i h fits p =
        Returns-bind (wait-Put (i + 2) _ (Put-half i h (omega arith) p)) λ _ t q.
          let e : i + 2 * suc n ≡ i + 2 + 2 * n = omega arith in
          rw e (program_halves-Put n (i + 2) t (omega arith) q)

    program_words-Put :
        (n i : ℕ) (h : Log)
        → address + i + 4 * n ≤ periph_base
        → Put i h
        → Returns (λ _ t. Put (i + 4 * n) t) (program_words env fuel address buf n i h)
    unfolding program_words
    program_words-Put zero i h fits p = returns (rw add-zero p)
    program_words-Put (suc n) i h fits p =
        Returns-bind (wait-Put (i + 4) _ (Put-word i h (omega arith) p)) λ _ t q.
          let e : i + 4 * suc n ≡ i + 4 + 4 * n = omega arith in
          rw e (program_words-Put n (i + 4) t (omega arith) q)

    buffer-Put :
        (len : ℕ) (h : Log)
        → address + len ≤ periph_base
        → Put 0 h
        → Returns (λ _ t. Put (2 * (len / 2)) t) (flash_program_buffer env fuel address buf len h)
    unfolding flash_program_buffer flash_bytes
    buffer-Put len h fits p = Returns-bind (wait-Put 0 h p) λ _ t q.
        Returns-bind (program_halves-Put (len / 2) 0 _ (omega arith) q)
          λ _ u r. returns (rw zero-add at r)

    buffer_gd32-Put :
        (len : ℕ) (h : Log)
        → address + len ≤ periph_base
        → Put 0 h
        → Returns
            (λ _ t. Put (2 * (len / 2)) t)
            (flash_program_buffer_gd32 env fuel address buf len h)
    unfolding flash_program_buffer_gd32 flash_bytes
    buffer_gd32-Put len h fits p =
        Returns-if (not (len % 4 == 0) || not (address % 4 == 0)) _ _ h
          (λ _. buffer-Put len h fits p)
          (λ whole. Returns-bind (wait-Put 0 h p) λ _ t q.
            Returns-bind (program_words-Put (len / 4) 0 _ (omega arith) q) λ _ u r.
              let e : 0 + 4 * (len / 4) ≡ 2 * (len / 2) = ground arith in returns (rw e at r))

-- Both programming routines return, and both add to the flash the same bytes: the buffer's first
-- `len`, or `len - 1` if that is odd, each at its place from `address` on, once and in order. This
-- is for a controller whose busy flag clears and a buffer that ends below the peripherals.
pub program_buffer-image :
    (env : Env) (fuel address : ℕ) (buf : List ℕ) (len : ℕ) (h : Log)
    → Settles env fuel
    → address + len ≤ periph_base
    → let After = λ (t : Log). flash_bytes t ≡ image address buf (2 * (len / 2)) ++ flash_bytes h in
      Returns (λ _ t. After t) (flash_program_buffer env fuel address buf len h)
      × Returns (λ _ t. After t) (flash_program_buffer_gd32 env fuel address buf len h)
unfolding image
program_buffer-image env fuel address buf len h settles fits = (
  buffer-Put address buf (flash_bytes h) env fuel settles len h fits refl,
  buffer_gd32-Put address buf (flash_bytes h) env fuel settles len h fits refl,
)
