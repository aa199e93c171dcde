-- ===== src/Flash/Fill.antt =====
-- The programming routines of src_stage2/flash.h fill blank flash with the bytes of a buffer.
use native.Mathlib.Nat.{add-zero, zero-add}
use swindle_bootloader_gd.Common.{
  ℕ, zero, suc, ◌+◌, ◌-◌, ◌*◌, ◌/◌, ◌%◌, ◌^◌, ◌≤◌, ◌<◌, ◌≡◌, refl, sym, ap, ◌∙◌, bit_and, bit_or,
  bit_and-fits, digit, true, false, not, ◌||◌, inl, inr, ◌⊎◌, List, ◌∷◌, ltb, ◌==◌, arith, u32,
  byte_at, byte_at-lt, Returns, returns, Returns-bind, Returns_mono, Returns-if,
}
use swindle_bootloader_gd.Bus.{Width, half, word, read, write, Log, Env, modulus}
use swindle_bootloader_gd.Clock.Waits.{latest, digit-set}
use swindle_bootloader_gd.Flash.{
  flash_cr, flash_wait_for_last_operation, program_halves, program_words, flash_program_buffer,
  flash_program_buffer_gd32, half_at, word_at,
}
use swindle_bootloader_gd.Flash.Settles.{polls, Settles}
use swindle_bootloader_gd.Flash.Program.{periph_base, split}
use swindle_bootloader_gd.Flash.Cells.{
  cells, armed, program, NorFlash, cells-polls, latest-polls, control-kept,
}
use swindle_bootloader_gd.Flash.Erase.{waited, digit-unset, digit-cleared}

-- Programming blank flash.
onto_blank : (b old : ℕ) → b < 256 → old ≡ 255 → bit_and b old ≡ b
onto_blank b old lt e = rw e (bit_and-fits 8 b lt)

half-hits :
    (a v old : ℕ)
    → (program (split half a v) a old ≡ bit_and (v % 256 % 256) old)
      × (program (split half a v) (a + 1) old ≡ bit_and (v / 256 % 256) old)
half-hits a v old = (ground arith, ground arith)

half-misses : (a v x old : ℕ) → (x < a) ⊎ (a + 2 ≤ x) → program (split half a v) x old ≡ old
half-misses a v x old out = ground arith

word-hits :
    (a v old : ℕ)
    → (program (split word a v) a old ≡ bit_and (v % 256 % 256) old)
      × (program (split word a v) (a + 1) old ≡ bit_and (v / 256 % 256 % 256) old)
      × (program (split word a v) (a + 2) old ≡ bit_and (v / 2 ^ 16 % 256 % 256) old)
      × (program (split word a v) (a + 3) old ≡ bit_and (v / 2 ^ 24 % 256) old)
word-hits a v old = (ground arith, ground arith, ground arith, ground arith)

word-misses : (a v x old : ℕ) → (x < a) ⊎ (a + 4 ≤ x) → program (split word a v) x old ≡ old
word-misses a v x old out = ground arith

module _ (size : ℕ) (rom : ℕ → ℕ) where
  -- A write to the flash while PG is set.
  write-program :
      (w : Width) (a v : ℕ) (h : Log) (x : ℕ)
      → a < periph_base
      → armed h ≡ true
      → cells size rom (write w a v ∷ h) x ≡ program (split w a v) x (cells size rom h x)
  unfolding cells
  write-program w a v h x lt on =
      let apart : (a == flash_cr) ≡ false = ground arith in
      let below : ltb a periph_base ≡ true = ground arith in rw (apart, below, on) refl

  write-armed :
      (w : Width) (a v : ℕ) (h : Log)
      → a < periph_base
      → armed h ≡ true
      → armed (write w a v ∷ h) ≡ true
  unfolding latest
  write-armed w a v h lt on = let apart : (a == flash_cr) ≡ false = ground arith in rw apart on

  module _ (address : ℕ) (buf : List ℕ) (start : Log) where
    -- The first `i` bytes of the buffer are in place, and the rest of the flash is as at the start.
    pub record Filled (i : ℕ) (h : Log) : Type 0 where
      pub filled : (j : ℕ) → j < i → cells size rom h (address + j) ≡ byte_at buf j
      pub kept :
          (x : ℕ) → (x < address) ⊎ (address + i ≤ x) → cells size rom h x ≡ cells size rom start x

    record Filling (i : ℕ) (h : Log) : Type 0 where
      so_far : Filled i h
      on : armed h ≡ true

    polls-Filling : (n i : ℕ) (h : Log) → Filling i h → Filling i (polls n h)
    polls-Filling n i h f = record {
      so_far = record {
        filled = λ j lt. cells-polls size rom n h (address + j) ∙ f.so_far.filled j lt;
        kept = λ x out. cells-polls size rom n h x ∙ f.so_far.kept x out;
      };
      on = rw (latest-polls flash_cr n h) f.on;
    }

    -- One write of `n` bytes behind the first `i`.
    fill-step :
        (w : Width) (n i v : ℕ) (h : Log)
        → address + i < periph_base
        → ((k : ℕ) → k < n → cells size rom start (address + (i + k)) ≡ 255)
        → ((k old : ℕ)
            → k < n
            → old ≡ 255
            → program (split w (address + i) v) (address + i + k) old ≡ byte_at buf (i + k))
        → ((x old : ℕ)
            → (x < address + i) ⊎ (address + i + n ≤ x)
            → program (split w (address + i) v) x old ≡ old)
        → Filling i h
        → Filling (i + n) (write w (address + i) v ∷ h)
    fill-step w n i v h lt blank hits misses f = record {
      so_far = record {
        filled = λ j fits. elim (before_or j) [
          | inl before ↦
              write-program w (address + i) v h (address + j) lt f.on
              ∙ misses (address + j) (cells size rom h (address + j)) (inl (omega arith))
              ∙ f.so_far.filled j before
          | inr (k, e) ↦
              let place : address + (i + k) ≡ address + i + k = omega arith in
              rw e (
                rw place (
                  write-program w (address + i) v h (address + i + k) lt f.on
                  ∙ hits k (cells size rom h (address + i + k)) (omega arith) (
                      f.so_far.kept (address + i + k) (inr (omega arith))
                      ∙ ap (cells size rom start) (sym place)
                      ∙ blank k (omega arith))))
        ];
        kept = λ x out.
            write-program w (address + i) v h x lt f.on
            ∙ misses x (cells size rom h x) (outer x out)
            ∙ f.so_far.kept x (inner x out);
      };
      on = write-armed w (address + i) v h lt f.on;
    }
      where
        split_at : (j : ℕ) → (j < i) ⊎ (i ≤ j)
        split_at j = ground arith

        before_or : (j : ℕ) → (j < i) ⊎ ((k : ℕ) × (j ≡ i + k))
        before_or j = elim (split_at j) [ inl b ↦ inl b | inr g ↦ inr (j - i, omega arith) ]

        outer :
            (x : ℕ)
            → (x < address) ⊎ (address + (i + n) ≤ x)
            → (x < address + i) ⊎ (address + i + n ≤ x)
        outer x out = ground arith

        inner :
            (x : ℕ) → (x < address) ⊎ (address + (i + n) ≤ x) → (x < address) ⊎ (address + i ≤ x)
        inner x out = ground arith

    half-bytes :
        (i k old : ℕ)
        → k < 2
        → old ≡ 255
        → program (split half (address + i) (half_at buf i % modulus half)) (address + i + k) old
          ≡ byte_at buf (i + k)
    half-bytes i zero old lt e =
        let b0 = byte_at-lt buf i in
        let b1 = byte_at-lt buf (i + 1) in
        let v = half_at buf i % modulus half in
        let low : v % 256 % 256 ≡ byte_at buf i = omega arith in
        rw (add-zero (address + i), add-zero i)
          ((half-hits (address + i) v old).0 ∙ onto_blank (v % 256 % 256) old (omega arith) e ∙ low)
    half-bytes i (suc zero) old lt e =
        let b0 = byte_at-lt buf i in
        let b1 = byte_at-lt buf (i + 1) in
        let v = half_at buf i % modulus half in
        let high : v / 256 % 256 ≡ byte_at buf (i + 1) = omega arith in
        (half-hits (address + i) v old).1 ∙ onto_blank (v / 256 % 256) old (omega arith) e ∙ high
    half-bytes i (suc (suc k)) old lt e = absurd (omega arith)

    word-bytes :
        (i k old : ℕ)
        → k < 4
        → old ≡ 255
        → program (split word (address + i) (word_at buf i % modulus word)) (address + i + k) old
          ≡ byte_at buf (i + k)
    word-bytes i k old lt e = at_place k lt
      where
        v : ℕ
        v = word_at buf i % modulus word

        hits :
            (program (split word (address + i) v) (address + i) old ≡ bit_and (v % 256 % 256) old)
            × (program (split word (address + i) v) (address + i + 1) old
                ≡ bit_and (v / 256 % 256 % 256) old)
            × (program (split word (address + i) v) (address + i + 2) old
                ≡ bit_and (v / 2 ^ 16 % 256 % 256) old)
            × (program (split word (address + i) v) (address + i + 3) old
                ≡ bit_and (v / 2 ^ 24 % 256) old)
        hits = word-hits (address + i) v old

        values :
            (v % 256 % 256 ≡ byte_at buf i)
            × (v / 256 % 256 % 256 ≡ byte_at buf (i + 1))
            × (v / 2 ^ 16 % 256 % 256 ≡ byte_at buf (i + 2))
            × (v / 2 ^ 24 % 256 ≡ byte_at buf (i + 3))
        values =
            let b0 = byte_at-lt buf i in
            let b1 = byte_at-lt buf (i + 1) in
            let b2 = byte_at-lt buf (i + 2) in
            let b3 = byte_at-lt buf (i + 2 + 1) in
            let last : i + 2 + 1 ≡ i + 3 = omega arith in
            let top : v / 2 ^ 24 % 256 ≡ byte_at buf (i + 2 + 1) = omega arith in
            (omega arith, omega arith, omega arith, top ∙ ap (byte_at buf) last)

        at_place :
            (k : ℕ)
            → k < 4
            → program (split word (address + i) v) (address + i + k) old ≡ byte_at buf (i + k)
        at_place zero lt =
            rw (add-zero (address + i), add-zero i)
              (hits.0 ∙ onto_blank (v % 256 % 256) old (omega arith) e ∙ values.0)
        at_place (suc zero) lt =
            hits.1 ∙ onto_blank (v / 256 % 256 % 256) old (omega arith) e ∙ values.1
        at_place (suc (suc zero)) lt =
            hits.2 ∙ onto_blank (v / 2 ^ 16 % 256 % 256) old (omega arith) e ∙ values.2
        at_place (suc (suc (suc zero))) lt =
            hits.3 ∙ onto_blank (v / 2 ^ 24 % 256) old (omega arith) e ∙ values.3
        at_place (suc (suc (suc (suc k)))) lt = absurd (omega arith)

    module _ (len : ℕ) (blank : (j : ℕ) → j < len → cells size rom start (address + j) ≡ 255)
        (fits : address + len ≤ periph_base) (env : Env) (fuel : ℕ)
        (settles : Settles env fuel) where
      wait-Filling :
          (i : ℕ) (h : Log)
          → Filling i h
          → Returns (λ _ t. Filling i t) (flash_wait_for_last_operation env fuel h)
      wait-Filling i h f =
          Returns_mono (waited env fuel settles h) λ _ t (n, e). rw e (polls-Filling n i h f)

      halves-Filling :
          (n i : ℕ) (h : Log)
          → i + 2 * n ≤ len
          → Filling i h
          → Returns (λ _ t. Filling (i + 2 * n) t) (program_halves env fuel address buf n i h)
      unfolding program_halves
      halves-Filling zero i h more f = returns (rw (add-zero i) f)
      halves-Filling (suc n) i h more f =
          let at : u32 (address + i) ≡ address + i = omega arith in
          let v = half_at buf i % modulus half in
          let e : i + 2 * suc n ≡ i + 2 + 2 * n = omega arith in
          rw (at, e)
            (Returns-bind
              (wait-Filling (i + 2) _ (
                fill-step half 2 i v h (omega arith) (λ k lt. blank (i + k) (omega arith))
                  (λ k old lt b. half-bytes i k old lt b)
                  (λ x old out. half-misses (address + i) v x old out) f))
              λ _ t g. halves-Filling n (i + 2) t (omega arith) g)

      words-Filling :
          (n i : ℕ) (h : Log)
          → i + 4 * n ≤ len
          → Filling i h
          → Returns (λ _ t. Filling (i + 4 * n) t) (program_words env fuel address buf n i h)
      unfolding program_words
      words-Filling zero i h more f = returns (rw (add-zero i) f)
      words-Filling (suc n) i h more f =
          let at : u32 (address + i) ≡ address + i = omega arith in
          let v = word_at buf i % modulus word in
          let e : i + 4 * suc n ≡ i + 4 + 4 * n = omega arith in
          rw (at, e)
            (Returns-bind
              (wait-Filling (i + 4) _ (
                fill-step word 4 i v h (omega arith) (λ k lt. blank (i + k) (omega arith))
                  (λ k old lt b. word-bytes i k old lt b)
                  (λ x old out. word-misses (address + i) v x old out) f))
              λ _ t g. words-Filling n (i + 4) t (omega arith) g)

      module _ (nor : NorFlash env size rom) where
        -- PG is set behind the first wait, and cleared at the end.
        opened :
            (n : ℕ)
            → let v = bit_or (env (polls n start) word flash_cr % modulus word) 1 % modulus word in
              Filling 0 (write word flash_cr v ∷ read word flash_cr ∷ polls n start)
        unfolding cells latest
        opened n =
            let r = env (polls n start) word flash_cr % modulus word in
            let on : digit 0 (bit_or r 1 % modulus word) ≡ 1 =
              digit-set 0 r 1 (omega arith) (omega arith) refl in
            record {
              so_far = record {
                filled = λ j lt. absurd (omega arith);
                kept = λ x out.
                    control-kept size rom word (bit_or r 1 % modulus word)
                      (read word flash_cr ∷ polls n start) x
                      (digit-unset 6 r 1 (omega arith) (omega arith) (nor.strt (polls n start))
                        refl)
                    ∙ cells-polls size rom n start x;
              };
              on = rw on refl;
            }

        closed :
            (i : ℕ) (h : Log)
            → Filling i h
            → Filled i (
                write word flash_cr
                  (bit_and (env h word flash_cr % modulus word) (0xffff_ffff - 1) % modulus word)
                ∷ read word flash_cr
                ∷ h)
        unfolding cells
        closed i h f =
            let r = env h word flash_cr % modulus word in
            let over = λ (x : ℕ).
              control-kept size rom word (bit_and r (0xffff_ffff - 1) % modulus word)
                (read word flash_cr ∷ h) x
                (digit-cleared 6 r (0xffff_ffff - 1) (omega arith) (nor.strt h)) in
            record {
              filled = λ j lt. over (address + j) ∙ f.so_far.filled j lt;
              kept = λ x out. over x ∙ f.so_far.kept x out;
            }

        pub buffer-Filled :
            Returns
              (λ _ t. Filled (2 * (len / 2)) t)
              (flash_program_buffer env fuel address buf len start)
        unfolding flash_program_buffer
        buffer-Filled = Returns-bind (waited env fuel settles start) λ _ t (n, e). rw e (
            Returns-bind (halves-Filling (len / 2) 0 _ (omega arith) (opened n))
              λ _ u f. returns (closed (2 * (len / 2)) u (rw zero-add at f)))

        pub buffer_gd32-Filled :
            Returns
              (λ _ t. Filled (2 * (len / 2)) t)
              (flash_program_buffer_gd32 env fuel address buf len start)
        unfolding flash_program_buffer_gd32
        buffer_gd32-Filled =
            Returns-if (not (len % 4 == 0) || not (address % 4 == 0)) _ _ start (λ _. buffer-Filled)
              (λ whole. Returns-bind (waited env fuel settles start) λ _ t (n, e).
                let all : 0 + 4 * (len / 4) ≡ 2 * (len / 2) = ground arith in
                rw e (
                  Returns-bind (words-Filling (len / 4) 0 _ (omega arith) (opened n))
                    λ _ u f. returns (closed (2 * (len / 2)) u (rw all at f))))
