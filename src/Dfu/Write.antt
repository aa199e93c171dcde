-- ===== src/Dfu/Write.antt =====
-- What the callback of dfu.cpp makes of the flash with a block of data.
use swindle_bootloader_gd.Common.{
  ℕ, suc, ◌+◌, ◌-◌, ◌*◌, ◌/◌, ◌%◌, ◌^◌, ◌≤◌, ◌<◌, ◌≡◌, refl, ap, ◌∙◌, subst, Bool, true, false, inl,
  inr, ◌⊎◌, Option, none, some, if◌then◌else◌, arith, u32, M, pure, ◌>>◌, byte_at, Returns, returns,
  Returns-bind, Returns_mono, Returns-if,
}
use swindle_bootloader_gd.Bus.{Log, Env}
use swindle_bootloader_gd.Flash.{erase_pages, flash_program_buffer, flash_program_buffer_gd32}
use swindle_bootloader_gd.Flash.Settles.{Settles}
use swindle_bootloader_gd.Flash.Total.{erase_pages-Done}
use swindle_bootloader_gd.Flash.Program.{periph_base}
use swindle_bootloader_gd.Flash.Cells.{cells, NorFlash}
use swindle_bootloader_gd.Flash.Erase.{Blank, erase_pages-Blank}
use swindle_bootloader_gd.Flash.Fill.{buffer-Filled, buffer_gd32-Filled}
use swindle_bootloader_gd.Device.{Config, Chip, start_addr, end_addr, Prog, Dfu}
use swindle_bootloader_gd.Dfu.{
  on_bus, block_address, in_app_area, page_size, check_do_erase, program_block,
}
use swindle_bootloader_gd.Dfu.Callback.{page_size_cases}

pub on_bus-Returns :
    {A : Type 0} (Q : A → Dfu → Type 0) (m : M Log A) (s : Dfu)
    → Returns (λ a h. Q a (record s { log = h })) (m s.log)
    → Returns Q (on_bus m s)
on_bus-Returns {A} Q m s r = after (m s.log) r
  where
    after :
        (o : Option (A × Log))
        → Returns (λ a h. Q a (record s { log = h })) o
        → Returns Q (elim o [ none ↦ none | some (a, h) ↦ some (a, record s { log = h }) ])
    after none r = elim r [ ]
    after (some (a, h)) (returns e) = returns e

abbrev pub base : Prog → ℕ
base p = block_address p.addr p.blocknum

-- The payload lies in the area, below the peripherals, from the start of a page on.
pub record Placed (chip : Chip) (p : Prog) : Type 0 where
  pub inside : in_app_area chip (base p) p.len ≡ true
  pub below : base p + p.len + 8192 ≤ periph_base
  pub block : p.len ≤ 4096
  pub whole : base p % page_size chip ≡ 0

-- With the erasure of everything first, it is over.
abbrev pub Cleared : Config → Dfu → Type 0
Cleared cfg s = cfg.safewrite ≡ true → s.erased ≡ true

-- From `s` to `t` the payload has come into the flash, and the rest of the flash is as it was if
-- there was nothing to erase at first.
pub record Written (size : ℕ) (rom : ℕ → ℕ) (cfg : Config) (p : Prog) (s t : Dfu) : Type 0 where
  pub payload : t.prog ≡ p
  pub bytes : (j : ℕ) → j < 2 * (p.len / 2) → cells size rom t.log (base p + j) ≡ byte_at p.buf j
  pub kept :
      Cleared cfg s
      → (x : ℕ) → (x < base p) ⊎ (base p + 4096 ≤ x)
      → cells size rom t.log x ≡ cells size rom s.log x
  pub cleared : Cleared cfg t

abbrev write_block : Env → ℕ → Chip → Prog → M Log (Unit {0})
write_block env fuel chip p = do
  erase_pages env fuel (page_size chip) (suc p.len) (base p) (u32 (base p + p.len))
  if chip.gd
      then flash_program_buffer_gd32 env fuel (base p) p.buf p.len
      else flash_program_buffer env fuel (base p) p.buf p.len

-- What the erasure of everything leaves of the state.
record Ready (cfg : Config) (s t : Dfu) : Type 0 where
  payload : t.prog ≡ s.prog
  cleared : Cleared cfg t
  log : Cleared cfg s → t.log ≡ s.log

never : (b : Bool) → b ≡ true → b ≡ false → ⊥
never b e f = ground arith

pub next_whole : (size a : ℕ) → (size ≡ 1024) ⊎ (size ≡ 2048) → a % size ≡ 0 → (a + 4096) % size ≡ 0
next_whole size a sized e = elim sized [
  | inl q ↦ rw q (small (rw q at e))
  | inr q ↦ rw q (large (rw q at e))
]
  where
    small : a % 1024 ≡ 0 → (a + 4096) % 1024 ≡ 0
    small e = omega arith

    large : a % 2048 ≡ 0 → (a + 4096) % 2048 ≡ 0
    large e = omega arith

module _ (env : Env) (fuel : ℕ) (settles : Settles env fuel) (cfg : Config) (chip : Chip)
    (density : chip.flash_size < 2 ^ 16) (rom : ℕ → ℕ)
    (nor : NorFlash env (page_size chip) rom) where
  check_do_erase-Ready :
      (s : Dfu)
      → cfg.safewrite ≡ true
      → Returns (λ _ t. Ready cfg s t) (check_do_erase env fuel cfg chip s)
  unfolding check_do_erase
  check_do_erase-Ready s safe =
      Returns-if s.erased (pure tt) _ s
        (λ over. returns (record { payload = refl; cleared = λ _. over; log = λ _. refl }))
        λ todo.
          Returns-bind
            (on_bus-Returns (λ _ t. t.prog ≡ s.prog)
              (erase_pages env fuel (page_size chip) (suc (end_addr chip - start_addr)) start_addr
                (end_addr chip))
              s
              (Returns_mono
                ((erase_pages-Done env fuel settles (page_size chip) (end_addr chip - start_addr)
                    start_addr (end_addr chip) (page_size_cases chip) (omega arith)
                    (omega arith)).run
                  s.log)
                λ _ h _. refl))
            λ _ t same. returns (record {
              payload = same;
              cleared = λ _. refl;
              log = λ over. absurd (never s.erased (over safe) todo);
            })

  module _ (p : Prog) (place : Placed chip p) where
    write_block-cells :
        (h : Log)
        → Returns
            (λ _ t.
              ((j : ℕ)
                → j < 2 * (p.len / 2)
                → cells (page_size chip) rom t (base p + j) ≡ byte_at p.buf j)
              × ((x : ℕ)
                  → (x < base p) ⊎ (base p + 4096 ≤ x)
                  → cells (page_size chip) rom t x ≡ cells (page_size chip) rom h x))
            (write_block env fuel chip p h)
    write_block-cells h =
        let below = place.below in
        let block = place.block in
        let no_wrap : u32 (base p + p.len) ≡ base p + p.len = omega (arith, below) in
        rw no_wrap (
          Returns-bind
            (erase_pages-Blank env (page_size chip) rom nor fuel settles p.len (base p)
              (base p + p.len) (base p + 4096) h (page_size_cases chip) place.whole
              (next_whole (page_size chip) (base p) (page_size_cases chip) place.whole)
              (omega (arith, block)) (omega (arith, below)) (omega arith))
            λ _ t e.
              Returns_mono
                (Returns-if chip.gd (flash_program_buffer_gd32 env fuel (base p) p.buf p.len)
                  (flash_program_buffer env fuel (base p) p.buf p.len) t
                  (λ _.
                    buffer_gd32-Filled (page_size chip) rom (base p) p.buf t p.len (into t e)
                      (omega (arith, below)) env fuel settles nor)
                  (λ _.
                    buffer-Filled (page_size chip) rom (base p) p.buf t p.len (into t e)
                      (omega (arith, below)) env fuel settles nor))
                λ _ u f. (f.filled, λ x out. f.kept x (near x out) ∙ e.kept x out))
      where
        into :
            (t : Log)
            → Blank (page_size chip) rom (base p) (base p + p.len) (base p + 4096) h t
            → (j : ℕ) → j < p.len
            → cells (page_size chip) rom t (base p + j) ≡ 255
        into t e j lt = e.blank (base p + j) (omega arith) (omega arith)

        near :
            (x : ℕ)
            → (x < base p) ⊎ (base p + 4096 ≤ x)
            → (x < base p) ⊎ (base p + 2 * (p.len / 2) ≤ x)
        near x out = elim out [ inl q ↦ inl q | inr q ↦ inr (omega (arith, place.block)) ]

  -- The guarded write of `program_block`, as a step of the application.
  abbrev guarded_write : M Dfu (Unit {0})
  guarded_write t =
      (if in_app_area chip (base t.prog) t.prog.len
          then on_bus (write_block env fuel chip t.prog)
          else pure tt)
        t

  guarded_write-Written :
      (s t : Dfu)
      → Placed chip t.prog
      → Ready cfg s t
      → Returns (λ _ u. Written (page_size chip) rom cfg t.prog s u) (guarded_write t)
  guarded_write-Written s t place ready = rw (place.inside) (
      on_bus-Returns (λ _ u. Written (page_size chip) rom cfg t.prog s u)
        (write_block env fuel chip t.prog) t
        (Returns_mono (write_block-cells t.prog place t.log) λ _ h (bytes, kept). record {
          payload = refl;
          bytes = bytes;
          kept =
              λ over x out. kept x out ∙ ap (λ l. cells (page_size chip) rom l x) (ready.log over);
          cleared = ready.cleared;
        }))

  pub program_block-Written :
      (s : Dfu)
      → Placed chip s.prog
      → Returns
          (λ _ t. Written (page_size chip) rom cfg s.prog s t)
          (program_block env fuel cfg chip s)
  unfolding program_block
  program_block-Written s place =
      Returns-bind
        (Returns-if cfg.safewrite (check_do_erase env fuel cfg chip) (pure tt) s
          (check_do_erase-Ready s)
          (λ off. returns (record {
            payload = refl;
            cleared = λ on. absurd (never cfg.safewrite on off);
            log = λ _. refl;
          })))
        λ _ t ready.
          subst
            (λ p.
              Placed chip p
              → Returns (λ _ u. Written (page_size chip) rom cfg p s u) (guarded_write t))
            ready.payload (λ at. guarded_write-Written s t at ready) place
