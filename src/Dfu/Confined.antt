-- ===== src/Dfu/Confined.antt =====
-- The completion callback of dfu.cpp keeps the flash outside the application area as it is.
use native.Mathlib.Nat.{le_refl}
use swindle_bootloader_gd.Common.{
  Option, none, some, ℕ, suc, ◌+◌, ◌-◌, ◌*◌, ◌/◌, ◌%◌, ◌^◌, ◌≤◌, ◌<◌, ◌≡◌, refl, ap, Bool, true,
  false, List, ◌>>=◌, ◌>>◌, ◌==◌, if◌then◌else◌, arith, u32, byte_at, M, pure, returns, Returns,
  Returns-if, Returns-bind, Returns_mono, Keeps, Keeps-pure, Keeps-bind, Keeps-if,
}
use swindle_bootloader_gd.Bus.{Log, Env}
use swindle_bootloader_gd.Flash.{
  flash_lock, flash_unlock, flash_page_is_erased, flash_erase_page, flash_program_buffer,
  flash_program_buffer_gd32, erase_pages,
}
use swindle_bootloader_gd.Flash.Settles.{Settles}
use swindle_bootloader_gd.Flash.Confined.{
  Region, IsAligned, Confined, unlocking, control, reading, IsAligned-InPage,
  words_are_erased-Confined, clear_page-Confined, erase_pages-Confined, program_buffer-Confined,
  program_buffer_gd32-Confined,
}
use swindle_bootloader_gd.Device.{
  Config, Chip, DfuState, dnbusy, dnload_idle, dfu_transfer_size, start_addr, end_addr, Prog, Dfu,
}
use swindle_bootloader_gd.Dfu.{
  read_u32, cmd_erase, cmd_setaddr, on_bus, block_address, in_app_area, page_size, check_do_erase,
  erase_command, setaddr_command, program_block, run_download, complete_in,
  usbdfu_getstatus_complete,
}

-- The flash that a download may change: behind the bootloader, up to the chip's flash size.
abbrev pub app_area : Chip → Region
app_area chip = record { start = start_addr; end = end_addr chip; page = page_size chip }

-- A flash size that fits its 16-bit register, in whole pages.
pub record IsChip (chip : Chip) : Type 0 where
  pub density : chip.flash_size < 2 ^ 16
  pub whole : chip.flash_size * 1024 % page_size chip ≡ 0

-- The pending command's `uint32_t` sums do not wrap around.
pub record Fits (p : Prog) : Type 0 where
  pub page : read_u32 p.buf 1 + dfu_transfer_size < 2 ^ 32
  pub block : block_address p.addr p.blocknum + p.len < 2 ^ 32

-- Between the steps of the callback: the run so far is confined, and the command is still there.
record Held (chip : Chip) (b s : Dfu) : Type 0 where
  confined : Confined (app_area chip) s.log
  same : s.prog ≡ b.prog
  control : s.control_buffer ≡ b.control_buffer

-- The callback writes the flash in one state, and leaves it.
abbrev pub completed : DfuState → DfuState
completed dnbusy = dnload_idle
completed st = st

-- From `b` to `s`, besides the flash: the state moves on, and the buffers stay as they were.
pub record Completed (chip : Chip) (b s : Dfu) : Type 0 where
  pub confined : Confined (app_area chip) s.log
  pub buf : s.prog.buf ≡ b.prog.buf
  pub len : s.prog.len ≡ b.prog.len
  pub blocknum : s.prog.blocknum ≡ b.prog.blocknum
  pub control : s.control_buffer ≡ b.control_buffer

pub app_area-IsAligned : (chip : Chip) → IsChip chip → IsAligned (app_area chip)
app_area-IsAligned chip ok = ground (arith, ok.density, ok.whole)

on_bus-Held :
    {A : Type 0} {chip : Chip} {b : Dfu} {m : M Log A}
    → Keeps (Confined (app_area chip)) m
    → Keeps (Held chip b) (on_bus m)
on_bus-Held {A} {chip} {b} {m} k = record {
  run = λ s h. after s h (m s.log) (k.run s.log h.confined);
}
  where
    after :
        (s : Dfu)
        → Held chip b s
        → (o : Option (A × Log)) → Returns (λ _ h. Confined (app_area chip) h) o
        → Returns
            (λ _ t. Held chip b t)
            (elim o [ none ↦ none | some (a, h) ↦ some (a, record s { log = h }) ])
    after s i none r = elim r [ ]
    after s i (some (a, h)) (returns c) =
        returns (record { confined = c; same = i.same; control = i.control })

-- The guard, where its sum does not wrap around.
pub guard_bounds :
    (chip : Chip) (a n : ℕ)
    → a + n < 2 ^ 32
    → in_app_area chip a n ≡ true
    → (start_addr ≤ a) × (a + n ≤ end_addr chip)
unfolding in_app_area
guard_bounds chip a n lt e = ground arith

module _ (env : Env) (fuel : ℕ) (settles : Settles env fuel) (cfg : Config) (chip : Chip)
    (ok : IsChip chip) (b : Dfu) where
  check_do_erase-Held : Keeps (Held chip b) (check_do_erase env fuel cfg chip)
  unfolding check_do_erase
  check_do_erase-Held = record {
    run = λ s h.
        Keeps.run
          (Keeps-if s.erased (Keeps-pure tt) (
            Keeps-bind
              (on_bus-Held (
                erase_pages-Confined (app_area chip) env fuel settles (end_addr chip - start_addr)
                  start_addr (end_addr chip) (app_area-IsAligned chip ok) (le_refl start_addr)
                  (le_refl (end_addr chip)) (omega arith)))
              λ _. record {
                run = λ t i.
                    returns (record { confined = i.confined; same = i.same; control = i.control });
              }))
          s h;
  }

  safewrite-Held :
      Keeps (Held chip b) (if cfg.safewrite then check_do_erase env fuel cfg chip else pure tt)
  safewrite-Held = Keeps-if cfg.safewrite check_do_erase-Held (Keeps-pure tt)

  erase_at-Held :
      (a : ℕ)
      → a + dfu_transfer_size < 2 ^ 32
      → in_app_area chip a dfu_transfer_size ≡ true
      → Keeps (Held chip b) (
          on_bus (do
            blank ← flash_page_is_erased env (page_size chip) a
            if blank then pure tt else flash_erase_page env fuel a))
  unfolding flash_page_is_erased
  erase_at-Held a lt e =
      let (low, high) = guard_bounds chip a dfu_transfer_size lt e in
      on_bus-Held (
        Keeps-bind (words_are_erased-Confined (app_area chip) env (page_size chip / 4) a) λ blank.
          clear_page-Confined (app_area chip) env fuel settles a (omega arith)
            (IsAligned-InPage (app_area chip) a (app_area-IsAligned chip ok) low (omega arith))
            blank)

  program_at-Held :
      (a : ℕ) (buf : List ℕ) (len : ℕ)
      → a + len < 2 ^ 32
      → in_app_area chip a len ≡ true
      → Keeps (Held chip b) (
          on_bus (do
            erase_pages env fuel (page_size chip) (suc len) a (u32 (a + len))
            if chip.gd
                then flash_program_buffer_gd32 env fuel a buf len
                else flash_program_buffer env fuel a buf len))
  program_at-Held a buf len lt e =
      let (low, high) = guard_bounds chip a len lt e in
      let al = app_area-IsAligned chip ok in
      on_bus-Held (
        Keeps-bind
          (erase_pages-Confined (app_area chip) env fuel settles len a (u32 (a + len)) al low
            (omega arith) (omega arith))
          λ _.
            Keeps-if chip.gd
              (program_buffer_gd32-Confined (app_area chip) env fuel settles a buf len low high
                (omega (arith, al.cap)))
              (program_buffer-Confined (app_area chip) env fuel settles a buf len low high
                (omega (arith, al.cap))))

  -- A guarded step at an address that the command gives.
  guarded-Held :
      (test : Bool) {m : M Dfu (Unit {0})}
      → (test ≡ true → Keeps (Held chip b) m)
      → Keeps (Held chip b) (if test then m else pure tt)
  guarded-Held true k = k refl
  guarded-Held false k = Keeps-pure tt

  erase_command-Held : Fits b.prog → Keeps (Held chip b) (erase_command env fuel cfg chip)
  unfolding erase_command
  erase_command-Held fits = Keeps-bind safewrite-Held λ _. record {
    run = λ s h.
        Keeps.run
          (guarded-Held (in_app_area chip (read_u32 s.prog.buf 1) dfu_transfer_size)
            (erase_at-Held (read_u32 s.prog.buf 1) (rw h.same fits.page)))
          s h;
  }

  program_block-Held : Fits b.prog → Keeps (Held chip b) (program_block env fuel cfg chip)
  unfolding program_block
  program_block-Held fits = Keeps-bind safewrite-Held λ _. record {
    run = λ s h.
        let q = s.prog in
        let a = block_address q.addr q.blocknum in
        Keeps.run
          (guarded-Held (in_app_area chip a q.len)
            (program_at-Held a q.buf q.len (rw h.same fits.block)))
          s h;
  }

  Held-Completed : {s : Dfu} → Held chip b s → Completed chip b s
  Held-Completed h = record {
    confined = h.confined;
    buf = ap (λ (p : Prog). p.buf) h.same;
    len = ap (λ (p : Prog). p.len) h.same;
    blocknum = ap (λ (p : Prog). p.blocknum) h.same;
    control = h.control;
  }

  run_download-Completed :
      (s : Dfu)
      → Fits b.prog
      → Held chip b s
      → Returns (λ _ t. Completed chip b t) (run_download env fuel cfg chip s)
  unfolding run_download setaddr_command
  run_download-Completed s fits h =
      let weaken = λ (a : Unit {0}) (t : Dfu) (i : Held chip b t). Held-Completed i in
      let kept = Held-Completed h in
      Returns-if (s.prog.blocknum == 0) _ _ s
        (λ _.
          Returns-if (byte_at s.prog.buf 0 == cmd_erase) _ _ s
            (λ _. Returns_mono (Keeps.run (erase_command-Held fits) s h) weaken)
            (λ _.
              Returns-if (byte_at s.prog.buf 0 == cmd_setaddr) _ _ s
                (λ _. returns (record {
                  confined = kept.confined;
                  buf = kept.buf;
                  len = kept.len;
                  blocknum = kept.blocknum;
                  control = kept.control;
                }))
                (λ _. returns kept)))
        (λ _. Returns_mono (Keeps.run (program_block-Held fits) s h) weaken)

  complete_in-Completed :
      (st : DfuState) (s : Dfu)
      → Fits b.prog
      → s.usbdfu_state ≡ st
      → Held chip b s
      → Returns
          (λ _ t. Completed chip b t × (t.usbdfu_state ≡ completed st))
          (complete_in env fuel cfg chip st s)
  unfolding complete_in flash_unlock flash_lock
  complete_in-Completed dnbusy s fits e h =
      Returns-bind
        (run_download-Completed (record s { log = _ }) fits
          (record {
            confined = (unlocking, (unlocking, h.confined));
            same = h.same;
            control = h.control;
          }))
        λ _ t c. returns (
          record {
            confined = (control, (reading, c.confined));
            buf = c.buf;
            len = c.len;
            blocknum = c.blocknum;
            control = c.control;
          },
          refl,
        )
  complete_in-Completed _ s fits e h = returns (Held-Completed h, e)

-- Whatever was downloaded, the callback of a poll returns, and moves on from the busy state to the
-- idle state of a download; it leaves every other state, the payload and the control buffer alone.
-- It reads at will, and all that it writes is control of the flash controller, the erasing of pages
-- of the application area, and bytes of that area. This is for a chip of whole pages, a controller
-- whose busy flag clears, and a command whose address sums do not wrap around.
pub getstatus_complete-Completed :
    (env : Env) (fuel : ℕ) (cfg : Config) (chip : Chip) (s : Dfu)
    → Settles env fuel
    → IsChip chip
    → Fits s.prog
    → Confined (app_area chip) s.log
    → Returns
        (λ _ t. Completed chip s t × (t.usbdfu_state ≡ completed s.usbdfu_state))
        (usbdfu_getstatus_complete env fuel cfg chip s)
unfolding usbdfu_getstatus_complete
getstatus_complete-Completed env fuel cfg chip s settles ok fits c =
    complete_in-Completed env fuel settles cfg chip ok s s.usbdfu_state s fits refl
      (record { confined = c; same = refl; control = refl })
