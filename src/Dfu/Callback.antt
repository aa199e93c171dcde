-- ===== src/Dfu/Callback.antt =====
-- The completion callback of dfu.cpp comes back from every download, also one that its guards let
-- through by a wrapped sum.
use swindle_bootloader_gd.Common.{
  ℕ, suc, ◌+◌, ◌-◌, ◌^◌, ◌≤◌, ◌<◌, ◌≡◌, refl, Bool, true, false, inl, inr, ◌⊎◌, Option, none, some,
  List, ◌==◌, if◌then◌else◌, Bool-cases, arith, u32, byte_at, M, ◌>>=◌, ◌>>◌, pure, Returns,
  returns, Keeps, Keeps-pure, Keeps-bind, Keeps-if, Gives-pure, Gives-bind, Gives-if,
}
use swindle_bootloader_gd.Bus.{Done, Log, Env}
use swindle_bootloader_gd.Flash.{
  flash_page_is_erased, flash_erase_page, flash_program_buffer, flash_program_buffer_gd32,
  erase_pages,
}
use swindle_bootloader_gd.Flash.Settles.{Settles}
use swindle_bootloader_gd.Flash.Total.{
  unlock-Done, lock-Done, page_is_erased-Done, erase_page-Done, program_buffer-Done,
  program_buffer_gd32-Done, erase_pages-Done,
}
use swindle_bootloader_gd.Device.{
  Config, Chip, DfuState, dnbusy, dnload_idle, dfu_transfer_size, start_addr, end_addr, Dfu,
}
use swindle_bootloader_gd.Dfu.{
  read_u32, cmd_erase, cmd_setaddr, on_bus, block_address, in_app_area, page_size, check_do_erase,
  erase_command, setaddr_command, program_block, run_download, complete_in,
  usbdfu_getstatus_complete,
}
use swindle_bootloader_gd.Dfu.Sized.{IsSized, set_state-IsSized}

-- A command of the bus changes the run only.
pub on_bus-IsSized : {A : Type 0} {m : M Log A} → Done m → Keeps IsSized (on_bus m)
on_bus-IsSized {A} {m} d = record { run = λ s z. after s z (m s.log) (d.run s.log) }
  where
    after :
        (s : Dfu)
        → IsSized s
        → (o : Option (A × Log)) → Returns (λ _ _. Unit {0}) o
        → Returns
            (λ _ t. IsSized t)
            (elim o [ none ↦ none | some (a, h) ↦ some (a, record s { log = h }) ])
    after s z none r = elim r [ ]
    after s z (some (a, h)) (returns c) =
        returns (record { control = z.control; shadow = z.shadow; fits = z.fits })

pub page_size_cases : (chip : Chip) → (page_size chip ≡ 1024) ⊎ (page_size chip ≡ 2048)
page_size_cases chip = elim (Bool-cases chip.gd) [
  | inl e ↦ rw e (inr refl)
  | inr e ↦ rw e (inl refl)
]

guard_end : (chip : Chip) (a n : ℕ) → in_app_area chip a n ≡ true → u32 (a + n) ≤ end_addr chip
unfolding in_app_area
guard_end chip a n e = ground arith

module _ (env : Env) (fuel : ℕ) (settles : Settles env fuel) (cfg : Config) (chip : Chip)
    (density : chip.flash_size < 2 ^ 16) where
  check_do_erase-IsSized : Keeps IsSized (check_do_erase env fuel cfg chip)
  unfolding check_do_erase
  check_do_erase-IsSized = record {
    run = λ s z.
        Keeps.run
          (Keeps-if s.erased (Keeps-pure tt) (
            Keeps-bind
              (on_bus-IsSized (
                erase_pages-Done env fuel settles (page_size chip) (end_addr chip - start_addr)
                  start_addr (end_addr chip) (page_size_cases chip) (omega arith) (omega arith)))
              λ _. record {
                run = λ t y.
                    returns (record { control = y.control; shadow = y.shadow; fits = y.fits });
              }))
          s z;
  }

  safewrite-IsSized :
      Keeps IsSized (if cfg.safewrite then check_do_erase env fuel cfg chip else pure tt)
  safewrite-IsSized = Keeps-if cfg.safewrite check_do_erase-IsSized (Keeps-pure tt)

  erase_at-Done :
      (a : ℕ)
      → Done (do
        blank ← flash_page_is_erased env (page_size chip) a
        if blank then pure tt else flash_erase_page env fuel a)
  erase_at-Done a =
      Gives-bind (page_is_erased-Done env (page_size chip) a)
        λ blank _. Gives-if blank (Gives-pure tt tt) (erase_page-Done env fuel settles a)

  erase_command-IsSized : Keeps IsSized (erase_command env fuel cfg chip)
  unfolding erase_command
  erase_command-IsSized = Keeps-bind safewrite-IsSized λ _. record {
    run = λ s z.
        let a = read_u32 s.prog.buf 1 in
        Keeps.run
          (Keeps-if (in_app_area chip a dfu_transfer_size) (on_bus-IsSized (erase_at-Done a))
            (Keeps-pure tt))
          s z;
  }

  program_at-Done :
      (a : ℕ) (buf : List ℕ) (len : ℕ)
      → in_app_area chip a len ≡ true
      → Done (do
        erase_pages env fuel (page_size chip) (suc len) a (u32 (a + len))
        if chip.gd
            then flash_program_buffer_gd32 env fuel a buf len
            else flash_program_buffer env fuel a buf len)
  program_at-Done a buf len e =
      let last = guard_end chip a len e in
      Gives-bind
        (erase_pages-Done env fuel settles (page_size chip) len a (u32 (a + len))
          (page_size_cases chip) (omega (arith, last)) (omega arith))
        λ _ _.
          Gives-if chip.gd (program_buffer_gd32-Done env fuel settles a buf len)
            (program_buffer-Done env fuel settles a buf len)

  guarded-IsSized :
      (test : Bool) {m : M Dfu (Unit {0})}
      → (test ≡ true → Keeps IsSized m)
      → Keeps IsSized (if test then m else pure tt)
  guarded-IsSized true k = k refl
  guarded-IsSized false k = Keeps-pure tt

  program_block-IsSized : Keeps IsSized (program_block env fuel cfg chip)
  unfolding program_block
  program_block-IsSized = Keeps-bind safewrite-IsSized λ _. record {
    run = λ s z.
        let q = s.prog in
        let a = block_address q.addr q.blocknum in
        Keeps.run
          (guarded-IsSized (in_app_area chip a q.len)
            λ e. on_bus-IsSized (program_at-Done a q.buf q.len e))
          s z;
  }

  setaddr-IsSized : Keeps IsSized (setaddr_command env fuel cfg chip)
  unfolding setaddr_command
  setaddr-IsSized = record {
    run = λ s z. returns (record { control = z.control; shadow = z.shadow; fits = z.fits });
  }

  pub run_download-IsSized : Keeps IsSized (run_download env fuel cfg chip)
  unfolding run_download
  run_download-IsSized = record {
    run = λ s z.
        Keeps.run
          (Keeps-if (s.prog.blocknum == 0)
            (Keeps-if (byte_at s.prog.buf 0 == cmd_erase) erase_command-IsSized
              (Keeps-if (byte_at s.prog.buf 0 == cmd_setaddr) setaddr-IsSized (Keeps-pure tt)))
            program_block-IsSized)
          s z;
  }

  complete_in-IsSized : (st : DfuState) → Keeps IsSized (complete_in env fuel cfg chip st)
  unfolding complete_in
  complete_in-IsSized dnbusy = Keeps-bind (on_bus-IsSized unlock-Done) λ _.
      Keeps-bind run_download-IsSized
        λ _. Keeps-bind (on_bus-IsSized (lock-Done env)) λ _. set_state-IsSized dnload_idle
  complete_in-IsSized _ = Keeps-pure tt

  -- Whatever the payload and the target address are, the callback of a poll returns, with the
  -- buffers at their sizes, if the flash size fits its register and the busy flag clears.
  pub getstatus_complete-IsSized : Keeps IsSized (usbdfu_getstatus_complete env fuel cfg chip)
  unfolding usbdfu_getstatus_complete
  getstatus_complete-IsSized = record {
    run = λ s z. Keeps.run (complete_in-IsSized s.usbdfu_state) s z;
  }
