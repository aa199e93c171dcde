-- ===== src/Dfu/Spared.antt =====
-- The callback of dfu.cpp leaves the boot loader's flash as it is, as far as it gets.
pub mod Requests
use swindle_bootloader_gd.Common.{
  ℕ, zero, suc, ◌+◌, ◌-◌, ◌*◌, ◌/◌, ◌%◌, ◌^◌, ◌≤◌, ◌<◌, ◌≡◌, refl, Bool, true, false, Option, none,
  some, List, [], ◌∷◌, leb, ltb, ◌==◌, if◌then◌else◌, arith, u32, byte_at, byte_at-lt, M, pure,
  ◌>>=◌, ◌>>◌,
}
use swindle_bootloader_gd.Common.Partial.{
  Holds, nothing, holds, Any, Safe, Safe-pure, Safe-done, Safe-bind, Safe-if, Safe-test,
  Safe-change,
}
use swindle_bootloader_gd.Bus.{byte, Log, Env, load}
use swindle_bootloader_gd.Flash.{
  flash_lock, flash_unlock, flash_page_is_erased, flash_erase_page, flash_program_buffer,
  flash_program_buffer_gd32, erase_pages,
}
use swindle_bootloader_gd.Flash.Spared.{
  Clear, Spared, load-Spared, lock-Spared, unlock-Spared, clear_page-Spared, erase_pages-Spared,
  program_buffer-Spared, program_buffer_gd32-Spared,
}
use swindle_bootloader_gd.Device.{
  Config, Chip, DfuReq, detach, dnload, upload, getstatus, clrstatus, getstate, abort, dfu_req,
  DfuState, dfu_idle, error, dnbusy, dnload_idle, manifest, manifest_sync, dnload_sync, upload_idle,
  handled, next_callback, state_code, SetupData, dfu_transfer_size, start_addr, end_addr, Dfu,
}
use swindle_bootloader_gd.Dfu.{
  read_u32, on_bus, set_state, reply_bytes, block_address, in_app_area, page_size, check_do_erase,
  erase_command, setaddr_command, program_block, run_download, complete_in,
  usbdfu_getstatus_complete, read_flash, done, Reply, cmd_setaddr, cmd_erase, clamp_len,
  copy_payload, status_bytes, usbdfu_getstatus, dnload_request, upload_block, upload_request,
  getstatus_request, handle_request, switch_request, usbdfu_control_request,
}

-- The run has spared the boot loader, and the payload fits its buffer.
abbrev pub Spares : Dfu → Type 0
Spares s = (s.prog.len ≤ dfu_transfer_size) × Spared s.log

pub on_bus-Spares :
    {A : Type 0} {P : A → Type 0} {m : M Log A} → Safe Spared P m → Safe Spares P (on_bus m)
on_bus-Spares {A} {P} {m} k = record { run = λ s (n, i). after s n (m s.log) (k.run s.log i) }
  where
    after :
        (s : Dfu)
        → s.prog.len ≤ dfu_transfer_size
        → (o : Option (A × Log)) → Holds (λ a h. P a × Spared h) o
        → Holds
            (λ a t. P a × Spares t)
            (elim o [ none ↦ none | some (a, h) ↦ some (a, record s { log = h }) ])
    after s n none r = nothing
    after s n (some (a, h)) (holds (p, i)) = holds (p, (n, i))

pub set_state-Spares : (st : DfuState) → Safe Spares Any (set_state st)
set_state-Spares st = Safe-change (λ s. record s { usbdfu_state = st }) λ s i. i

-- What the guard lets pass is behind the boot loader, or, where its sum wraps around, beyond every
-- device.
in_app_area-Clear :
    (chip : Chip) (a n j : ℕ)
    → a < 2 ^ 32
    → n ≤ dfu_transfer_size
    → chip.flash_size < 2 ^ 16
    → in_app_area chip a n ≡ true
    → j < n
    → Clear (u32 (a + j))
unfolding in_app_area
in_app_area-Clear chip a n j lt cap density e inside = record {
  outside = λ h. ground arith;
  elsewhere = λ h. ground arith;
}

guard_ends :
    (chip : Chip) (a n : ℕ)
    → in_app_area chip a n ≡ true
    → (start_addr ≤ a) × (u32 (a + n) ≤ end_addr chip)
unfolding in_app_area
guard_ends chip a n e = ground arith

end_addr-lt : (chip : Chip) → chip.flash_size < 2 ^ 16 → end_addr chip + page_size chip < 2 ^ 32
end_addr-lt chip density = ground (arith, density)

read_u32-lt : (p : List ℕ) (i : ℕ) → read_u32 p i < 2 ^ 32
unfolding read_u32
read_u32-lt p i =
    omega (arith, byte_at-lt p i, byte_at-lt p (i + 1), byte_at-lt p (i + 2), byte_at-lt p (i + 3))

block_address-lt : (a n : ℕ) → block_address a n < 2 ^ 32
unfolding block_address
block_address-lt a n = omega arith

module _ (env : Env) (fuel : ℕ) (cfg : Config) (chip : Chip)
    (density : chip.flash_size < 2 ^ 16) where
  check_do_erase-Spares : Safe Spares Any (check_do_erase env fuel cfg chip)
  unfolding check_do_erase
  check_do_erase-Spares = record {
    run = λ s i.
        Safe.run
          (Safe-if s.erased Safe-done (
            Safe-bind
              (on_bus-Spares (
                erase_pages-Spared env fuel (page_size chip) _ start_addr (end_addr chip)
                  (omega arith) (end_addr-lt chip density)))
              λ _ _. Safe-change (λ t. record t { erased = true }) λ t j. j))
          s i;
  }

  safewrite-Spares :
      Safe Spares Any (if cfg.safewrite then check_do_erase env fuel cfg chip else pure tt)
  safewrite-Spares = Safe-if cfg.safewrite check_do_erase-Spares Safe-done

  erase_command-Spares : Safe Spares Any (erase_command env fuel cfg chip)
  unfolding erase_command
  erase_command-Spares = Safe-bind safewrite-Spares λ _ _. record {
    run = λ s i.
        let a = read_u32 s.prog.buf 1 in
        Safe.run
          (Safe-test (in_app_area chip a dfu_transfer_size)
            (λ e. on_bus-Spares (
              clear_page-Spared env fuel (page_size chip) a
                (guard_ends chip a dfu_transfer_size e).0 (read_u32-lt s.prog.buf 1)))
            (λ e. Safe-done))
          s i;
  }

  program_at-Spares :
      (a : ℕ) (buf : List ℕ) (len : ℕ)
      → a < 2 ^ 32
      → len ≤ dfu_transfer_size
      → in_app_area chip a len ≡ true
      → Safe Spares Any (
          on_bus (do
            erase_pages env fuel (page_size chip) (suc len) a (u32 (a + len))
            if chip.gd
                then flash_program_buffer_gd32 env fuel a buf len
                else flash_program_buffer env fuel a buf len))
  program_at-Spares a buf len lt cap e =
      let (low, high) = guard_ends chip a len e in
      let top = end_addr-lt chip density in
      let clear : (j : ℕ) → j < len → Clear (u32 (a + j)) =
        λ j h. in_app_area-Clear chip a len j lt cap density e h in
      on_bus-Spares (
        Safe-bind
          (erase_pages-Spared env fuel (page_size chip) (suc len) a (u32 (a + len)) low
            (omega arith))
          λ _ _.
            Safe-if chip.gd (program_buffer_gd32-Spared env fuel a buf len clear)
              (program_buffer-Spared env fuel a buf len clear))

  program_block-Spares : Safe Spares Any (program_block env fuel cfg chip)
  unfolding program_block
  program_block-Spares = Safe-bind safewrite-Spares λ _ _. record {
    run = λ s (cap, i).
        let q = s.prog in
        let a = block_address q.addr q.blocknum in
        Safe.run
          (Safe-test (in_app_area chip a q.len)
            (λ e. program_at-Spares a q.buf q.len (block_address-lt q.addr q.blocknum) cap e)
            (λ e. Safe-done))
          s (cap, i);
  }

  run_download-Spares : Safe Spares Any (run_download env fuel cfg chip)
  unfolding run_download setaddr_command
  run_download-Spares = record {
    run = λ s i.
        Safe.run
          (Safe-if (s.prog.blocknum == 0)
            (Safe-if (byte_at s.prog.buf 0 == cmd_erase) erase_command-Spares (
              Safe-if (byte_at s.prog.buf 0 == cmd_setaddr)
                (Safe-change
                  (λ t. record t { prog = record t.prog { addr = read_u32 t.prog.buf 1 } })
                  λ t j. j)
                Safe-done))
            program_block-Spares)
          s i;
  }

  complete_in-Spares : (st : DfuState) → Safe Spares Any (complete_in env fuel cfg chip st)
  unfolding complete_in
  complete_in-Spares dnbusy = Safe-bind (on_bus-Spares unlock-Spared) λ _ _.
      Safe-bind run_download-Spares
        λ _ _. Safe-bind (on_bus-Spares (lock-Spared env)) λ _ _. set_state-Spares dnload_idle
  complete_in-Spares _ = Safe-done

  pub getstatus_complete-Spares : Safe Spares Any (usbdfu_getstatus_complete env fuel cfg chip)
  unfolding usbdfu_getstatus_complete
  getstatus_complete-Spares = record { run = λ s i. (complete_in-Spares s.usbdfu_state).run s i }
