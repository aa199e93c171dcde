-- ===== src/Dfu/Download.antt =====
-- A block of data from the control buffer to the flash: DFU_DNLOAD, DFU_GETSTATUS, callback.
use swindle_bootloader_gd.Common.{
  ℕ, ◌+◌, ◌*◌, ◌/◌, ◌%◌, ◌^◌, ◌≤◌, ◌<◌, ◌≡◌, refl, sym, subst, ap, ◌∙◌, true, false, ◌⊎◌, ◌∷◌, ◌==◌,
  ltb, arith, byte_at, byte_at-blit-take, Returns, returns, Returns-bind, Returns_mono,
}
use swindle_bootloader_gd.Bus.{word, read, Env, modulus}
use swindle_bootloader_gd.Flash.{flash_cr, flash_unlock, flash_lock}
use swindle_bootloader_gd.Flash.Settles.{Settles}
use swindle_bootloader_gd.Flash.Cells.{cells, NorFlash, control-kept}
use swindle_bootloader_gd.Flash.Erase.{digit-unset}
use swindle_bootloader_gd.Device.{
  Config, Chip, dnbusy, dnload_idle, SetupData, dfu_transfer_size, start_addr, end_addr, Dfu,
}
use swindle_bootloader_gd.Dfu.{
  on_bus, block_address, in_app_area, page_size, run_download, complete_in, usbdfu_control_request,
  usbdfu_getstatus_complete,
}
use swindle_bootloader_gd.Dfu.Sized.{IsSized}
use swindle_bootloader_gd.Dfu.Transfer.{command}
use swindle_bootloader_gd.Dfu.Write.{
  on_bus-Returns, Placed, Cleared, Written, program_block-Written,
}

-- The run changed, and what the flash holds did not.
record Quiet (size : ℕ) (rom : ℕ → ℕ) (s t : Dfu) : Type 0 where
  payload : t.prog ≡ s.prog
  erased : t.erased ≡ s.erased
  same : (x : ℕ) → cells size rom t.log x ≡ cells size rom s.log x

module _ (env : Env) (fuel : ℕ) (settles : Settles env fuel) (cfg : Config) (chip : Chip)
    (density : chip.flash_size < 2 ^ 16) (rom : ℕ → ℕ)
    (nor : NorFlash env (page_size chip) rom) where
  unlock-Quiet :
      (s : Dfu) → Returns (λ _ t. Quiet (page_size chip) rom s t) (on_bus (flash_unlock false) s)
  unfolding flash_unlock cells
  unlock-Quiet s =
      on_bus-Returns (λ _ t. Quiet (page_size chip) rom s t) (flash_unlock false) s
        (returns (record { payload = refl; erased = refl; same = λ x. refl }))

  lock-Quiet :
      (s : Dfu) → Returns (λ _ t. Quiet (page_size chip) rom s t) (on_bus (flash_lock env) s)
  unfolding flash_lock cells
  lock-Quiet s =
      on_bus-Returns (λ _ t. Quiet (page_size chip) rom s t) (flash_lock env) s
        (returns (record {
          payload = refl;
          erased = refl;
          same = λ x. control-kept (page_size chip) rom word _ (read word flash_cr ∷ s.log) x (
              digit-unset 6 (env s.log word flash_cr % modulus word) 0x80 (omega arith)
                (omega arith) (nor.strt s.log) refl);
        }))

  -- A block of data, as the callback tells it from a command.
  run_download-Written :
      (s : Dfu)
      → (s.prog.blocknum == 0) ≡ false
      → Placed chip s.prog
      → Returns
          (λ _ t. Written (page_size chip) rom cfg s.prog s t)
          (run_download env fuel cfg chip s)
  unfolding run_download
  run_download-Written s data_block place =
      rw (data_block) (program_block-Written env fuel settles cfg chip density rom nor s place)

  -- The callback of the poll.
  complete_in-Written :
      (s : Dfu)
      → (s.prog.blocknum == 0) ≡ false
      → Placed chip s.prog
      → Returns
          (λ _ t. Written (page_size chip) rom cfg s.prog s t × (t.usbdfu_state ≡ dnload_idle))
          (complete_in env fuel cfg chip dnbusy s)
  unfolding complete_in
  complete_in-Written s data_block place = Returns-bind (unlock-Quiet s) λ _ t y.
      Returns-bind
        (run_download-Written t (ap (λ p. p.blocknum == 0) y.payload ∙ data_block)
          (subst (Placed chip) (sym y.payload) place))
        λ _ u z. Returns-bind (lock-Quiet u) λ _ v w.
          let z' : Written (page_size chip) rom cfg s.prog t u =
            subst (λ p. Written (page_size chip) rom cfg p t u) y.payload z in
          returns (
            record {
              payload = w.payload ∙ z'.payload;
              bytes =
                  λ j lt. w.same (block_address s.prog.addr s.prog.blocknum + j) ∙ z'.bytes j lt;
              kept = λ over x out. w.same x ∙ z'.kept (λ on. y.erased ∙ over on) x out ∙ y.same x;
              cleared = λ on. w.erased ∙ z'.cleared on;
            },
            refl,
          )

  complete-Written :
      (s : Dfu)
      → s.usbdfu_state ≡ dnbusy
      → (s.prog.blocknum == 0) ≡ false
      → Placed chip s.prog
      → Returns
          (λ _ t. Written (page_size chip) rom cfg s.prog s t × (t.usbdfu_state ≡ dnload_idle))
          (usbdfu_getstatus_complete env fuel cfg chip s)
  unfolding usbdfu_getstatus_complete
  complete-Written s busy data_block place =
      subst
        (λ st.
          Returns
            (λ _ t. Written (page_size chip) rom cfg s.prog s t × (t.usbdfu_state ≡ dnload_idle))
            (complete_in env fuel cfg chip st s))
        (sym busy) (complete_in-Written s data_block place)

in_area :
    (chip : Chip) (a n : ℕ)
    → chip.flash_size < 2 ^ 16
    → start_addr ≤ a
    → a + n ≤ end_addr chip
    → in_app_area chip a n ≡ true
unfolding in_app_area
in_area chip a n density from to = ground arith

-- What a block of data leaves: its bytes are what the flash holds from its address on, and what the
-- flash holds before and from 4096 bytes behind is as it was, unless everything was erased first.
pub record Stored (size : ℕ) (rom : ℕ → ℕ) (cfg : Config) (a n : ℕ) (s t : Dfu) : Type 0 where
  pub bytes : (j : ℕ) → j < n → cells size rom t.log (a + j) ≡ byte_at s.control_buffer j
  pub kept :
      Cleared cfg s
      → (x : ℕ) → (x < a) ⊎ (a + 4096 ≤ x)
      → cells size rom t.log x ≡ cells size rom s.log x
  pub cleared : Cleared cfg t
  pub addr : t.prog.addr ≡ s.prog.addr
  pub idle : t.usbdfu_state ≡ dnload_idle

-- A block of data for the start of a page in the application area, sent with a block number other
-- than 0 and polled, is what the flash holds when the callback of the poll is over, whatever it held
-- before: the first `len` bytes of the control buffer, or `len - 1` if that is odd, each at its
-- place. The flash before the block, and from 4096 bytes behind its start on, is as it was, unless
-- the application had to erase everything first, which it does once at most. The target address
-- stays, and the application is ready for the next block. This is for a flash controller whose busy
-- flag clears, which erases a page and programs as flash does and reads back so, and for a flash
-- size that fits its register.
pub block-command :
    (env : Env) (fuel : ℕ) (cfg : Config) (chip : Chip) (rom : ℕ → ℕ) (down poll : SetupData)
    (len : ℕ) (s : Dfu)
    → Settles env fuel
    → NorFlash env (page_size chip) rom
    → chip.flash_size < 2 ^ 16
    → IsSized s
    → down.request ≡ 1
    → poll.request ≡ 3
    → 0 < down.value
    → 0 < len
    → len ≤ dfu_transfer_size
    → start_addr ≤ block_address s.prog.addr down.value
    → block_address s.prog.addr down.value + len ≤ end_addr chip
    → block_address s.prog.addr down.value % page_size chip ≡ 0
    → Returns
        (λ _ t.
          Stored
            (page_size chip)
            rom
            cfg
            (block_address s.prog.addr down.value)
            (2 * (len / 2))
            s
            t)
        (command env fuel cfg chip down poll len s)
unfolding usbdfu_control_request
block-command env fuel cfg chip rom down poll len s settles nor density z d p b low high from to
      whole_page =
    let nonzero : (len == 0) ≡ false = ground arith in
    let whole : ltb dfu_transfer_size len ≡ false = ground arith in
    let data_block : (down.value == 0) ≡ false = ground arith in
    let inside : in_app_area chip (block_address s.prog.addr down.value) len ≡ true =
      in_area chip (block_address s.prog.addr down.value) len density from to in
    rw (d, p, nonzero, whole)
      (Returns_mono
        (complete-Written env fuel settles cfg chip density rom nor _ refl data_block
          (record { inside = inside; below = omega arith; block = high; whole = whole_page }))
        λ _ t (w, idle). record {
          bytes = λ j lt.
              w.bytes j lt
              ∙ byte_at-blit-take len j s.control_buffer s.prog.buf (omega arith)
                  (omega (arith, z.control)) (omega (arith, z.shadow));
          kept = w.kept;
          cleared = w.cleared;
          addr = ap (λ q. q.addr) w.payload;
          idle = idle;
        })
