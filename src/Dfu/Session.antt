-- ===== src/Dfu/Session.antt =====
-- A whole download: SETADDR, the blocks of a firmware, and the zero-length block that ends it.
use swindle_bootloader_gd.Common.{
  ℕ, zero, suc, ◌+◌, ◌-◌, ◌*◌, ◌/◌, ◌%◌, ◌^◌, ◌≤◌, ◌<◌, ◌≡◌, refl, ap, ◌∙◌, inl, inr, ◌⊎◌, List, [],
  ◌∷◌, arith, length, length-drop, take, drop, blit, byte_at-blit-take, Returns, returns, returned,
  Returns-bind, Returns-both, Returns_mono, Keeps,
}
use swindle_bootloader_gd.Common.Words.{byte_at}
use swindle_bootloader_gd.Bus.{word, read, write, Log, Env, modulus}
use swindle_bootloader_gd.Flash.{flash_cr, flash_keyr, flash_lock, flash_unlock}
use swindle_bootloader_gd.Flash.Settles.{Settles}
use swindle_bootloader_gd.Flash.Cells.{cells, NorFlash, control-kept}
use swindle_bootloader_gd.Flash.Erase.{digit-unset}
use swindle_bootloader_gd.Device.{
  Config, Chip, manifest, dfu_transfer_size, start_addr, end_addr, Dfu,
}
use swindle_bootloader_gd.Dfu.{
  page_size, block_address, clamp_len, cmd_setaddr, usbdfu_control_request,
  usbdfu_getstatus_complete,
}
use swindle_bootloader_gd.Dfu.Sized.{IsSized}
use swindle_bootloader_gd.Dfu.Transfer.{u32_bytes, Kept, copied, read_u32-u32_bytes}
use swindle_bootloader_gd.Dfu.Callback.{page_size_cases}
use swindle_bootloader_gd.Dfu.Write.{Cleared, next_whole}
use swindle_bootloader_gd.Dfu.Download.{Stored, block-command}
use swindle_bootloader_gd.Dfu.Host.{
  send, send_blocks, session, dnload_setup, getstatus_setup, first_byte, byte_at-drop, block_at,
  fill-IsSized, send-IsSized,
}

-- behind `flash_unlock`
abbrev unlocked : Log → Log
unlocked h =
    write word flash_keyr (0xcdef89ab % modulus word)
    ∷ write word flash_keyr (0x45670123 % modulus word)
    ∷ h

-- A firmware is what the flash holds from `a` on. Outside of its blocks the flash is as it was,
-- unless everything was erased first.
pub record Sent (size : ℕ) (rom : ℕ → ℕ) (cfg : Config) (rounds a : ℕ) (firmware : List ℕ)
    (s t : Dfu) : Type 0 where
  pub bytes : (j : ℕ) → j < length firmware → cells size rom t.log (a + j) ≡ byte_at firmware j
  pub kept :
      Cleared cfg s
      → (x : ℕ) → (x < a) ⊎ (a + rounds * 4096 ≤ x)
      → cells size rom t.log x ≡ cells size rom s.log x

-- One block of it.
record Put (size : ℕ) (rom : ℕ → ℕ) (cfg : Config) (a len : ℕ) (firmware : List ℕ) (s t : Dfu)
    : Type 0 where
  sized : IsSized t
  addr : t.prog.addr ≡ s.prog.addr
  cleared : Cleared cfg t
  bytes : (j : ℕ) → j < len → cells size rom t.log (a + j) ≡ byte_at firmware j
  kept :
      Cleared cfg s
      → (x : ℕ) → (x < a) ⊎ (a + 4096 ≤ x)
      → cells size rom t.log x ≡ cells size rom s.log x

-- The address is set, and what the flash holds is as it was.
record Aimed (size : ℕ) (rom : ℕ → ℕ) (a : ℕ) (s t : Dfu) : Type 0 where
  addr : t.prog.addr ≡ a
  erased : t.erased ≡ s.erased
  same : (x : ℕ) → cells size rom t.log x ≡ cells size rom s.log x

module _ (env : Env) (fuel : ℕ) (cfg : Config) (chip : Chip) (settles : Settles env fuel)
    (density : chip.flash_size < 2 ^ 16) where
  module _ (rom : ℕ → ℕ) (nor : NorFlash env (page_size chip) rom) where
    -- One block, at its address.
    send-block :
        (value len a : ℕ) (firmware : List ℕ) (s : Dfu)
        → IsSized s
        → 0 < value
        → 0 < len
        → len ≤ dfu_transfer_size
        → len ≤ length firmware
        → len % 2 ≡ 0
        → block_address s.prog.addr value ≡ a
        → start_addr ≤ a
        → a + len ≤ end_addr chip
        → a % page_size chip ≡ 0
        → Returns
            (λ _ t. Put (page_size chip) rom cfg a len firmware s t)
            (send env fuel cfg chip value len (take len firmware) s)
    send-block value len a firmware s z v low high has even here from to aligned =
        let s' = record s { control_buffer = blit (take len firmware) s.control_buffer } in
        let z' : IsSized s' =
          returned
            (Keeps.run (fill-IsSized env fuel cfg chip settles density (take len firmware)) s z) in
        let whole : 2 * (len / 2) ≡ len = omega arith in
        Returns_mono
          (Returns-both (send env fuel cfg chip value len (take len firmware) s)
            (block-command env fuel cfg chip rom (dnload_setup value len) getstatus_setup len s'
              settles nor density z' refl refl v low high (rw here from) (rw here to)
              (rw here aligned))
            (Keeps.run
              (send-IsSized env fuel cfg chip settles density value len (take len firmware)) s z))
          λ _ t (w, y).
            let w' : Stored (page_size chip) rom cfg a len s' t = rw (here, whole) at w in
            record {
              sized = y;
              addr = w'.addr;
              cleared = w'.cleared;
              bytes = λ j lt.
                  w'.bytes j lt
                  ∙ byte_at-blit-take len j firmware s.control_buffer lt has
                      (omega (arith, z.control));
              kept = w'.kept;
            }

    -- The blocks of the rest of a firmware, each behind the last.
    send_blocks-Sent :
        (rounds value a : ℕ) (firmware : List ℕ) (s : Dfu)
        → IsSized s
        → 2 ≤ value
        → s.prog.addr + (value - 2) * dfu_transfer_size ≡ a
        → start_addr ≤ a
        → a + length firmware ≤ end_addr chip
        → a % page_size chip ≡ 0
        → length firmware % 2 ≡ 0
        → length firmware ≤ rounds * dfu_transfer_size
        → rounds * dfu_transfer_size < length firmware + dfu_transfer_size
        → Returns
            (λ _ t. Sent (page_size chip) rom cfg rounds a firmware s t)
            (send_blocks env fuel cfg chip rounds value firmware s)
    unfolding send_blocks
    send_blocks-Sent zero value a firmware s z v at from to aligned even enough no_more =
        returns (record { bytes = λ j lt. absurd (omega arith); kept = λ over x out. refl })
    send_blocks-Sent (suc zero) value a firmware s z v at from to aligned even enough no_more =
        let len : clamp_len (length firmware) ≡ length firmware = ground arith in
        let here : block_address s.prog.addr value ≡ a =
          block_at s.prog.addr value a v at (omega arith) in
        rw len (
          Returns-bind
            (send-block value (length firmware) a firmware s z (omega arith) (omega arith)
              (omega arith) (omega arith) even here from to aligned)
            λ _ t put. returns (record { bytes = put.bytes; kept = put.kept }))
    send_blocks-Sent (suc (suc rounds)) value a firmware s z v at from to aligned even enough
          no_more =
        let len : clamp_len (length firmware) ≡ dfu_transfer_size = ground arith in
        let here : block_address s.prog.addr value ≡ a =
          block_at s.prog.addr value a v at (omega arith) in
        let rest = length-drop dfu_transfer_size firmware in
        rw len (
          Returns-bind
            (send-block value dfu_transfer_size a firmware s z (omega arith) (omega arith)
              (omega arith) (omega arith) (omega arith) here from (omega arith) aligned)
            λ _ t put.
              let addr = put.addr in
              Returns_mono
                (send_blocks-Sent (suc rounds) (suc value) (a + dfu_transfer_size)
                  (drop dfu_transfer_size firmware) t put.sized (omega arith)
                  (omega (arith, addr, at)) (omega arith) (omega (arith, rest))
                  (next_whole (page_size chip) a (page_size_cases chip) aligned)
                  (omega (arith, rest)) (omega (arith, rest)) (omega (arith, rest)))
                λ _ u more. both rounds a firmware s t u put more)
      where
        split_at : (j : ℕ) → (j < 4096) ⊎ (4096 ≤ j)
        split_at j = ground arith

        both :
            (rounds a : ℕ) (firmware : List ℕ) (s t u : Dfu)
            → Put (page_size chip) rom cfg a dfu_transfer_size firmware s t
            → Sent
                (page_size chip)
                rom
                cfg
                (suc rounds)
                (a + dfu_transfer_size)
                (drop dfu_transfer_size firmware)
                t
                u
            → Sent (page_size chip) rom cfg (suc (suc rounds)) a firmware s u
        both rounds a firmware s t u put more = record {
          bytes = λ j lt. elim (split_at j) [
            | inl first ↦ more.kept put.cleared (a + j) (inl (omega arith)) ∙ put.bytes j first
            | inr later ↦
                let place : a + j ≡ a + dfu_transfer_size + (j - 4096) = omega arith in
                let back : dfu_transfer_size + (j - 4096) ≡ j = omega arith in
                ap (cells (page_size chip) rom u.log) place
                ∙ more.bytes (j - 4096) (omega (arith, length-drop dfu_transfer_size firmware))
                ∙ byte_at-drop dfu_transfer_size (j - 4096) firmware
                ∙ ap (byte_at firmware) back
          ];
          kept =
              λ over x out. more.kept put.cleared x (outer x out) ∙ put.kept over x (inner x out);
        }
          where
            outer :
                (x : ℕ)
                → (x < a) ⊎ (a + suc (suc rounds) * 4096 ≤ x)
                → (x < a + dfu_transfer_size) ⊎ (a + dfu_transfer_size + suc rounds * 4096 ≤ x)
            outer x out = elim out [ inl q ↦ inl (omega arith) | inr q ↦ inr (omega arith) ]

            inner : (x : ℕ) → (x < a) ⊎ (a + suc (suc rounds) * 4096 ≤ x) → (x < a) ⊎ (a + 4096 ≤ x)
            inner x out = elim out [ inl q ↦ inl q | inr q ↦ inr (omega arith) ]

    setaddr-Aimed :
        (a : ℕ) (s : Dfu)
        → IsSized s
        → a < 2 ^ 32
        → Returns
            (λ _ t. Aimed (page_size chip) rom a s t)
            (send env fuel cfg chip 0 5 (cmd_setaddr ∷ u32_bytes a) s)
    unfolding usbdfu_control_request usbdfu_getstatus_complete flash_lock flash_unlock cells
    setaddr-Aimed a s z small =
        let bytes = cmd_setaddr ∷ u32_bytes a in
        let s' = record s { control_buffer = blit bytes s.control_buffer } in
        let z' : IsSized s' =
          returned (Keeps.run (fill-IsSized env fuel cfg chip settles density bytes) s z) in
        let source : Kept bytes s'.control_buffer =
          copied 5 bytes s.control_buffer (omega arith) (omega arith) (omega (arith, z.control)) in
        let shadow : Kept s'.control_buffer (blit (take 5 s'.control_buffer) s.prog.buf) =
          copied 5 s'.control_buffer s.prog.buf (omega arith) (omega (arith, z'.control))
            (omega (arith, z.shadow)) in
        let code = shadow.first ∙ source.first ∙ first_byte a in
        let argument =
          shadow.word ∙ source.word ∙ (read_u32-u32_bytes a cmd_setaddr 0 [] small).0 in
        rw code (
          returns (record {
            addr = argument;
            erased = refl;
            same = λ x.
                control-kept (page_size chip) rom word _ (read word flash_cr ∷ unlocked s.log) x (
                  digit-unset 6 (env (unlocked s.log) word flash_cr % modulus word) 0x80
                    (omega arith) (omega arith) (nor.strt (unlocked s.log)) refl);
          }))

    send-Aimed :
        (a : ℕ) (s : Dfu)
        → IsSized s
        → a < 2 ^ 32
        → Returns
            (λ _ t. Aimed (page_size chip) rom a s t × IsSized t)
            (send env fuel cfg chip 0 5 (cmd_setaddr ∷ u32_bytes a) s)
    send-Aimed a s z small =
        Returns-both (send env fuel cfg chip 0 5 (cmd_setaddr ∷ u32_bytes a) s)
          (setaddr-Aimed a s z small)
          (Keeps.run
            (send-IsSized env fuel cfg chip settles density 0 5 (cmd_setaddr ∷ u32_bytes a)) s z)

-- A host that sets the target address, sends a firmware in blocks of 4096 bytes and a last one of
-- the rest, and ends with an empty block, has the whole firmware in the flash: whatever the flash
-- held before, it holds each byte of the firmware at its place from that address on, and outside of
-- the blocks what it held before, unless the application had to erase everything first. The
-- application is then ready for the reset. This is for a firmware of an even length that begins at
-- the start of a page and lies in the application area, a flash controller whose busy flag clears,
-- which erases a page and programs as flash does and reads back so, and a flash size that fits its
-- register.
pub session-flash :
    (env : Env) (fuel : ℕ) (cfg : Config) (chip : Chip) (rom : ℕ → ℕ) (rounds addr : ℕ)
    (firmware : List ℕ) (s : Dfu)
    → Settles env fuel
    → NorFlash env (page_size chip) rom
    → chip.flash_size < 2 ^ 16
    → IsSized s
    → start_addr ≤ addr
    → addr + length firmware ≤ end_addr chip
    → addr % page_size chip ≡ 0
    → length firmware % 2 ≡ 0
    → length firmware ≤ rounds * dfu_transfer_size
    → rounds * dfu_transfer_size < length firmware + dfu_transfer_size
    → Returns
        (λ _ t.
          Sent (page_size chip) rom cfg rounds addr firmware s t × (t.usbdfu_state ≡ manifest))
        (session env fuel cfg chip rounds addr firmware s)
unfolding session usbdfu_control_request usbdfu_getstatus_complete
session-flash env fuel cfg chip rom rounds addr firmware s settles nor density z from to aligned
      even enough no_more =
    Returns-bind (send-Aimed env fuel cfg chip settles density rom nor addr s z (omega arith))
      λ _ t (aimed, y).
        let at = aimed.addr in
        Returns-bind
          (send_blocks-Sent env fuel cfg chip settles density rom nor rounds 2 addr firmware t y
            (omega arith) (omega (arith, at)) from to aligned even enough no_more)
          λ _ u sent. returns (
            record {
              bytes = sent.bytes;
              kept = λ over x out. sent.kept (λ on. aimed.erased ∙ over on) x out ∙ aimed.same x;
            },
            refl,
          )
