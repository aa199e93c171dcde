-- ===== src/Usb/Spared/Memory.antt =====
-- The packet memory that usb.cpp writes: its table, and the transmit buffer of endpoint 0.
use swindle_bootloader_gd.Common.{
  ℕ, zero, suc, ◌+◌, ◌-◌, ◌*◌, ◌/◌, ◌%◌, ◌≤◌, ◌<◌, ◌≡◌, bit_and, bit_or, List, ◌∷◌, ltb, ◌==◌,
  if◌then◌else◌, arith, u8, u16, pure, ◌>>=◌,
}
use swindle_bootloader_gd.Common.Partial.{nothing, holds, Any, Safe, Safe-pure, Safe-bind, Safe-if}
use swindle_bootloader_gd.Bus.{word, read, Log, Env}
use swindle_bootloader_gd.Flash.Spared.{Clear, Spared, before_ar-Clear, load-Spared, store-Spared}
use swindle_bootloader_gd.Usb.Registers.{
  usb_btable, pma_base, ep_reg, tx_stat, tx_valid, set_reg, get_reg, set_ep_tx_count, table_entry,
  get_ep_tx_buff, set_ep_tx_addr, set_ep_rx_addr, set_ep_rx_count,
}
use swindle_bootloader_gd.Usb.Packets.{put_halves, copy_to_pm, ep_write_packet, set_ep_rx_bufsize}
use swindle_bootloader_gd.Usb.Spared.{tx_stat-Spared}

-- What the runs rely on of the packet memory: the table is where `usb_init` put it, and the transmit
-- buffer of endpoint 0 starts within the 512 bytes.
pub record PacketMemory (env : Env) : Type 0 where
  pub base : (h : Log) → env h word usb_btable ≡ 0
  pub buffer : (h : Log) → u16 (env h word pma_base) < 512

entry-Clear : (ep field : ℕ) → ep < 256 → field < 8 → Clear (pma_base + (ep * 8 + field) * 2)
entry-Clear ep field lt small =
    before_ar-Clear (pma_base + (ep * 8 + field) * 2) (omega arith) (omega arith)

-- A packet of the transmit buffer, 128 addresses long.
put_halves-Spared :
    (n pm : ℕ) (buf : List ℕ)
    → pma_base ≤ pm
    → pm + 4 * n ≤ pma_base + 1152
    → Safe Spared Any (put_halves n pm buf)
unfolding put_halves
put_halves-Spared zero pm buf lo hi = record { run = λ h s. holds (tt, s) }
put_halves-Spared (suc n) pm (a ∷ b ∷ buf) lo hi = record {
  run = λ h s.
      Safe.run
        (Safe-bind
          (store-Spared word pm (u8 a + u8 b * 256)
            (before_ar-Clear pm (omega arith) (omega arith)))
          λ _ _. put_halves-Spared n (pm + 4) buf (omega arith) (omega arith))
        h s;
}
put_halves-Spared (suc n) pm _ lo hi = record { run = λ h s. nothing }

copy_to_pm-Spared :
    (pm : ℕ) (buf : List ℕ) (len : ℕ)
    → pma_base ≤ pm
    → pm < pma_base + 1024
    → len ≤ 64
    → Safe Spared Any (copy_to_pm pm buf len)
unfolding copy_to_pm
copy_to_pm-Spared pm buf len lo hi small =
    put_halves-Spared (u16 (len + 1) / 2) pm buf lo (omega arith)

module _ (env : Env) (memory : PacketMemory env) where
  table_base-Spared : Safe Spared (λ b. b ≡ 0) (get_reg env usb_btable)
  unfolding Spared
  table_base-Spared = record {
    run = λ h s. holds {s = read word usb_btable ∷ h} (omega (arith, memory.base h), s);
  }

  buffer_start-Spared : Safe Spared (λ v. v < 512) (get_reg env pma_base)
  unfolding Spared
  buffer_start-Spared = record {
    run = λ h s. holds {s = read word pma_base ∷ h} (omega (arith, memory.buffer h), s);
  }

  table_entry-Spared :
      (ep field : ℕ)
      → Safe Spared (λ a. a ≡ pma_base + (ep * 8 + field) * 2) (table_entry env ep field)
  unfolding table_entry
  table_entry-Spared ep field =
      Safe-bind table_base-Spared
        λ b e. Safe-pure (pma_base + (b + ep * 8 + field) * 2) (omega arith)

  set_entry-Spared :
      (ep field v : ℕ)
      → ep < 256
      → field < 8
      → Safe Spared Any (do a ← table_entry env ep field; set_reg a v)
  set_entry-Spared ep field v lt small =
      Safe-bind (table_entry-Spared ep field)
        λ a e. store-Spared word a (u16 v) (rw e (entry-Clear ep field lt small))

  -- The writes to the entries of the table.
  pub entries-Spared :
      (ep v : ℕ)
      → ep < 256
      → Safe Spared Any (set_ep_tx_addr env ep v)
        × Safe Spared Any (set_ep_tx_count env ep v)
        × Safe Spared Any (set_ep_rx_addr env ep v)
        × Safe Spared Any (set_ep_rx_count env ep v)
  unfolding set_ep_tx_addr set_ep_tx_count set_ep_rx_addr set_ep_rx_count
  entries-Spared ep v lt = (
    set_entry-Spared ep 0 v lt (omega arith),
    set_entry-Spared ep 2 v lt (omega arith),
    set_entry-Spared ep 4 v lt (omega arith),
    set_entry-Spared ep 6 v lt (omega arith),
  )

  tx_buffer-Spared :
      Safe Spared (λ pm. (pma_base ≤ pm) × (pm < pma_base + 1024)) (get_ep_tx_buff env 0)
  unfolding get_ep_tx_buff
  tx_buffer-Spared = Safe-bind (table_entry-Spared 0 0) λ a e. at_entry a (omega arith)
    where
      at_entry :
          (a : ℕ)
          → a ≡ pma_base
          → Safe Spared
              (λ pm. (pma_base ≤ pm) × (pm < pma_base + 1024))
              (do v ← get_reg env a; pure (pma_base + v * 2))
      at_entry a e = rw e (
          Safe-bind buffer_start-Spared
            λ v lt. Safe-pure (pma_base + v * 2) (omega arith, omega arith))

  -- A packet of at most 64 bytes on endpoint 0.
  pub write_packet-Spared :
      (buf : List ℕ) (len : ℕ) → len ≤ 64 → Safe Spared Any (ep_write_packet env 0 buf len)
  unfolding ep_write_packet
  write_packet-Spared buf len small = Safe-bind (load-Spared env word (ep_reg 0)) λ v _.
      Safe-if (bit_and v tx_stat == tx_valid) (Safe-pure 0 tt) (
        Safe-bind tx_buffer-Spared λ pm (lo, hi).
          Safe-bind (copy_to_pm-Spared pm buf len lo hi small) λ _ _.
            Safe-bind (entries-Spared 0 len (omega arith)).1 λ _ _.
              Safe-bind (tx_stat-Spared env 0 tx_valid (omega arith)) λ _ _. Safe-pure len tt)

  pub bufsize-Spared : (ep size : ℕ) → ep < 256 → Safe Spared Any (set_ep_rx_bufsize env ep size)
  unfolding set_ep_rx_bufsize
  bufsize-Spared ep size lt =
      Safe-if (ltb 62 size)
        (entries-Spared ep (bit_or ((if size % 32 == 0 then size else size - 32) * 32) 0x8000) lt).3
        (entries-Spared ep ((if size % 2 == 0 then size else size + 1) * 1024) lt).3
