-- ===== src/Usb/Spared.antt =====
-- The USB stack of usb.cpp leaves the boot loader's flash as it is: the registers of the endpoints.
pub mod Memory
pub mod State
pub mod Requests
pub mod Endpoints
pub mod Control
pub mod Poll
use swindle_bootloader_gd.Common.{
  ℕ, zero, suc, ◌+◌, ◌-◌, ◌*◌, ◌/◌, ◌%◌, ◌^◌, ◌≤◌, ◌<◌, ◌≡◌, refl, bit_and, bit_or, Bool, true,
  false, not, ◌||◌, Option, none, some, List, [], ◌∷◌, ltb, ◌==◌, if◌then◌else◌, arith, u8, u16,
  get_or, bit_and-small, M, pure, ◌>>=◌, ◌>>◌,
}
use swindle_bootloader_gd.Common.Partial.{
  Holds, nothing, holds, Any, Safe, Safe-pure, Safe-done, Safe-bind, Safe-if, Safe-change,
}
use swindle_bootloader_gd.Bus.{Width, byte, half, word, read, Log, Env, load, store}
use swindle_bootloader_gd.Flash.Spared.{
  Clear, Spared, after_ar-Clear, before_ar-Clear, load-Spared, store-Spared, update-Spared,
}
use swindle_bootloader_gd.Device.{dfu_transfer_size, Dfu}
use swindle_bootloader_gd.Dfu.Spared.{Spares}
use swindle_bootloader_gd.Usb.Registers.{
  usb_btable, pma_base, ep_reg, rx_stat, rx_valid, rx_stall, tx_stat, tx_valid, tx_stall, tx_nak,
  set_reg, get_reg, rx_stat_value, tx_stat_value, clr_rx_ctr_value, clr_tx_ctr_value,
  clr_ep_tx_dtog, clr_ep_rx_dtog, clr_ep_tx_ctr, set_ep_rx_stat, set_ep_tx_stat, clr_ep_rx_ctr,
  set_ep_type, set_ep_addr, set_ep_tx_count, table_entry, get_ep_tx_buff, get_ep_rx_buff,
  get_ep_rx_count, set_ep_tx_addr, set_ep_rx_addr, set_ep_rx_count,
}
use swindle_bootloader_gd.Usb.Packets.{
  put_halves, copy_to_pm, get_halves, copy_from_pm, ep_write_packet, min_rx_count, ep_read_packet,
  ep_stall_set, ep_stall_get, set_ep_rx_bufsize,
}

-- The registers of the endpoints that one byte names.
ep_reg-Clear : (ep : ℕ) → ep < 256 → Clear (ep_reg ep)
ep_reg-Clear ep lt = before_ar-Clear (ep_reg ep) (omega arith) (omega arith)

module _ (env : Env) where
  get_reg-Spared : (r : ℕ) → Safe Spared Any (get_reg env r)
  get_reg-Spared r = Safe-bind (load-Spared env word r) λ v _. Safe-pure (u16 v) tt

  -- An endpoint register that is read, changed and written back.
  update_ep-Spared :
      (ep : ℕ) (f : ℕ → ℕ)
      → ep < 256
      → Safe Spared Any (do v ← get_reg env (ep_reg ep); set_reg (ep_reg ep) (f v))
  update_ep-Spared ep f lt =
      Safe-bind (get_reg-Spared (ep_reg ep))
        λ v _. store-Spared word (ep_reg ep) (u16 (f v)) (ep_reg-Clear ep lt)

  pub rx_stat-Spared : (ep stat : ℕ) → ep < 256 → Safe Spared Any (set_ep_rx_stat env ep stat)
  unfolding set_ep_rx_stat
  rx_stat-Spared ep stat lt = update_ep-Spared ep (λ v. rx_stat_value v stat) lt

  pub tx_stat-Spared : (ep stat : ℕ) → ep < 256 → Safe Spared Any (set_ep_tx_stat env ep stat)
  unfolding set_ep_tx_stat
  tx_stat-Spared ep stat lt = update_ep-Spared ep (λ v. tx_stat_value v stat) lt

  rx_ctr-Spared : (ep : ℕ) → ep < 256 → Safe Spared Any (clr_ep_rx_ctr env ep)
  unfolding clr_ep_rx_ctr
  rx_ctr-Spared ep lt = update_ep-Spared ep clr_rx_ctr_value lt

  pub tx_ctr-Spared : (ep : ℕ) → ep < 256 → Safe Spared Any (clr_ep_tx_ctr env ep)
  unfolding clr_ep_tx_ctr
  tx_ctr-Spared ep lt = update_ep-Spared ep clr_tx_ctr_value lt

  pub tx_dtog-Spared : (ep : ℕ) → ep < 256 → Safe Spared Any (clr_ep_tx_dtog env ep)
  unfolding clr_ep_tx_dtog
  tx_dtog-Spared ep lt = update_ep-Spared ep (λ v. bit_and v 0x8FCF) lt

  pub rx_dtog-Spared : (ep : ℕ) → ep < 256 → Safe Spared Any (clr_ep_rx_dtog env ep)
  unfolding clr_ep_rx_dtog
  rx_dtog-Spared ep lt = update_ep-Spared ep (λ v. bit_and v 0xCF8F) lt

  pub ep_type-Spared : (ep type : ℕ) → ep < 256 → Safe Spared Any (set_ep_type env ep type)
  unfolding set_ep_type
  ep_type-Spared ep type lt = update_ep-Spared ep (λ v. bit_or (bit_and v 0x898F) type) lt

  pub ep_addr-Spared : (ep addr : ℕ) → ep < 256 → Safe Spared Any (set_ep_addr env ep addr)
  unfolding set_ep_addr
  ep_addr-Spared ep addr lt = update_ep-Spared ep (λ v. bit_or (bit_and v 0x8F80) addr) lt

  entry_address-Spared : (ep field : ℕ) → Safe Spared Any (table_entry env ep field)
  unfolding table_entry
  entry_address-Spared ep field =
      Safe-bind (get_reg-Spared usb_btable)
        λ b _. Safe-pure (pma_base + (b + ep * 8 + field) * 2) tt

  get_ep_rx_buff-Spared : (ep : ℕ) → Safe Spared Any (get_ep_rx_buff env ep)
  unfolding get_ep_rx_buff
  get_ep_rx_buff-Spared ep =
      Safe-bind (entry_address-Spared ep 4)
        λ a _. Safe-bind (get_reg-Spared a) λ v _. Safe-pure (pma_base + v * 2) tt

  get_ep_rx_count-Spared : (ep : ℕ) → Safe Spared Any (get_ep_rx_count env ep)
  unfolding get_ep_rx_count
  get_ep_rx_count-Spared ep = Safe-bind (entry_address-Spared ep 6) λ a _. get_reg-Spared a

  get_halves-Spared : (n : ℕ) (odd : Bool) (pm : ℕ) → Safe Spared Any (get_halves env n odd pm)
  unfolding get_halves
  get_halves-Spared zero odd pm = record {
    run = λ h s.
        Safe.run
          (Safe-if odd (Safe-bind (load-Spared env byte pm) λ b _. Safe-pure (b ∷ []) tt)
            (Safe-pure [] tt))
          h s;
  }
  get_halves-Spared (suc n) odd pm = record {
    run = λ h s.
        Safe.run
          (Safe-bind (load-Spared env half pm) λ v _.
            Safe-bind (get_halves-Spared n odd (pm + 4))
              λ rest _. Safe-pure (v % 256 ∷ v / 256 ∷ rest) tt)
          h s;
  }

  min_rx_count-Spared : (addr len : ℕ) → Safe Spared Any (min_rx_count env addr len)
  unfolding min_rx_count
  min_rx_count-Spared addr len = Safe-bind (get_ep_rx_count-Spared addr) λ c _.
      Safe-if (ltb (bit_and c 0x3FF) len)
        (Safe-bind (get_ep_rx_count-Spared addr) λ c' _. Safe-pure (u16 (bit_and c' 0x3FF)) tt)
        (Safe-pure (u16 len) tt)

  pub read_packet-Spared :
      (nak : List Bool) (addr len : ℕ)
      → addr < 256
      → Safe Spared Any (ep_read_packet env nak addr len)
  unfolding ep_read_packet copy_from_pm
  read_packet-Spared nak addr len lt = Safe-bind (load-Spared env word (ep_reg addr)) λ v _.
      Safe-if (bit_and v rx_stat == rx_valid) (Safe-pure [] tt) (
        Safe-bind (min_rx_count-Spared addr len) λ n _.
          Safe-bind (get_ep_rx_buff-Spared addr) λ pm _.
            Safe-bind (get_halves-Spared (n / 2) (n % 2 == 1) pm) λ bytes _.
              Safe-bind (rx_ctr-Spared addr lt) λ _ _.
                Safe-bind
                  (Safe-if (get_or false nak addr) Safe-done (rx_stat-Spared addr rx_valid lt))
                  λ _ _. Safe-pure bytes tt)

  stall_tx-Spared :
      (ep : ℕ) (stall : Bool)
      → ep < 256
      → Safe Spared Any (set_ep_tx_stat env ep (if stall then tx_stall else tx_nak))
  stall_tx-Spared ep stall lt = tx_stat-Spared ep (if stall then tx_stall else tx_nak) lt

  pub stall_set-Spared :
      (addr : ℕ) (stall : Bool) → addr < 256 → Safe Spared Any (ep_stall_set env addr stall)
  unfolding ep_stall_set
  stall_set-Spared addr stall lt =
      let ep = bit_and addr 0x7F in
      let small = bit_and-small 8 addr 0x7F lt in
      Safe-bind (Safe-if (addr == 0) (stall_tx-Spared addr stall lt) Safe-done) λ _ _.
        Safe-if (not (bit_and addr 0x80 == 0))
          (Safe-bind (stall_tx-Spared ep stall small)
            λ _ _. Safe-if stall Safe-done (tx_dtog-Spared ep small))
          (Safe-bind (Safe-if stall Safe-done (rx_dtog-Spared addr lt))
            λ _ _. rx_stat-Spared addr (if stall then rx_stall else rx_valid) lt)

  pub stall_get-Spared : (addr : ℕ) → Safe Spared Any (ep_stall_get env addr)
  unfolding ep_stall_get
  stall_get-Spared addr =
      Safe-if (not (bit_and addr 0x80 == 0))
        (Safe-bind (load-Spared env word (ep_reg (bit_and addr 0x7F)))
          λ v _. Safe-pure (bit_and v tx_stat == tx_stall) tt)
        (Safe-bind (load-Spared env word (ep_reg addr))
          λ v _. Safe-pure (bit_and v rx_stat == rx_stall) tt)
