-- ===== src/Usb/Packets.antt =====
-- Packet memory and the endpoint operations of src_stage2/usb.cpp.
use swindle_bootloader_gd.Common.{
  bit_or, set, get_or, ℕ, zero, suc, ◌+◌, ◌-◌, ◌*◌, ◌/◌, ◌%◌, bit_and, Bool, true, false, not, ◌||◌,
  none, some, List, [], ◌∷◌, ltb, ◌==◌, if◌then◌else◌, u8, u16, M, pure, ◌>>=◌, ◌>>◌,
}
use swindle_bootloader_gd.Bus.{byte, half, word, Log, Env, load, store}
use swindle_bootloader_gd.Usb.Registers.{
  ep_reg, rx_stat, rx_stall, rx_nak, rx_valid, tx_stat, tx_stall, tx_nak, tx_valid, set_ep_rx_stat,
  set_ep_tx_stat, clr_ep_rx_ctr, clr_ep_tx_dtog, clr_ep_rx_dtog, set_ep_type, set_ep_addr,
  get_ep_tx_buff, get_ep_rx_buff, get_ep_rx_count, set_ep_tx_addr, set_ep_tx_count, set_ep_rx_addr,
  set_ep_rx_count,
}
use swindle_bootloader_gd.Usb.State.{idle, Usb, on_hw, set_fsm}

-- The loop of `st_usbfs_copy_to_pm`, with the half words left: packet memory has 16 bits in each 32.
-- A source that ends before is a read beyond the array.
unfoldable pub put_halves : ℕ → ℕ → List ℕ → M Log (Unit {0})
put_halves zero pm buf h = pure tt h
put_halves (suc n) pm (a ∷ b ∷ buf) h =
    (do store word pm (u8 a + u8 b * 256); put_halves n (pm + 4) buf) h
put_halves (suc n) pm _ h = none

unfoldable pub copy_to_pm : ℕ → List ℕ → ℕ → M Log (Unit {0})
unfolding put_halves
copy_to_pm pm buf len = put_halves (u16 (len + 1) / 2) pm buf

-- the entries of `typelookup`, by the USB type code
abbrev pub ep_type : ℕ → ℕ
ep_type type =
    if type == 0 then 0x0200 else if type == 1 then 0x0400 else if type == 2 then 0 else 0x0600

module _ (env : Env) where
  -- The loop of `st_usbfs_copy_from_pm` and its last, odd byte: the bytes that it stores.
  unfoldable pub get_halves : ℕ → Bool → ℕ → M Log (List ℕ)
  get_halves zero odd pm h = (if odd then (do b ← load env byte pm; pure (b ∷ [])) else pure []) h
  get_halves (suc n) odd pm h =
      (do v ← load env half pm; rest ← get_halves n odd (pm + 4); pure (v % 256 ∷ v / 256 ∷ rest)) h

  unfoldable pub copy_from_pm : ℕ → ℕ → M Log (List ℕ)
  unfolding get_halves
  copy_from_pm pm len = get_halves (len / 2) (len % 2 == 1) pm

  unfoldable pub ep_write_packet : ℕ → List ℕ → ℕ → M Log ℕ
  unfolding copy_to_pm set_ep_tx_count set_ep_tx_stat get_ep_tx_buff
  ep_write_packet addr buf len =
      let ep = bit_and addr 0x7F in
      do
        v ← load env word (ep_reg ep)
        if bit_and v tx_stat == tx_valid then pure 0 else (do
          pm ← get_ep_tx_buff env ep
          copy_to_pm pm buf len
          set_ep_tx_count env ep len
          set_ep_tx_stat env ep tx_valid
          pure len)

  -- `MIN(USB_GET_EP_RX_COUNT(addr) & 0x3ff, len)`: the macro reads the count again if it is smaller.
  unfoldable pub min_rx_count : ℕ → ℕ → M Log ℕ
  unfolding get_ep_rx_count
  min_rx_count addr len = do
    c ← get_ep_rx_count env addr
    if ltb (bit_and c 0x3FF) len
        then (do c' ← get_ep_rx_count env addr; pure (u16 (bit_and c' 0x3FF)))
        else pure (u16 len)

  -- The bytes that are stored at `buf`; the result of the C function is their number.
  unfoldable pub ep_read_packet : List Bool → ℕ → ℕ → M Log (List ℕ)
  unfolding min_rx_count get_ep_rx_buff copy_from_pm clr_ep_rx_ctr set_ep_rx_stat
  ep_read_packet force_nak addr len = do
    v ← load env word (ep_reg addr)
    if bit_and v rx_stat == rx_valid then pure [] else (do
      n ← min_rx_count addr len
      pm ← get_ep_rx_buff env addr
      bytes ← copy_from_pm pm n
      clr_ep_rx_ctr env addr
      if get_or false force_nak addr then pure tt else set_ep_rx_stat env addr rx_valid
      pure bytes)

  -- `addr` names an OUT endpoint below 8 in every call.
  unfoldable pub ep_nak_set : ℕ → Bool → M Usb (Unit {0})
  unfolding set_ep_rx_stat
  ep_nak_set addr nak = if not (bit_and addr 0x80 == 0) then pure tt else (do
    λ s. some (tt, record s { force_nak = set s.force_nak addr nak })
    on_hw (set_ep_rx_stat env addr (if nak then rx_nak else rx_valid)))

  unfoldable pub ep_stall_set : ℕ → Bool → M Log (Unit {0})
  unfolding set_ep_tx_stat set_ep_rx_stat clr_ep_tx_dtog clr_ep_rx_dtog
  ep_stall_set addr stall = do
    if addr == 0 then set_ep_tx_stat env addr (if stall then tx_stall else tx_nak) else pure tt
    if not (bit_and addr 0x80 == 0)
        then (do
          set_ep_tx_stat env (bit_and addr 0x7F) (if stall then tx_stall else tx_nak)
          if stall then pure tt else clr_ep_tx_dtog env (bit_and addr 0x7F))
        else (do
          if stall then pure tt else clr_ep_rx_dtog env addr
          set_ep_rx_stat env addr (if stall then rx_stall else rx_valid))

  unfoldable pub ep_stall_get : ℕ → M Log Bool
  ep_stall_get addr =
      if not (bit_and addr 0x80 == 0)
      then (do v ← load env word (ep_reg (bit_and addr 0x7F)); pure (bit_and v tx_stat == tx_stall))
      else (do v ← load env word (ep_reg addr); pure (bit_and v rx_stat == rx_stall))

  unfoldable pub stall_transaction : M Usb (Unit {0})
  unfolding ep_stall_set
  stall_transaction = do on_hw (ep_stall_set 0 true); set_fsm idle

  unfoldable pub set_ep_rx_bufsize : ℕ → ℕ → M Log (Unit {0})
  unfolding set_ep_rx_count
  set_ep_rx_bufsize ep size =
      if ltb 62 size
      then set_ep_rx_count env ep
          (bit_or ((if size % 32 == 0 then size else size - 32) * 32) 0x8000)
      else set_ep_rx_count env ep ((if size % 2 == 0 then size else size + 1) * 1024)

  unfoldable pub ep_setup : ℕ → ℕ → ℕ → M Usb (Unit {0})
  unfolding set_ep_addr set_ep_type set_ep_tx_addr clr_ep_tx_dtog set_ep_tx_stat set_ep_rx_addr
      set_ep_rx_bufsize clr_ep_rx_dtog set_ep_rx_stat
  ep_setup addr type max_size =
      let dir = bit_and addr 0x80 in
      let ep = bit_and addr 0x7F in
      do
        on_hw (set_ep_addr env ep ep)
        on_hw (set_ep_type env ep (ep_type type))
        if not (dir == 0) || ep == 0
            then (do
              λ s. on_hw (set_ep_tx_addr env ep s.pm_top) s
              on_hw (clr_ep_tx_dtog env ep)
              on_hw (set_ep_tx_stat env ep tx_nak)
              λ s. some (tt, record s { pm_top = u16 (s.pm_top + max_size) }))
            else pure tt
        if dir == 0
            then (do
              λ s. on_hw (set_ep_rx_addr env ep s.pm_top) s
              on_hw (set_ep_rx_bufsize ep max_size)
              on_hw (clr_ep_rx_dtog env ep)
              on_hw (set_ep_rx_stat env ep rx_valid)
              λ s. some (tt, record s { pm_top = u16 (s.pm_top + max_size) }))
            else pure tt
