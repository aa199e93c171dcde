-- ===== src/Usb/Registers.antt =====
-- The register and packet-table macros of src_stage2/usb.h, for the masks that its constants add up
-- to. A register is read as 32 bits and cut to 16, and written with 16.
use swindle_bootloader_gd.Common.{ℕ, ◌+◌, ◌*◌, bit_and, bit_or, bit_xor, u16, M, pure, ◌>>=◌}
use swindle_bootloader_gd.Bus.{word, Log, Env, load, store}

abbrev pub usb_base : ℕ
usb_base = 0x40005c00

abbrev pub pma_base : ℕ
pma_base = 0x40006000

abbrev pub usb_cntr : ℕ
usb_cntr = usb_base + 0x40

abbrev pub usb_istr : ℕ
usb_istr = usb_base + 0x44

abbrev pub usb_daddr : ℕ
usb_daddr = usb_base + 0x4C

abbrev pub usb_btable : ℕ
usb_btable = usb_base + 0x50

-- `USB_EP_REG(ep)`
abbrev pub ep_reg : ℕ → ℕ
ep_reg ep = usb_base + 4 * ep

-- the values of the two status fields of an endpoint register
abbrev pub rx_stat : ℕ
rx_stat = 0x3000

abbrev pub rx_disabled : ℕ
rx_disabled = 0

abbrev pub rx_stall : ℕ
rx_stall = 0x1000

abbrev pub rx_nak : ℕ
rx_nak = 0x2000

abbrev pub rx_valid : ℕ
rx_valid = 0x3000

abbrev pub tx_stat : ℕ
tx_stat = 0x30

abbrev pub tx_disabled : ℕ
tx_disabled = 0

abbrev pub tx_stall : ℕ
tx_stall = 0x10

abbrev pub tx_nak : ℕ
tx_nak = 0x20

abbrev pub tx_valid : ℕ
tx_valid = 0x30

-- the bits of an endpoint register that a write does not toggle
abbrev pub ntoggle_msk : ℕ
ntoggle_msk = 0x8F8F

-- `SET_REG`
abbrev pub set_reg : ℕ → ℕ → M Log (Unit {0})
set_reg r v = store word r (u16 v)

-- The values that the macros write to an endpoint register that reads `v`.
-- `toggle_mask ^ STAT | CTR bits`, for the receive and the transmit status
unfoldable pub rx_stat_value : ℕ → ℕ → ℕ
rx_stat_value v stat = bit_or (bit_xor (bit_and v 0xBF8F) stat) 0x8080

unfoldable pub tx_stat_value : ℕ → ℕ → ℕ
tx_stat_value v stat = bit_or (bit_xor (bit_and v 0x8FBF) stat) 0x8080

unfoldable pub clr_rx_ctr_value : ℕ → ℕ
clr_rx_ctr_value v = bit_or (bit_and (bit_and v ntoggle_msk) 0x7FFF) 0x0080

unfoldable pub clr_tx_ctr_value : ℕ → ℕ
clr_tx_ctr_value v = bit_or (bit_and (bit_and v ntoggle_msk) 0xFF7F) 0x8000

module _ (env : Env) where
  -- `GET_REG`
  abbrev pub get_reg : ℕ → M Log ℕ
  get_reg r = do v ← load env word r; pure (u16 v)

  unfoldable pub set_ep_rx_stat : ℕ → ℕ → M Log (Unit {0})
  unfolding rx_stat_value
  set_ep_rx_stat ep stat = do v ← get_reg (ep_reg ep); set_reg (ep_reg ep) (rx_stat_value v stat)

  unfoldable pub set_ep_tx_stat : ℕ → ℕ → M Log (Unit {0})
  unfolding tx_stat_value
  set_ep_tx_stat ep stat = do v ← get_reg (ep_reg ep); set_reg (ep_reg ep) (tx_stat_value v stat)

  unfoldable pub clr_ep_rx_ctr : ℕ → M Log (Unit {0})
  unfolding clr_rx_ctr_value
  clr_ep_rx_ctr ep = do v ← get_reg (ep_reg ep); set_reg (ep_reg ep) (clr_rx_ctr_value v)

  unfoldable pub clr_ep_tx_ctr : ℕ → M Log (Unit {0})
  unfolding clr_tx_ctr_value
  clr_ep_tx_ctr ep = do v ← get_reg (ep_reg ep); set_reg (ep_reg ep) (clr_tx_ctr_value v)

  unfoldable pub clr_ep_tx_dtog : ℕ → M Log (Unit {0})
  clr_ep_tx_dtog ep = do v ← get_reg (ep_reg ep); set_reg (ep_reg ep) (bit_and v 0x8FCF)

  unfoldable pub clr_ep_rx_dtog : ℕ → M Log (Unit {0})
  clr_ep_rx_dtog ep = do v ← get_reg (ep_reg ep); set_reg (ep_reg ep) (bit_and v 0xCF8F)

  unfoldable pub set_ep_type : ℕ → ℕ → M Log (Unit {0})
  set_ep_type ep type = do
    v ← get_reg (ep_reg ep)
    set_reg (ep_reg ep) (bit_or (bit_and v 0x898F) type)

  unfoldable pub set_ep_addr : ℕ → ℕ → M Log (Unit {0})
  set_ep_addr ep addr = do
    v ← get_reg (ep_reg ep)
    set_reg (ep_reg ep) (bit_or (bit_and v 0x8F80) addr)

  -- The address of an entry of the packet table; the table's own address is a register.
  unfoldable pub table_entry : ℕ → ℕ → M Log ℕ
  table_entry ep field = do b ← get_reg usb_btable; pure (pma_base + (b + ep * 8 + field) * 2)

  unfoldable pub get_ep_tx_buff : ℕ → M Log ℕ
  unfolding table_entry
  get_ep_tx_buff ep = do a ← table_entry ep 0; v ← get_reg a; pure (pma_base + v * 2)

  unfoldable pub get_ep_rx_buff : ℕ → M Log ℕ
  unfolding table_entry
  get_ep_rx_buff ep = do a ← table_entry ep 4; v ← get_reg a; pure (pma_base + v * 2)

  unfoldable pub get_ep_rx_count : ℕ → M Log ℕ
  unfolding table_entry
  get_ep_rx_count ep = do a ← table_entry ep 6; get_reg a

  unfoldable pub set_ep_tx_addr : ℕ → ℕ → M Log (Unit {0})
  unfolding table_entry
  set_ep_tx_addr ep v = do a ← table_entry ep 0; set_reg a v

  unfoldable pub set_ep_tx_count : ℕ → ℕ → M Log (Unit {0})
  unfolding table_entry
  set_ep_tx_count ep v = do a ← table_entry ep 2; set_reg a v

  unfoldable pub set_ep_rx_addr : ℕ → ℕ → M Log (Unit {0})
  unfolding table_entry
  set_ep_rx_addr ep v = do a ← table_entry ep 4; set_reg a v

  unfoldable pub set_ep_rx_count : ℕ → ℕ → M Log (Unit {0})
  unfolding table_entry
  set_ep_rx_count ep v = do a ← table_entry ep 6; set_reg a v
