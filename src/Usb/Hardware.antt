-- ===== src/Usb/Hardware.antt =====
-- The endpoint operations come back, and what they give.
use swindle_bootloader_gd.Common.{
  ℕ, zero, suc, ◌+◌, ◌*◌, ◌/◌, ◌%◌, ◌^◌, ◌≤◌, ◌<◌, ◌≡◌, refl, bit_and, Bool, true, false, not,
  Option, none, some, List, [], ◌∷◌, ltb, ltb→lt, ◌==◌, if◌then◌else◌, u8, u16, arith, length,
  get_or, M, and_then, Returns, returns, Returns-bind, Returns_mono, Returns-if, Gives, Gives-pure,
  Gives-bind, Gives-if,
}
use swindle_bootloader_gd.Bus.{Done, half, word, read, Log, Env, modulus, load-Gives, store-Gives}
use swindle_bootloader_gd.Usb.Registers.{
  get_reg, usb_btable, pma_base, ep_reg, rx_stat, rx_valid, rx_stall, tx_stat, tx_valid, tx_stall,
  tx_nak, clr_ep_tx_dtog, clr_ep_rx_dtog, set_ep_rx_stat, set_ep_tx_stat, clr_ep_rx_ctr,
  set_ep_tx_count, get_ep_tx_buff, get_ep_rx_buff, get_ep_rx_count,
}
use swindle_bootloader_gd.Usb.State.{Usb, on_hw}
use swindle_bootloader_gd.Usb.Packets.{
  put_halves, copy_to_pm, get_halves, copy_from_pm, ep_write_packet, min_rx_count, ep_read_packet,
  ep_stall_set,
}

-- The entry of the packet table that counts the bytes received on endpoint 0.
abbrev pub rx_count : ℕ
rx_count = pma_base + 12

-- What the driver relies on of the peripheral: the table is where `usb_init` put it, and reading the
-- received count does not change it.
pub record PacketTable (env : Env) : Type 0 where
  pub base : (h : Log) → env h word usb_btable ≡ 0
  pub count :
      (h : Log)
      → env (read word usb_btable ∷ read word rx_count ∷ h) word rx_count ≡ env h word rx_count

-- Only the run has changed.
abbrev pub Logged : Usb → Usb → Type 0
Logged s t = (h : Log) × (t ≡ record s { dfu = record s.dfu { log = h } })

pub on_hw-Logged :
    {A : Type 0} {P : A → Type 0} {m : M Log A} (s : Usb)
    → Gives P m
    → Returns (λ a t. P a × Logged s t) (on_hw m s)
on_hw-Logged {A} {P} {m} s k = after (m s.dfu.log) (k.run s.dfu.log)
  where
    after :
        (o : Option (A × Log))
        → Returns (λ a _. P a) o
        → Returns
            (λ a t. P a × Logged s t)
            (elim o [
              | none ↦ none
              | some (a, h) ↦ some (a, record s { dfu = record s.dfu { log = h } })
            ])
    after none r = elim r [ ]
    after (some (a, h)) (returns p) = returns (p, (h, refl))

-- What follows a command of the bus goes on from the state with the longer run.
pub Returns-on_hw :
    {A B : Type 0} {P : A → Type 0} {Q : B → Usb → Type 0} (m : M Log A) (f : A → M Usb B) (s : Usb)
    → Gives P m
    → ((a : A) (h : Log) → P a → Returns Q (f a (record s { dfu = record s.dfu { log = h } })))
    → Returns Q (and_then (on_hw m s) f)
Returns-on_hw m f s k next = Returns-bind (on_hw-Logged s k) λ a t (p, (h, eq)). rw eq (next a h p)

pub put_halves-Done : (n pm : ℕ) (buf : List ℕ) → 2 * n ≤ length buf → Done (put_halves n pm buf)
unfolding put_halves
put_halves-Done zero pm buf fits = Gives-pure tt tt
put_halves-Done (suc n) pm [] fits = absurd (omega arith)
put_halves-Done (suc n) pm (a ∷ []) fits = absurd (omega arith)
put_halves-Done (suc n) pm (a ∷ b ∷ buf) fits =
    Gives-bind (store-Gives word pm (u8 a + u8 b * 256))
      λ _ _. put_halves-Done n (pm + 4) buf (omega arith)

get_halves-length :
    (env : Env) (n : ℕ) (odd : Bool) (pm : ℕ)
    → Gives (λ bytes. length bytes ≡ 2 * n + (if odd then 1 else 0)) (get_halves env n odd pm)
unfolding get_halves
get_halves-length env zero true pm = record { run = λ h. returns refl }
get_halves-length env zero false pm = record { run = λ h. returns refl }
get_halves-length env (suc n) odd pm = Gives-bind (load-Gives env half pm) λ v _.
    Gives-bind (get_halves-length env n odd (pm + 4))
      λ rest e. Gives-pure (v % 256 ∷ v / 256 ∷ rest) (omega (arith, e))

copy_from_pm-length :
    (env : Env) (pm len : ℕ) → Gives (λ bytes. length bytes ≡ len) (copy_from_pm env pm len)
unfolding copy_from_pm
copy_from_pm-length env pm len = record {
  run = λ h.
      Returns_mono (Gives.run (get_halves-length env (len / 2) (len % 2 == 1) pm) h)
        λ bytes _ e. ground arith;
}

module _ (env : Env) where
  get_reg-Done : (r : ℕ) → Done (get_reg env r)
  get_reg-Done r = record { run = λ h. returns tt }

  pub set_ep_rx_stat-Done : (ep stat : ℕ) → Done (set_ep_rx_stat env ep stat)
  unfolding set_ep_rx_stat
  set_ep_rx_stat-Done ep stat = record { run = λ h. returns tt }

  set_ep_tx_stat-Done : (ep stat : ℕ) → Done (set_ep_tx_stat env ep stat)
  unfolding set_ep_tx_stat
  set_ep_tx_stat-Done ep stat = record { run = λ h. returns tt }

  clr_dtog-Done : (ep : ℕ) → Done (clr_ep_tx_dtog env ep) × Done (clr_ep_rx_dtog env ep)
  unfolding clr_ep_tx_dtog clr_ep_rx_dtog
  clr_dtog-Done ep = (record { run = λ h. returns tt }, record { run = λ h. returns tt })

  buff-Done : (ep : ℕ) → Done (get_ep_tx_buff env ep) × Done (get_ep_rx_buff env ep)
  unfolding get_ep_tx_buff get_ep_rx_buff
  buff-Done ep = (record { run = λ h. returns tt }, record { run = λ h. returns tt })

  set_ep_tx_count-Done : (ep v : ℕ) → Done (set_ep_tx_count env ep v)
  unfolding set_ep_tx_count
  set_ep_tx_count-Done ep v = record { run = λ h. returns tt }

  clr_ep_rx_ctr-Done : (ep : ℕ) → Done (clr_ep_rx_ctr env ep)
  unfolding clr_ep_rx_ctr
  clr_ep_rx_ctr-Done ep = record { run = λ h. returns tt }

  -- A packet of `len` bytes out of an array that holds them, rounded up to half words.
  pub ep_write_packet-Done :
      (addr : ℕ) (buf : List ℕ) (len : ℕ)
      → len < 2 ^ 15
      → 2 * ((len + 1) / 2) ≤ length buf
      → Done (ep_write_packet env addr buf len)
  unfolding ep_write_packet copy_to_pm
  ep_write_packet-Done addr buf len small fits =
      let ep = bit_and addr 0x7F in
      Gives-bind (load-Gives env word (ep_reg ep)) λ v _.
        Gives-if (bit_and v tx_stat == tx_valid) (Gives-pure 0 tt) (
          Gives-bind (buff-Done ep).0 λ pm _.
            Gives-bind (put_halves-Done (u16 (len + 1) / 2) pm buf (omega arith)) λ _ _.
              Gives-bind (set_ep_tx_count-Done ep len)
                λ _ _. Gives-bind (set_ep_tx_stat-Done ep tx_valid) λ _ _. Gives-pure len tt)

  module _ (t : PacketTable env) where
    -- The count is read twice, and is the same.
    min_rx_count-le : (len : ℕ) → len < 2 ^ 16 → Gives (λ n. n ≤ len) (min_rx_count env 0 len)
    unfolding min_rx_count get_ep_rx_count
    min_rx_count-le len small = record {
      run = λ h.
          let c =
            bit_and (u16 (env (read word usb_btable ∷ h) word rx_count % modulus word)) 0x3FF in
          let first = read word rx_count ∷ read word usb_btable ∷ h in
          rw (t.base h) (
            Returns-if (ltb c len) _ _ _
              (λ lt.
                rw (t.base first, t.count (read word usb_btable ∷ h))
                  (returns (omega (arith, ltb→lt c len lt))))
              (λ _. returns (omega arith)));
    }

    -- At most the packet that was asked for.
    pub ep_read_packet-length :
        (force_nak : List Bool) (len : ℕ)
        → len < 2 ^ 16
        → Gives (λ bytes. length bytes ≤ len) (ep_read_packet env force_nak 0 len)
    unfolding ep_read_packet
    ep_read_packet-length force_nak len small = Gives-bind (load-Gives env word (ep_reg 0)) λ v _.
        Gives-if (bit_and v rx_stat == rx_valid) (Gives-pure [] (omega arith)) (
          Gives-bind (min_rx_count-le len small) λ n le. Gives-bind (buff-Done 0).1 λ pm _.
            Gives-bind (copy_from_pm-length env pm n) λ bytes e.
              Gives-bind (clr_ep_rx_ctr-Done 0) λ _ _.
                Gives-bind
                  (Gives-if (get_or false force_nak 0) (Gives-pure tt tt)
                    (set_ep_rx_stat-Done 0 rx_valid))
                  λ _ _. Gives-pure bytes (omega (arith, e, le)))

  pub ep_stall_set-Done : (addr : ℕ) (stall : Bool) → Done (ep_stall_set env addr stall)
  unfolding ep_stall_set
  ep_stall_set-Done addr stall =
      Gives-bind
        (Gives-if (addr == 0) (set_ep_tx_stat-Done addr (if stall then tx_stall else tx_nak))
          (Gives-pure tt tt))
        λ _ _.
          Gives-if (not (bit_and addr 0x80 == 0))
            (Gives-bind
              (set_ep_tx_stat-Done (bit_and addr 0x7F) (if stall then tx_stall else tx_nak))
              λ _ _. Gives-if stall (Gives-pure tt tt) (clr_dtog-Done (bit_and addr 0x7F)).0)
            (Gives-bind (Gives-if stall (Gives-pure tt tt) (clr_dtog-Done addr).1)
              λ _ _. set_ep_rx_stat-Done addr (if stall then rx_stall else rx_valid))
