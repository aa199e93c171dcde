-- ===== src/Usb/Toggles.antt =====
-- The endpoint registers of the USB unit, against the unit's rule for what a write to one does.
use swindle_bootloader_gd.Common.{
  ℕ, ◌+◌, ◌*◌, ◌/◌, ◌%◌, ◌^◌, ◌<◌, ◌≡◌, refl, sym, ap, ◌∙◌, Bool, true, bit_and, bit_or, bit_xor,
  ◌∷◌, ◌==◌, ==→eq, all_below, below-holds, arith, u16, M, Returns, returns,
}
use swindle_bootloader_gd.Bus.{modulus, word, read, write, Log, Env}
use swindle_bootloader_gd.Usb.Registers.{
  ep_reg, rx_stat_value, tx_stat_value, clr_rx_ctr_value, clr_tx_ctr_value, set_ep_rx_stat,
  set_ep_tx_stat, clr_ep_rx_ctr, clr_ep_tx_ctr, clr_ep_tx_dtog, clr_ep_rx_dtog, set_ep_type,
  set_ep_addr,
}

-- What an endpoint register that holds `v` holds after a write of `w`: the two status fields and
-- the two data toggles change where `w` has a one, the two flags of a finished transfer stay where
-- it has a one, the type, the kind and the address are written, and the SETUP flag is read only.
abbrev pub stored : ℕ → ℕ → ℕ
stored v w =
    bit_and (bit_xor v w) 0x7070
    + bit_and (bit_and v w) 0x8080
    + bit_and w 0x070F
    + bit_and v 0x0800

-- A value as `SET_REG` writes it.
abbrev sent : ℕ → ℕ
sent w = u16 w % modulus word

-- A test of all words of 16 bits and all parameters below `k`.
abbrev all_words : ℕ → (ℕ → ℕ → Bool) → Bool
all_words k p = all_below 256 (λ a. all_below 256 (λ b. all_below k (p (256 * a + b))))

words-hold :
    (k : ℕ) (p : ℕ → ℕ → Bool) (v i : ℕ) → all_words k p ≡ true → v < 2 ^ 16 → i < k → p v i ≡ true
words-hold k p v i all small low =
    let whole : 256 * (v / 256) + v % 256 ≡ v = omega arith in
    ap (λ n. p n i) (sym whole)
    ∙ below-holds k i (p (256 * (v / 256) + v % 256)) low (
        below-holds 256 (v % 256) (λ b. all_below k (p (256 * (v / 256) + b))) (omega arith)
          (below-holds 256 (v / 256) (λ a. all_below 256 (λ b. all_below k (p (256 * a + b))))
            (omega arith) all))

abbrev rx_stat_law : ℕ → ℕ → Bool
unfolding rx_stat_value
rx_stat_law v i = stored v (sent (rx_stat_value v (i * 0x1000))) == bit_and v 0xCFFF + i * 0x1000

rx_stat_test : all_words 4 rx_stat_law ≡ true
unfolding rx_stat_value
rx_stat_test = refl

abbrev tx_stat_law : ℕ → ℕ → Bool
unfolding tx_stat_value
tx_stat_law v i = stored v (sent (tx_stat_value v (i * 0x10))) == bit_and v 0xFFCF + i * 0x10

tx_stat_test : all_words 4 tx_stat_law ≡ true
unfolding tx_stat_value
tx_stat_test = refl

abbrev clr_rx_ctr_law : ℕ → ℕ → Bool
unfolding clr_rx_ctr_value
clr_rx_ctr_law v _ = stored v (sent (clr_rx_ctr_value v)) == bit_and v 0x7FFF

clr_rx_ctr_test : all_words 1 clr_rx_ctr_law ≡ true
unfolding clr_rx_ctr_value
clr_rx_ctr_test = refl

abbrev clr_tx_ctr_law : ℕ → ℕ → Bool
unfolding clr_tx_ctr_value
clr_tx_ctr_law v _ = stored v (sent (clr_tx_ctr_value v)) == bit_and v 0xFF7F

clr_tx_ctr_test : all_words 1 clr_tx_ctr_law ≡ true
unfolding clr_tx_ctr_value
clr_tx_ctr_test = refl

abbrev clr_tx_dtog_law : ℕ → ℕ → Bool
clr_tx_dtog_law v _ = stored v (sent (bit_and v 0x8FCF)) == bit_and v 0xFFBF

clr_tx_dtog_test : all_words 1 clr_tx_dtog_law ≡ true
clr_tx_dtog_test = refl

abbrev clr_rx_dtog_law : ℕ → ℕ → Bool
clr_rx_dtog_law v _ = stored v (sent (bit_and v 0xCF8F)) == bit_and v 0xBFFF

clr_rx_dtog_test : all_words 1 clr_rx_dtog_law ≡ true
clr_rx_dtog_test = refl

abbrev type_law : ℕ → ℕ → Bool
type_law v i =
    stored v (sent (bit_or (bit_and v 0x898F) (i * 0x200))) == bit_and v 0xF9FF + i * 0x200

type_test : all_words 4 type_law ≡ true
type_test = refl

abbrev addr_law : ℕ → ℕ → Bool
addr_law v i = stored v (sent (bit_or (bit_and v 0x8F80) i)) == bit_and v 0xFFF0 + i

addr_test : all_words 8 addr_law ≡ true
addr_test = refl

-- The command reads the register and writes it once, and where it read `v` it leaves `new v`.
abbrev pub Updates : Env → ℕ → M Log (Unit {0}) → (ℕ → ℕ) → Type 0
Updates env ep m new =
    (h : Log)
    → let v = u16 (env h word (ep_reg ep) % modulus word) in
      Returns
        (λ _ t.
          (w : ℕ) × (t ≡ write word (ep_reg ep) w ∷ read word (ep_reg ep) ∷ h)
          × (stored v w ≡ new v))
        (m h)

word_small : (n : ℕ) → u16 (n % modulus word) < 2 ^ 16
word_small n = omega arith

-- Each macro on an endpoint register changes the field that it names and no other: the receive or
-- the transmit status becomes the one that is asked for, a flag of a finished transfer or a data
-- toggle is cleared, the type or the address is set, and the rest of the register, toggles that a
-- written one would flip and flags that a written zero would clear included, stays as it was read.
-- This holds of every value of the register, by the unit's rule for what a write does.
pub ep_registers-Updates :
    (env : Env) (ep i : ℕ)
    → i < 4
    → ep < 8
    → Updates env ep (set_ep_rx_stat env ep (i * 0x1000)) (λ v. bit_and v 0xCFFF + i * 0x1000)
      × Updates env ep (set_ep_tx_stat env ep (i * 0x10)) (λ v. bit_and v 0xFFCF + i * 0x10)
      × Updates env ep (clr_ep_rx_ctr env ep) (λ v. bit_and v 0x7FFF)
      × Updates env ep (clr_ep_tx_ctr env ep) (λ v. bit_and v 0xFF7F)
      × Updates env ep (clr_ep_tx_dtog env ep) (λ v. bit_and v 0xFFBF)
      × Updates env ep (clr_ep_rx_dtog env ep) (λ v. bit_and v 0xBFFF)
      × Updates env ep (set_ep_type env ep (i * 0x200)) (λ v. bit_and v 0xF9FF + i * 0x200)
      × Updates env ep (set_ep_addr env ep ep) (λ v. bit_and v 0xFFF0 + ep)
unfolding set_ep_rx_stat set_ep_tx_stat clr_ep_rx_ctr clr_ep_tx_ctr clr_ep_tx_dtog clr_ep_rx_dtog
    set_ep_type set_ep_addr
ep_registers-Updates env ep i low unit =
    let small = λ (h : Log). word_small (env h word (ep_reg ep)) in
    (
      λ h. returns (_, refl, ==→eq _ _ (words-hold 4 rx_stat_law _ i rx_stat_test (small h) low)),
      λ h. returns (_, refl, ==→eq _ _ (words-hold 4 tx_stat_law _ i tx_stat_test (small h) low)),
      λ h. returns (
        _,
        refl,
        ==→eq _ _ (words-hold 1 clr_rx_ctr_law _ 0 clr_rx_ctr_test (small h) (omega arith)),
      ),
      λ h. returns (
        _,
        refl,
        ==→eq _ _ (words-hold 1 clr_tx_ctr_law _ 0 clr_tx_ctr_test (small h) (omega arith)),
      ),
      λ h. returns (
        _,
        refl,
        ==→eq _ _ (words-hold 1 clr_tx_dtog_law _ 0 clr_tx_dtog_test (small h) (omega arith)),
      ),
      λ h. returns (
        _,
        refl,
        ==→eq _ _ (words-hold 1 clr_rx_dtog_law _ 0 clr_rx_dtog_test (small h) (omega arith)),
      ),
      λ h. returns (_, refl, ==→eq _ _ (words-hold 4 type_law _ i type_test (small h) low)),
      λ h. returns (_, refl, ==→eq _ _ (words-hold 8 addr_law _ ep addr_test (small h) unit)),
    )
