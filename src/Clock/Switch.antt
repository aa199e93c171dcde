-- ===== src/Clock/Switch.antt =====
-- The two clock set-ups of clocking.h: they come back, and the processor's clock is switched to the
-- PLL only once that is locked and the flash has its wait states.
use swindle_bootloader_gd.Common.{
  ℕ, ◌-◌, ◌%◌, ◌^◌, ◌≡◌, refl, ap, sym, ◌∙◌, bit_and, bit_or, false, some, ◌∷◌, arith, Returns,
  returns, Returns_mono, Returns-bind, digit-masked,
}
use swindle_bootloader_gd.Bus.{word, read, write, Log, Env, modulus}
use swindle_bootloader_gd.Clock.{
  rcu_ctl, rcu_cfg0, rcu_addctl, flash_acr, set_prescalers, set_latency, start_pll, select_pll,
  clock_setup_in_hsi_48mhz, clock_setup_in_hse_8mhz_out_72mhz,
}
use swindle_bootloader_gd.Clock.Waits.{
  Rises, digit-set, shows, latest, wait-Seen, Extends, same, access, Extends-trans,
}

-- The run has just switched the clock to the PLL: the PLL was seen locked right before, and the last
-- word written to the flash's register asks for two wait states.
pub record Switched (env : Env) (t : Log) : Type 0 where
  pub before : Log
  pub choice : ℕ
  pub latency : ℕ
  pub last : t ≡ write word rcu_cfg0 choice ∷ read word rcu_cfg0 ∷ read word rcu_ctl ∷ before
  pub pll_chosen : choice % 4 ≡ 2
  pub locked : shows env rcu_ctl (2 ^ 25) before ≡ false
  pub slowed : latest flash_acr before ≡ some latency
  pub two_states : latency % 8 ≡ 2

low_two : (v : ℕ) → bit_or (bit_and v (0xffff_ffff - 3)) 2 % modulus word % 4 ≡ 2
low_two v =
    let first = (digit-masked 0 v (0xffff_ffff - 3) 2).1 refl in
    let second = (digit-masked 1 v (0xffff_ffff - 3) 2).1 refl in omega arith

low_three : (v : ℕ) → bit_or (bit_and v (0xffff_ffff - 7)) 2 % modulus word % 8 ≡ 2
low_three v =
    let first = (digit-masked 0 v (0xffff_ffff - 7) 2).1 refl in
    let second = (digit-masked 1 v (0xffff_ffff - 7) 2).1 refl in
    let third = (digit-masked 2 v (0xffff_ffff - 7) 2).1 refl in omega arith

-- The PLL was seen locked, and the flash's register was not written since `h`.
record Locked (env : Env) (h t : Log) : Type 0 where
  before : Log
  last : t ≡ read word rcu_ctl ∷ before
  shown : shows env rcu_ctl (2 ^ 25) before ≡ false
  kept : latest flash_acr before ≡ latest flash_acr h

module _ (env : Env) (fuel : ℕ) (locks : Rises env fuel rcu_ctl 24 (2 ^ 25)) where
  start_pll-Locked : (h : Log) → Returns (λ _ t. Locked env h t) (start_pll env fuel h)
  unfolding start_pll latest
  start_pll-Locked h =
      let on : Log =
        write word rcu_ctl (bit_or (env h word rcu_ctl % modulus word) (2 ^ 24) % modulus word)
        ∷ read word rcu_ctl
        ∷ h in
      Returns_mono
        (wait-Seen env fuel rcu_ctl (2 ^ 25) on 24 locks (
          _,
          refl,
          digit-set 24 (env h word rcu_ctl % modulus word) (2 ^ 24) (omega arith) (omega arith)
              refl,
        ))
        λ _ t s. record {
          before = s.before;
          last = s.last;
          shown = s.shown;
          kept = sym (ap (latest flash_acr) s.last) ∙ s.unwritten flash_acr;
        }

  abbrev slow : Log → Log
  slow h =
      write word flash_acr
        (bit_or (bit_and (env h word flash_acr % modulus word) (0xffff_ffff - 7)) 2 % modulus word)
      ∷ read word flash_acr
      ∷ h

  abbrev choice : Log → ℕ
  choice t =
      bit_or (bit_and (env t word rcu_cfg0 % modulus word) (0xffff_ffff - 3)) 2 % modulus word

  Locked-Switched :
      (h t : Log)
      → Locked env (slow h) t
      → Switched env (write word rcu_cfg0 (choice t) ∷ read word rcu_cfg0 ∷ t)
  unfolding latest
  Locked-Switched h t s = record {
    before = s.before;
    choice = choice t;
    latency =
        bit_or (bit_and (env h word flash_acr % modulus word) (0xffff_ffff - 7)) 2 % modulus word;
    last = ap (λ u. write word rcu_cfg0 (choice t) ∷ read word rcu_cfg0 ∷ u) s.last;
    pll_chosen = low_two (env t word rcu_cfg0 % modulus word);
    locked = s.shown;
    slowed = s.kept;
    two_states = low_three (env h word flash_acr % modulus word);
  }

-- Behind the switch, USB got the 48 MHz oscillator once that was seen stable.
pub record Selected48 (env : Env) (t : Log) : Type 0 where
  pub before : Log
  pub choice : ℕ
  pub last : t ≡ write word rcu_addctl choice ∷ read word rcu_addctl ∷ read word rcu_addctl ∷ before
  pub stable : shows env rcu_addctl (2 ^ 17) before ≡ false

-- The set-up for an 8 MHz crystal comes back if the crystal and the PLL start, and has then switched
-- the processor's clock to the PLL, after it was seen locked and after the flash got the two wait
-- states that the clock needs.
pub clock_setup_in_hse-Switched :
    (env : Env) (fuel : ℕ) (h : Log)
    → Rises env fuel rcu_ctl 16 (2 ^ 17)
    → Rises env fuel rcu_ctl 24 (2 ^ 25)
    → Returns (λ _ t. Switched env t) (clock_setup_in_hse_8mhz_out_72mhz env fuel h)
unfolding clock_setup_in_hse_8mhz_out_72mhz latest set_prescalers set_latency select_pll
clock_setup_in_hse-Switched env fuel h starts locks =
    Returns-bind
      (wait-Seen env fuel rcu_ctl (2 ^ 17) _ 16 starts (
        _,
        refl,
        digit-set 16 (env h word rcu_ctl % modulus word) (2 ^ 16) (omega arith) (omega arith) refl,
      ))
      λ _ t s.
        Returns-bind (start_pll-Locked env fuel locks _)
          λ _ u l. returns (Locked-Switched env fuel locks _ u l)

-- The set-up for the internal oscillator comes back if the PLL and the 48 MHz oscillator start. Some
-- part of its run ends with the switch to the PLL, locked and with the two wait states, and the whole
-- run with the choice of the 48 MHz oscillator for USB, after that was seen stable.
pub clock_setup_in_hsi-Switched :
    (env : Env) (fuel : ℕ) (h : Log)
    → Rises env fuel rcu_ctl 24 (2 ^ 25)
    → Rises env fuel rcu_addctl 16 (2 ^ 17)
    → Returns
        (λ _ t. (start : Log) × Switched env start × Extends start t × Selected48 env t)
        (clock_setup_in_hsi_48mhz env fuel h)
unfolding clock_setup_in_hsi_48mhz latest set_prescalers set_latency select_pll
clock_setup_in_hsi-Switched env fuel h locks stable =
    Returns-bind (start_pll-Locked env fuel locks _) λ _ u l.
      Returns-bind
        (wait-Seen env fuel rcu_addctl (2 ^ 17) _ 16 stable
          (_, refl, digit-set 16 _ (2 ^ 16) (omega arith) (omega arith) refl))
        λ _ t s.
          let chosen = bit_or (env t word rcu_addctl % modulus word) 1 % modulus word in
          returns (
            _,
            Locked-Switched env fuel locks _ u l,
            access _ (access _ (Extends-trans (access _ (access _ same)) s.extends)),
            record {
              before = s.before;
              choice = chosen;
              last = ap (λ v. write word rcu_addctl chosen ∷ read word rcu_addctl ∷ v) s.last;
              stable = s.shown;
            },
          )
