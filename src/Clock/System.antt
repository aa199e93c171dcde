-- ===== src/Clock/System.antt =====
-- `lnInitSystemClock` as a whole.
use swindle_bootloader_gd.Common.{
  ℕ, zero, suc, ◌-◌, ◌*◌, ◌/◌, ◌%◌, ◌^◌, ◌<◌, ◌≡◌, refl, ap, subst, ◌∙◌, Bool, true, false, not,
  inl, inr, Option, none, some, ◌∷◌, ◌==◌, if◌then◌else◌, Bool-cases, arith, bit_and, digit,
  digit-and, M, pure, ◌>>=◌, ◌>>◌, get_elem?, get_or, Returns, returns, Returns-bind, Returns-both,
  Returns_mono, Gives-pure, Gives-if,
}
use swindle_bootloader_gd.Bus.{Done, word, read, write, modulus, Log, Env, load, store}
use swindle_bootloader_gd.Board.{CpuId, identify, or_into}
use swindle_bootloader_gd.Clock.{
  rcu_ctl, rcu_cfg0, rcu_cfg1, Clocks, on_log, multipliers, pll_config, wait_set, wait_clear,
  enable_disable_clock, set_pll, switch_to_pll, reset_clocks, init_system_clock,
}
use swindle_bootloader_gd.Clock.Waits.{
  Rises, Seen, digit-set, reads, shows, latest, wait-Seen, Extends, same, access, Extends-trans,
}
use swindle_bootloader_gd.Clock.Pll.{found}
use swindle_bootloader_gd.Clock.Prescalers.{switch_to_pll-prescaled}

-- The word last written to the clock's selection chooses the internal oscillator.
abbrev IsInternal : Log → Type 0
IsInternal h = (v : ℕ) × (latest rcu_cfg0 h ≡ some v) × (v % 4 ≡ 0)

-- The selection follows: from every point of a run where the internal oscillator is chosen, some read
-- among the next `fuel` shows that no other clock is in use.
abbrev pub Follows : Env → ℕ → Type 0
Follows env fuel =
    (h : Log)
    → IsInternal h
    → (k : ℕ) × (k < fuel) × (shows env rcu_cfg0 12 (reads rcu_cfg0 k h) ≡ true)

wait_clear-Returns :
    (env : Env) (r mask fuel k : ℕ) (h : Log)
    → k < fuel
    → shows env r mask (reads r k h) ≡ true
    → Returns (λ _ _. Unit {0}) (wait_clear env fuel r mask h)
unfolding wait_clear
wait_clear-Returns env r mask zero k h lt e = absurd (omega arith)
wait_clear-Returns env r mask (suc fuel) zero h lt e = rw e (returns tt)
wait_clear-Returns env r mask (suc fuel) (suc k) h lt e = elim (Bool-cases (shows env r mask h)) [
  | inl now ↦ rw now (returns tt)
  | inr not_yet ↦
      rw not_yet (wait_clear-Returns env r mask fuel k (read word r ∷ h) (omega arith) e)
]

-- The low digits of a word whose mask has none.
no_choice : (v : ℕ) → bit_and v (0xffff_ffff - 3) % modulus word % 4 ≡ 0
no_choice v = omega (arith, digit-and 0 v (0xffff_ffff - 3), digit-and 1 v (0xffff_ffff - 3))

-- A command of the bus leaves the other variables alone.
on_log-Returns :
    {A : Type 0} {P : A → Log → Type 0} (m : M Log A) (s : Clocks)
    → Returns P (m s.log)
    → Returns (λ a t. (t ≡ record s { log = t.log }) × P a t.log) (on_log m s)
on_log-Returns {A} {P} m s r = after (m s.log) r
  where
    after :
        (o : Option (A × Log))
        → Returns P o
        → Returns
            (λ a t. (t ≡ record s { log = t.log }) × P a t.log)
            (elim o [ none ↦ none | some (a, h) ↦ some (a, record s { log = h }) ])
    after none r = elim r [ ]
    after (some (a, h)) (returns p) = returns (refl, p)

-- What the set-up waits for: the internal oscillator and the PLL start when they are switched on, the
-- clock's selection follows the choice of the internal oscillator, and the crystal starts where it is
-- used.
pub record Oscillates (env : Env) (fuel : ℕ) (internal : Bool) : Type 0 where
  pub irc8_starts : Rises env fuel rcu_ctl 0 2
  pub pll_locks : Rises env fuel rcu_ctl 24 (2 ^ 25)
  pub back : Follows env fuel
  pub xtal_starts : internal ≡ false → Rises env fuel rcu_ctl 16 (2 ^ 17)

module _ (env : Env) (fuel : ℕ) where
  -- A clock is switched on, and waited for.
  started-Seen :
      (n : ℕ) (bits mask : ℕ) (h : Log)
      → bits < 2 ^ 32
      → digit n bits ≡ 1
      → Rises env fuel rcu_ctl n mask
      → Returns
          (λ _ t. (before : Log) × Seen env rcu_ctl mask before t)
          ((do or_into env rcu_ctl bits; wait_set env fuel rcu_ctl mask) h)
  unfolding latest
  started-Seen n bits mask h small e rises =
      Returns_mono
        (wait-Seen env fuel rcu_ctl mask _ n rises
          (_, refl, digit-set n (env h word rcu_ctl % modulus word) bits (omega arith) small e))
        λ _ t s. (_, s)

  identify-Done : (cpu : CpuId) → Done (identify env cpu)
  unfolding identify
  identify-Done cpu =
      Gives-if (not (cpu.flash_size == 0)) (Gives-pure cpu tt) (record { run = λ h. returns tt })

  reset_clocks-Done : Rises env fuel rcu_ctl 0 2 → Follows env fuel → Done (reset_clocks env fuel)
  unfolding reset_clocks enable_disable_clock latest
  reset_clocks-Done starts back = record {
    run = λ h. Returns-bind (started-Seen 0 1 2 h (omega arith) refl starts) λ _ t _.
        let v = env t word rcu_cfg0 % modulus word in
        let (k, lt, e) =
          back
            (write word rcu_cfg0 (bit_and v (0xffff_ffff - 3) % modulus word)
              ∷ read word rcu_cfg0
              ∷ t)
            (_, refl, no_choice v) in
        Returns-bind (wait_clear-Returns env rcu_cfg0 12 fuel k _ lt e) λ _ u _. returns tt;
  }

  -- The factor of a multiplier within the table.
  factor_of : (n : ℕ) → n < 25 → (f : ℕ) × (get_elem? multipliers n ≡ some f)
  factor_of n l = (get_or 0 multipliers n, found multipliers n l)

  start : ℕ → Bool → M Log (Unit {0})
  start factor external = do
    c0 ← load env word rcu_cfg0
    store word rcu_cfg1 0
    store word rcu_cfg0 (pll_config c0 factor external)
    or_into env rcu_ctl (2 ^ 24)
    wait_set env fuel rcu_ctl (2 ^ 25)

  -- The variables behind `setPll`, and the PLL seen locked by the last access.
  record Locked (clock : ℕ) (t : Clocks) : Type 0 where
    core : t.system_core_clock ≡ clock
    apb1 : t.rcu_clock_apb1 ≡ clock / 2
    apb2 : t.rcu_clock_apb2 ≡ clock
    before : Log
    last : t.log ≡ read word rcu_ctl ∷ before
    locked : shows env rcu_ctl (2 ^ 25) before ≡ false

  set_pll-Locked :
      (input n predivider : ℕ) (external : Bool) (s : Clocks)
      → n < 25
      → Rises env fuel rcu_ctl 24 (2 ^ 25)
      → Returns
          (λ _ t. Locked (input * n * 1000000 / predivider) t)
          (set_pll env fuel input n predivider external s)
  unfolding set_pll start latest
  set_pll-Locked input n predivider external s l rises =
      let (factor, e) = factor_of n l in
      rw e (
        Returns-bind
          (on_log-Returns (start factor external) s (
            wait-Seen env fuel rcu_ctl (2 ^ 25) _ 24 rises
              (_, refl, digit-set 24 _ (2 ^ 24) (omega arith) (omega arith) refl)))
          λ _ t (_, seen). returns (record {
            core = refl;
            apb1 = refl;
            apb2 = refl;
            before = seen.before;
            last = seen.last;
            locked = seen.shown;
          }))

  switch_to_pll-Extends :
      (mhz : ℕ) (is_gd : Bool) (h : Log)
      → Returns
          (λ _ t. Extends h t × (latest rcu_ctl t ≡ latest rcu_ctl h))
          (switch_to_pll env fuel mhz is_gd h)
  unfolding switch_to_pll latest
  switch_to_pll-Extends mhz true h =
      returns (access _ (access _ (access _ (access _ (access _ (access _ same))))), refl)
  switch_to_pll-Extends mhz false h =
      returns
        (access _ (access _ (access _ (access _ (access _ (access _ (access _ same)))))), refl)

  -- The clock runs from the PLL, which was seen locked and has not been touched since.
  pub record Ready (clock : ℕ) (t : Clocks) : Type 0 where
    pub core : t.system_core_clock ≡ clock
    pub apb1 : t.rcu_clock_apb1 ≡ clock / 2
    pub apb2 : t.rcu_clock_apb2 ≡ clock
    pub seen : Log
    pub locked : shows env rcu_ctl (2 ^ 25) seen ≡ false
    pub later : Extends seen t.log
    pub untouched : latest rcu_ctl t.log ≡ latest rcu_ctl seen
    pub choice : ℕ
    pub last : latest rcu_cfg0 t.log ≡ some choice
    pub pll_chosen : choice % 4 ≡ 2

  latest-read : (h : Log) → latest rcu_ctl (read word rcu_ctl ∷ h) ≡ latest rcu_ctl h
  unfolding latest
  latest-read h = refl

  switched :
      (clock mhz : ℕ) (is_gd : Bool) (s : Clocks)
      → Locked clock s
      → Returns (λ _ t. Ready clock t) (on_log (switch_to_pll env fuel mhz is_gd) s)
  switched clock mhz is_gd s l =
      Returns_mono
        (on_log-Returns (switch_to_pll env fuel mhz is_gd) s (
          Returns-both (switch_to_pll env fuel mhz is_gd s.log)
            (switch_to_pll-prescaled env fuel mhz is_gd s.log)
            (switch_to_pll-Extends mhz is_gd s.log)))
        λ _ t (e, ((new, last, digits, _), (later, kept))). record {
          core = ap (λ (u : Clocks). u.system_core_clock) e ∙ l.core;
          apb1 = ap (λ (u : Clocks). u.rcu_clock_apb1) e ∙ l.apb1;
          apb2 = ap (λ (u : Clocks). u.rcu_clock_apb2) e ∙ l.apb2;
          seen = l.before;
          locked = l.locked;
          later =
              Extends-trans (access (read word rcu_ctl) same)
                (subst (λ h. Extends h t.log) l.last later);
          untouched = kept ∙ read_keeps l.before l.last;
          choice = new;
          last = last;
          pll_chosen =
              let low = digits 0 (omega arith) in let high = digits 1 (omega arith) in omega arith;
        }
    where
      read_keeps :
          (h : Log) → s.log ≡ read word rcu_ctl ∷ h → latest rcu_ctl s.log ≡ latest rcu_ctl h
      read_keeps h e = ap (latest rcu_ctl) e ∙ latest-read h

  -- The last variable that is set says nothing of the clocks.
  settled :
      {c d : ℕ} (jtag : ℕ) (t : Clocks) → c ≡ d → Ready c t → Ready d (record t { jtag_id = jtag })
  settled jtag t e r = record {
    core = r.core ∙ e;
    apb1 = r.apb1 ∙ ap (λ k. k / 2) e;
    apb2 = r.apb2 ∙ e;
    seen = r.seen;
    locked = r.locked;
    later = r.later;
    untouched = r.untouched;
    choice = r.choice;
    last = r.last;
    pll_chosen = r.pll_chosen;
  }

  crystal-Returns :
      (internal : Bool) (s : Clocks)
      → (internal ≡ false → Rises env fuel rcu_ctl 16 (2 ^ 17))
      → Returns
          (λ _ _. Unit {0})
          ((if internal
              then pure tt
              else on_log (do or_into env rcu_ctl (2 ^ 16); wait_set env fuel rcu_ctl (2 ^ 17)))
            s)
  crystal-Returns true s starts = returns tt
  crystal-Returns false s starts =
      Returns_mono
        (on_log-Returns (do or_into env rcu_ctl (2 ^ 16); wait_set env fuel rcu_ctl (2 ^ 17)) s
          (started-Seen 16 (2 ^ 16) (2 ^ 17) s.log (omega arith) refl (starts refl)))
        λ _ _ _. tt

by_one : (c : ℕ) → c / 1 ≡ c
by_one c = omega arith

abbrev pub input_clock : Bool → ℕ
input_clock internal = if internal then 4 else 8

-- The set-up of the system clock comes back, for a speed of less than 25 times the input clock, if
-- each oscillator that it waits for and the PLL are seen ready within `fuel` reads once they are
-- switched on, and the status of the clock's selection is seen to fall once the code chooses the
-- internal oscillator. `SystemCoreClock` is then the multiple of the input clock that the division
-- gives, the second bus has it whole and the first has half of it, and the processor runs from the
-- PLL, which was seen locked before the switch and whose register was not written since.
pub init_system_clock-Ready :
    (env : Env) (fuel : ℕ) (internal : Bool) (mhz : ℕ) (cpu : CpuId) (s : Clocks)
    → Oscillates env fuel internal
    → mhz / input_clock internal < 25
    → Returns
        (λ _ t. Ready env fuel (input_clock internal * (mhz / input_clock internal) * 1000000) t)
        (init_system_clock env fuel internal mhz cpu s)
unfolding init_system_clock
init_system_clock-Ready env fuel internal mhz cpu s o small =
    let n = mhz / input_clock internal in
    Returns-bind (on_log-Returns (identify env cpu) s ((identify-Done env fuel cpu).run s.log))
      λ id t _.
        Returns-bind
          (on_log-Returns (reset_clocks env fuel) t
            ((reset_clocks-Done env fuel o.irc8_starts o.back).run t.log))
          λ _ u _. Returns-bind (crystal-Returns env fuel internal u o.xtal_starts) λ _ v _.
            Returns-bind
              (set_pll-Locked env fuel (input_clock internal) n 1 (not internal) v small
                o.pll_locks)
              λ _ w l.
                Returns-bind
                  (switched env fuel (input_clock internal * n * 1000000 / 1) mhz id.gd w l)
                  λ jtag x r.
                    returns
                      (settled env fuel jtag x (by_one (input_clock internal * n * 1000000)) r)
