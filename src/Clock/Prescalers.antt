-- ===== src/Clock/Prescalers.antt =====
-- The last part of `lnInitSystemClock`: the prescalers, the wait states and the choice of the clock.
use swindle_bootloader_gd.Common.{
  ℕ, ◌+◌, ◌-◌, ◌*◌, ◌%◌, ◌^◌, ◌<◌, ◌≡◌, refl, ap, ◌∙◌, bit_and, bit_or, Bool, true, false, ◌&&◌,
  some, ltb, leb, ◌==◌, ◌||◌, if◌then◌else◌, arith, Returns, returns, digit, digit-and, digit-or,
  digit-small, all_below, below-holds, bit_or-small, bit_and-small,
}
use swindle_bootloader_gd.Bus.{word, Log, Env, modulus}
use swindle_bootloader_gd.Clock.{rcu_cfg0, flash_acr, wait_states, switch_to_pll}
use swindle_bootloader_gd.Clock.Waits.{latest}

-- The digits of the register: the PLL as the clock, the bus prescalers 1, 2 and 1, and the rest as
-- it was.
abbrev pub prescaled : ℕ → ℕ → ℕ
prescaled v n =
    if n == 1 || n == 10
    then 1
    else if n == 0 || (leb 4 n && leb n 9) || n == 11 || n == 12
    then 0
    else digit n v

abbrev cleared : ℕ → ℕ
cleared v = bit_and (bit_and v (0xffff_ffff - 15 * 2 ^ 4)) (0xffff_ffff - 3 * 2 ^ 11)

abbrev halved : ℕ → ℕ
halved v = bit_or (bit_and (cleared v) (0xffff_ffff - 7 * 2 ^ 8)) (4 * 2 ^ 8)

abbrev chosen : ℕ → ℕ
chosen v = bit_or (bit_and (halved v) (0xffff_ffff - 3)) 2

abbrev is_digit : ℕ → ℕ → Bool → Bool
is_digit n m one = digit n m == (if one then 1 else 0)

masked :
    (n a m : ℕ) (keep : Bool)
    → is_digit n m keep ≡ true
    → digit n (bit_and a m) ≡ (if keep then digit n a else 0)
masked n a m keep law = let both = digit-and n a m in let small = digit-small n a in ground arith

raised :
    (n a m : ℕ) (up : Bool)
    → is_digit n m up ≡ true
    → digit n (bit_or a m) ≡ (if up then 1 else digit n a)
raised n a m up law = let both = digit-or n a m in let small = digit-small n a in ground arith

-- The digits of the masks, for every place.
mask_law :
    (n m : ℕ) (one : ℕ → Bool)
    → n < 32
    → all_below 32 (λ i. is_digit i m (one i)) ≡ true
    → is_digit n m (one n) ≡ true
mask_law n m one l test = below-holds 32 n (λ i. is_digit i m (one i)) l test

module _ (v n : ℕ) (l : n < 32) where
  cleared-digit :
      digit n (cleared v)
      ≡ (if (ltb n 11 || ltb 12 n) then (if (ltb n 4 || ltb 7 n) then digit n v else 0) else 0)
  cleared-digit =
      masked n (bit_and v (0xffff_ffff - 15 * 2 ^ 4)) (0xffff_ffff - 3 * 2 ^ 11)
        (ltb n 11 || ltb 12 n)
        (mask_law n (0xffff_ffff - 3 * 2 ^ 11) (λ i. ltb i 11 || ltb 12 i) l refl)
      ∙ ap (λ d. if (ltb n 11 || ltb 12 n) then d else 0)
          (masked n v (0xffff_ffff - 15 * 2 ^ 4) (ltb n 4 || ltb 7 n)
            (mask_law n (0xffff_ffff - 15 * 2 ^ 4) (λ i. ltb i 4 || ltb 7 i) l refl))

  halved-digit :
      digit n (halved v)
      ≡ (if n == 10 then 1 else if (ltb n 8 || ltb 10 n) then digit n (cleared v) else 0)
  halved-digit =
      raised n (bit_and (cleared v) (0xffff_ffff - 7 * 2 ^ 8)) (4 * 2 ^ 8) (n == 10)
        (mask_law n (4 * 2 ^ 8) (λ i. i == 10) l refl)
      ∙ ap (λ d. if n == 10 then 1 else d)
          (masked n (cleared v) (0xffff_ffff - 7 * 2 ^ 8) (ltb n 8 || ltb 10 n)
            (mask_law n (0xffff_ffff - 7 * 2 ^ 8) (λ i. ltb i 8 || ltb 10 i) l refl))

  chosen-halved :
      digit n (chosen v) ≡ (if n == 1 then 1 else if ltb 1 n then digit n (halved v) else 0)
  chosen-halved =
      raised n (bit_and (halved v) (0xffff_ffff - 3)) 2 (n == 1) (mask_law n 2 (λ i. i == 1) l refl)
      ∙ ap (λ d. if n == 1 then 1 else d)
          (masked n (halved v) (0xffff_ffff - 3) (ltb 1 n)
            (mask_law n (0xffff_ffff - 3) (λ i. ltb 1 i) l refl))

  pick :
      (d c k o : ℕ)
      → c ≡ (if (ltb n 11 || ltb 12 n) then (if (ltb n 4 || ltb 7 n) then d else 0) else 0)
      → k ≡ (if n == 10 then 1 else if (ltb n 8 || ltb 10 n) then c else 0)
      → o ≡ (if n == 1 then 1 else if ltb 1 n then k else 0)
      → o ≡ (
          if n == 1 || n == 10
          then 1
          else if n == 0 || (leb 4 n && leb n 9) || n == 11 || n == 12
          then 0
          else d)
  pick d c k o first second third = ground arith

  chosen-digit : digit n (chosen v) ≡ prescaled v n
  chosen-digit =
      pick (digit n v) (digit n (cleared v)) (digit n (halved v)) (digit n (chosen v)) cleared-digit
        halved-digit chosen-halved

chosen-stored : (v : ℕ) → v < 2 ^ 32 → chosen v % 2 ^ 32 ≡ chosen v
chosen-stored v small =
    let a = bit_and-small 32 v (0xffff_ffff - 15 * 2 ^ 4) small in
    let b = bit_and-small 32 (bit_and v (0xffff_ffff - 15 * 2 ^ 4)) (0xffff_ffff - 3 * 2 ^ 11) a in
    let c = bit_and-small 32 (cleared v) (0xffff_ffff - 7 * 2 ^ 8) b in
    let d =
      bit_or-small 32 (bit_and (cleared v) (0xffff_ffff - 7 * 2 ^ 8)) (4 * 2 ^ 8) c (omega arith) in
    let e = bit_and-small 32 (halved v) (0xffff_ffff - 3) d in
    let f = bit_or-small 32 (bit_and (halved v) (0xffff_ffff - 3)) 2 e (omega arith) in omega arith

wait_states-small : (mhz : ℕ) → (0x30 + wait_states mhz) % 2 ^ 32 ≡ 0x30 + wait_states mhz
wait_states-small mhz = ground arith

-- The switch to the PLL comes back. The clock's register then selects the PLL, with the processor's
-- clock for the second bus and half of it for the first, and is otherwise as it was read; the
-- flash's register has the wait states for the speed, but is left alone on a GigaDevice chip.
pub switch_to_pll-prescaled :
    (env : Env) (fuel mhz : ℕ) (is_gd : Bool) (h : Log)
    → let v = env h word rcu_cfg0 % modulus word in
      Returns
        (λ _ t.
          (new : ℕ) × (latest rcu_cfg0 t ≡ some new)
          × ((n : ℕ) → n < 32 → digit n new ≡ prescaled v n)
          × (latest flash_acr t
              ≡ (if is_gd then latest flash_acr h else some (0x30 + wait_states mhz))))
        (switch_to_pll env fuel mhz is_gd h)
unfolding switch_to_pll latest
switch_to_pll-prescaled env fuel mhz true h =
    let v = env h word rcu_cfg0 % modulus word in
    returns (_, ap some (chosen-stored v (omega arith)), chosen-digit v, refl)
switch_to_pll-prescaled env fuel mhz false h =
    let v = env h word rcu_cfg0 % modulus word in
    returns
      (_, ap some (chosen-stored v (omega arith)), chosen-digit v, ap some (wait_states-small mhz))
