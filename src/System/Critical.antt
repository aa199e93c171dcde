-- ===== src/System/Critical.antt =====
-- The critical sections of esprit_mini/lowlevel.cpp.
use mathlib.Core.Path.{ap₂}
use mathlib.Core.Option.{some_inj}
use swindle_bootloader_gd.Common.{
  ℕ, zero, suc, ◌+◌, ◌-◌, ◌^◌, ◌<◌, ◌≡◌, refl, ap, ◌∙◌, Bool, true, false, Option, none, some, List,
  [], ◌∷◌, ◌==◌, if◌then◌else◌, arith, u32,
}

-- The static `nesting`, an `int` of 32 bits, and whether the processor takes interrupts.
pub record Cpu : Type 0 where
  pub nesting : ℕ
  pub enabled : Bool

pub data Section : Type 0 where
  enter leave : Section

unfoldable pub enter_critical : Cpu → Cpu
enter_critical c = record { nesting = u32 (c.nesting + 1); enabled = false }

unfoldable pub exit_critical : Cpu → Cpu
exit_critical c =
    let n = u32 (c.nesting + (2 ^ 32 - 1)) in
    record { nesting = n; enabled = if n == 0 then true else c.enabled }

-- `interrupts` and `noInterrupt` of esprit_mini/systemHelper.cpp
abbrev pub interrupts : Cpu → Cpu
interrupts c = exit_critical c

abbrev pub no_interrupt : Cpu → Cpu
no_interrupt c = enter_critical c

unfoldable pub run_sections : List Section → Cpu → Cpu
unfolding enter_critical exit_critical
run_sections [] c = c
run_sections (enter ∷ rest) c = run_sections rest (enter_critical c)
run_sections (leave ∷ rest) c = run_sections rest (exit_critical c)

-- The number of sections that are open behind a sequence; none where one is left that was not
-- entered.
abbrev pub depth : ℕ → List Section → Option ℕ
depth d [] = some d
depth d (enter ∷ rest) = depth (suc d) rest
depth zero (leave ∷ rest) = none
depth (suc d) (leave ∷ rest) = depth d rest

abbrev pub enters : List Section → ℕ
enters [] = 0
enters (enter ∷ rest) = suc (enters rest)
enters (leave ∷ rest) = enters rest

abbrev pub at_depth : ℕ → Cpu
at_depth d = record { nesting = d; enabled = d == 0 }

cpu : ℕ → Bool → Cpu
cpu n b = record { nesting = n; enabled = b }

enter-at_depth : (d : ℕ) → suc d < 2 ^ 32 → enter_critical (at_depth d) ≡ at_depth (suc d)
unfolding enter_critical cpu
enter-at_depth d small =
    let next : u32 (d + 1) ≡ suc d = omega arith in
    let inside : false ≡ (suc d == 0) = ground arith in ap₂ cpu next inside

exit-at_depth : (d : ℕ) → suc d < 2 ^ 32 → exit_critical (at_depth (suc d)) ≡ at_depth d
unfolding exit_critical cpu
exit-at_depth d small =
    let next : u32 (suc d + (2 ^ 32 - 1)) ≡ d = omega arith in
    let inside : (suc d == 0) ≡ false = ground arith in
    ap₂ cpu next (
      ap (λ n. if n == 0 then true else (suc d == 0)) next
      ∙ ap (λ b. if d == 0 then true else b) inside
      ∙ outer (d == 0))
  where
    outer : (b : Bool) → (if b then true else false) ≡ b
    outer true = refl
    outer false = refl

-- After any sequence of sections that leaves none that it did not enter, and nests less than 2^32
-- deep, the interrupts are on exactly if no section is open, and the counter is the number of the
-- open ones.
pub run_sections-depth :
    (acts : List Section) (d e : ℕ)
    → d + enters acts < 2 ^ 32
    → depth d acts ≡ some e
    → run_sections acts (at_depth d) ≡ at_depth e
unfolding run_sections
run_sections-depth [] d e small same = ap at_depth (some_inj.0 same)
run_sections-depth (enter ∷ rest) d e small same =
    ap (run_sections rest) (enter-at_depth d (omega arith))
    ∙ run_sections-depth rest (suc d) e (omega arith) same
run_sections-depth (leave ∷ rest) zero e small same = cc
run_sections-depth (leave ∷ rest) (suc d) e small same =
    ap (run_sections rest) (exit-at_depth d (omega arith))
    ∙ run_sections-depth rest d e (omega arith) same
