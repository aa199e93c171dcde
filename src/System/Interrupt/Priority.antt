-- ===== src/System/Interrupt/Priority.antt =====
-- The priority that an interrupt gets.
use Prim.Native.Nat.{max}
use swindle_bootloader_gd.Common.{
  ℕ, ◌+◌, ◌-◌, ◌*◌, ◌^◌, ◌<◌, ◌≡◌, ◌⊎◌, ap, refl, true, false, some, ltb, ◌∷◌, if◌then◌else◌, arith,
  ◌%◌, Bool, M, pure,
}
use swindle_bootloader_gd.Bus.{byte, write, Log, store}
use swindle_bootloader_gd.System.Interrupt.{ip, is_negative, irq_priority, irq_set_priority}

-- The priority for an `int` that is not negative, and for one that is.
abbrev pub wanted : ℕ → ℕ
wanted prio = if ltb prio (2 ^ 31) then max 5 (15 - prio) else 15

irq_priority-wanted :
    (prio : ℕ)
    → (prio < 2 ^ 31) ⊎ (2 ^ 31 + 15 < prio)
    → prio < 2 ^ 32
    → irq_priority prio ≡ wanted prio
unfolding irq_priority
irq_priority-wanted prio range small = ground arith

-- Setting a priority leaves an exception alone, and otherwise writes one byte, that of the
-- interrupt: the higher the priority asked for, the smaller the number in its upper half, between 5
-- and 15, where a negative priority counts as none. This is for each priority of 32 bits from which
-- the code computes without an overflow.
pub irq_set_priority-wanted :
    (irq prio : ℕ) (h : Log)
    → (prio < 2 ^ 31) ⊎ (2 ^ 31 + 15 < prio)
    → prio < 2 ^ 32
    → irq_set_priority irq prio h ≡ (
        if is_negative irq
        then some (tt, h)
        else some (tt, write byte (ip irq) (16 * wanted prio) ∷ h))
unfolding irq_set_priority
irq_set_priority-wanted irq prio h range small =
    let value = irq_priority-wanted prio range small in
    let fits : irq_priority prio * 2 ^ 4 % 2 ^ 8 ≡ 16 * wanted prio = ground arith in
    branch (is_negative irq) fits
  where
    branch :
        (b : Bool)
        → irq_priority prio * 2 ^ 4 % 2 ^ 8 ≡ 16 * wanted prio
        → if◌then◌else◌ {A = M Log (Unit {0})} b
            (pure tt)
            (store byte (ip irq) (irq_priority prio * 2 ^ 4))
            h
          ≡ (if b then some (tt, h) else some (tt, write byte (ip irq) (16 * wanted prio) ∷ h))
    branch true e = refl
    branch false e = ap (λ v. some (tt, write byte (ip irq) v ∷ h)) e
