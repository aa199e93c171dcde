-- ===== src/System/Interrupt.antt =====
-- The interrupt controller: esprit_mini/lnIRQ_arm_gd32fx.cpp, with the priorities of
-- esprit_mini/include/freeRTOS_tuning.h.
pub mod Masks
pub mod Priority
use swindle_bootloader_gd.Common.{
  ℕ, zero, suc, ◌+◌, ◌-◌, ◌*◌, ◌/◌, ◌%◌, ◌^◌, bit_and, bit_or, Bool, true, false, ◌&&◌, ◌||◌, none,
  ltb, leb, ◌==◌, if◌then◌else◌, u32, M, pure, ◌>>=◌, ◌>>◌,
}
use swindle_bootloader_gd.Bus.{byte, word, Log, Env, load, store}

-- `anvic` and `aSCB`
abbrev pub iser : ℕ → ℕ
iser k = 0xE000E100 + 4 * k

abbrev pub icer : ℕ → ℕ
icer k = 0xE000E180 + 4 * k

abbrev pub ip : ℕ → ℕ
ip irq = 0xE000E400 + irq

abbrev pub scb_vtor : ℕ
scb_vtor = 0xE000ED08

abbrev pub scb_aircr : ℕ
scb_aircr = 0xE000ED0C

abbrev pub scb_cr : ℕ
scb_cr = 0xE000ED14

abbrev pub scb_shp : ℕ → ℕ
scb_shp i = 0xE000ED18 + i

abbrev pub scb_shcsr : ℕ
scb_shcsr = 0xE000ED24

-- An `int` is the word of its two's complement.
abbrev pub is_negative : ℕ → Bool
is_negative n = leb (2 ^ 31) n

abbrev pub last_interrupt : ℕ
last_interrupt = 61

-- `prio` after its three assignments
unfoldable pub irq_priority : ℕ → ℕ
irq_priority prio =
    let left = u32 (15 + (2 ^ 32 - prio)) in
    let high = if ltb 15 left && ltb left (2 ^ 31) then 15 else left in
    if ltb high 5 || is_negative high then 5 else high

unfoldable pub irq_set_priority : ℕ → ℕ → M Log (Unit {0})
unfolding irq_priority
irq_set_priority irq prio =
    if is_negative irq then pure tt else store byte (ip irq) (irq_priority prio * 2 ^ 4)

-- A failed assertion does not come back.
unfoldable pub enable_disable : Bool → ℕ → M Log (Unit {0})
enable_disable on irq =
    if irq == 0 || is_negative irq
    then (λ h. none)
    else store word (if on then iser (irq / 32) else icer (irq / 32)) (2 ^ (irq % 32))

abbrev pub enable_interrupt : ℕ → M Log (Unit {0})
enable_interrupt irq = enable_disable true irq

abbrev pub disable_interrupt : ℕ → M Log (Unit {0})
disable_interrupt irq = enable_disable false irq

-- The loop over the priorities, from an interrupt and for the number of those that are left.
unfoldable pub default_priorities : ℕ → ℕ → M Log (Unit {0})
unfolding irq_set_priority
default_priorities i zero h = pure tt h
default_priorities i (suc n) h = (do irq_set_priority i 0; default_priorities (i + 1) n) h

module _ (env : Env) where
  -- Both up to their endless loops.
  unfoldable pub soft_system_reset : M Log (Unit {0})
  soft_system_reset = do
    v ← load env word scb_aircr
    store word scb_vtor 0
    store word scb_aircr (0x05FA0000 + 1)

  unfoldable pub hard_system_reset : M Log (Unit {0})
  hard_system_reset = do
    v ← load env word scb_aircr
    store word scb_vtor 0
    store word scb_aircr (0x05FA0000 + 4)

  -- Priorities and faults of the processor; `vectors` is the address of `LnVectorTable`.
  unfoldable pub set_up_faults : ℕ → M Log (Unit {0})
  set_up_faults vectors = do
    store byte (scb_shp 0) 80
    store byte (scb_shp 1) 80
    store byte (scb_shp 2) 80
    store byte (scb_shp 3) 80
    store word scb_vtor vectors
    cr ← load env word scb_cr
    store word scb_cr (bit_or cr (2 ^ 4 + 2 ^ 9))
    shcsr ← load env word scb_shcsr
    store word scb_shcsr (bit_or shcsr (7 * 2 ^ 16))

  unfoldable pub irq_sys_init : ℕ → M Log (Unit {0})
  unfolding default_priorities set_up_faults
  irq_sys_init vectors = do
    store word (icer 0) 0xffff_ffff
    store word (icer 1) 0xffff_ffff
    store word (icer 2) 0xffff_ffff
    store word (icer 3) 0xffff_ffff
    v ← load env word scb_aircr
    store word scb_aircr (bit_or (bit_and v 7) (0x05FA0000 + 3 * 2 ^ 8))
    default_priorities 0 last_interrupt
    set_up_faults vectors
