-- ===== src/System/Faults.antt =====
-- The vector table of esprit_mini/include/lnIRQ_arm_vector.h and what its handlers do, with
-- `deadEnd` (esprit_mini/lnIRQ_arm_gd32fx.cpp) and the assertions of src_common/stubs.cpp.
pub mod Crash
pub mod Table
use swindle_bootloader_gd.Common.{
  ℕ, zero, suc, ◌+◌, ◌-◌, ◌*◌, ◌%◌, ◌^◌, ◌<◌, Bool, true, false, Option, none, some, List, [], ◌∷◌,
  ltb, ◌==◌, if◌then◌else◌, u32, length,
}
use swindle_bootloader_gd.Bus.{word, read, Log, Env, modulus}

-- The entries of the table. `exti`, `dma`, `timer`, `i2c_ev`, `i2c_err` and `usart` have the numbers
-- of their names, as `EXTI0_IRQHandler` or `DMA0_Channel1_IRQHandler`.
pub data Handler : Type 0 where
  initial_stack exc_reset nmi hard_fault mem_manage bus_fault usage_fault debug_mon : Handler
  sv_call pend_sv sys_tick wdg tamper rtc fmc rcu unsupported unsupported2 : Handler
  adc01 usb_tx usb_rx usb_wakeup exti5_9 exti10_15 : Handler
  exti timer i2c_ev i2c_err usart : ℕ → Handler
  dma : ℕ → ℕ → Handler

unfoldable pub vector_table : List Handler
vector_table =
    initial_stack
    ∷ exc_reset
    ∷ nmi
    ∷ hard_fault
    ∷ mem_manage
    ∷ bus_fault
    ∷ usage_fault
    ∷ unsupported2
    ∷ unsupported
    ∷ unsupported
    ∷ unsupported
    ∷ sv_call
    ∷ debug_mon
    ∷ unsupported
    ∷ pend_sv
    ∷ sys_tick
    ∷ wdg
    ∷ unsupported
    ∷ tamper
    ∷ rtc
    ∷ fmc
    ∷ rcu
    ∷ exti 0
    ∷ exti 1
    ∷ exti 2
    ∷ exti 3
    ∷ exti 4
    ∷ dma 0 0
    ∷ dma 0 1
    ∷ dma 0 2
    ∷ dma 0 3
    ∷ dma 0 4
    ∷ dma 0 5
    ∷ dma 0 6
    ∷ adc01
    ∷ usb_tx
    ∷ usb_rx
    ∷ unsupported
    ∷ unsupported
    ∷ exti5_9
    ∷ unsupported
    ∷ unsupported
    ∷ unsupported
    ∷ unsupported
    ∷ timer 1
    ∷ timer 2
    ∷ timer 3
    ∷ i2c_ev 0
    ∷ i2c_err 0
    ∷ i2c_ev 1
    ∷ i2c_err 1
    ∷ unsupported
    ∷ unsupported
    ∷ usart 0
    ∷ usart 1
    ∷ usart 2
    ∷ exti10_15
    ∷ rtc
    ∷ usb_wakeup
    ∷ unsupported
    ∷ unsupported
    ∷ unsupported
    ∷ unsupported
    ∷ unsupported
    ∷ unsupported
    ∷ unsupported
    ∷ unsupported
    ∷ unsupported
    ∷ unsupported
    ∷ unsupported
    ∷ timer 5
    ∷ timer 6
    ∷ dma 1 0
    ∷ dma 1 1
    ∷ dma 1 2
    ∷ dma 1 3
    ∷ []

-- The enumerators of `LnIRQ` for these handlers; RTC_IrqHandler serves two, the alarm at 41 too.
unfoldable pub irq_number : Handler → Option ℕ
irq_number wdg = some 0
irq_number tamper = some 2
irq_number rtc = some 3
irq_number fmc = some 4
irq_number rcu = some 5
irq_number (exti n) = if ltb n 5 then some (6 + n) else none
irq_number adc01 = some 18
irq_number usb_tx = some 19
irq_number usb_rx = some 20
irq_number exti5_9 = some 23
irq_number (i2c_ev n) = if ltb n 2 then some (31 + 2 * n) else none
irq_number (i2c_err n) = if ltb n 2 then some (32 + 2 * n) else none
irq_number (usart n) = if ltb n 3 then some (37 + n) else none
irq_number exti10_15 = some 40
irq_number usb_wakeup = some 42
irq_number (timer zero) = none
irq_number (timer (suc n)) =
    if ltb n 3 then some (28 + n) else if n == 4 then some 54 else if n == 5 then some 55 else none
irq_number (dma zero c) = if ltb c 7 then some (11 + c) else none
irq_number (dma (suc d) c) = if d == 0 then (if ltb c 5 then some (56 + c) else none) else none
irq_number _ = none

-- The static variables of the file.
pub record Faults : Type 0 where
  pub adc_irq_handler : Option ℕ
  pub cur_interrupt : ℕ
  pub cur_ln_interrupt : ℕ
  pub last_error_code : ℕ
  pub log : Log

-- How a call ends: it comes back, it calls code that is not in the repository, it stays in the endless
-- loop of `deadEnd`, or it overruns the stack.
pub data Outcome : Type 0 where
  returned halted overrun : Faults → Outcome
  calls : Handler → Faults → Outcome
  calls_adc : ℕ → Faults → Outcome

abbrev pub and_next : Outcome → (Faults → Outcome) → Outcome
and_next (returned s) f = f s
and_next o f = o

-- `deadEnd` writes a message three times by `Logger_crash`, which asserts, and `do_assert` calls
-- `deadEnd`. The number is that of the calls for which the stack has room.
unfoldable mutual
  pub dead_end : ℕ → ℕ → Faults → Outcome
  dead_end zero code s = overrun s
  dead_end (suc frames) code s =
      and_next (logger_crash frames (record s { last_error_code = code }))
        λ t. and_next (logger_crash frames t) λ u. and_next (logger_crash frames u) halted

  pub logger_crash : ℕ → Faults → Outcome
  logger_crash zero s = overrun s
  logger_crash (suc frames) s = do_assert frames s

  pub do_assert : ℕ → Faults → Outcome
  do_assert zero s = overrun s
  do_assert (suc frames) s = and_next (dead_end frames 2 s) halted

-- `xAssert(0)`
abbrev pub fail : ℕ → Faults → Outcome
fail frames s = do_assert frames s

module _ (env : Env) (frames : ℕ) where
  -- `unsupportedInterrupt`, up to its assertion: the number of the exception, and of the interrupt.
  unfoldable pub note_interrupt : Faults → Faults
  note_interrupt s =
      let cur = env s.log word 0xE000ED04 % modulus word % 256 in
      record s {
        cur_interrupt = cur;
        cur_ln_interrupt = u32 (cur + (2 ^ 32 - 16));
        log = read word 0xE000ED04 ∷ s.log;
      }

  abbrev pub call_adc : Option ℕ → Faults → Outcome
  call_adc none s = fail frames s
  call_adc (some f) s = calls_adc f s

  -- The handlers that the file defines, with the interrupts of I2C as they are without
  -- LN_ENABLE_I2C; the others are calls.
  unfoldable pub run_handler : Handler → Faults → Outcome
  unfolding note_interrupt
  run_handler unsupported s = fail frames (note_interrupt s)
  run_handler unsupported2 s = fail frames (note_interrupt s)
  run_handler nmi s = dead_end frames 0x90 s
  run_handler hard_fault s = dead_end frames 0x90 s
  run_handler mem_manage s = dead_end frames 0x90 s
  run_handler bus_fault s = dead_end frames 0x90 s
  run_handler usage_fault s = dead_end frames 0x90 s
  run_handler debug_mon s = dead_end frames 0x90 s
  run_handler wdg s = dead_end frames 0x90 s
  run_handler tamper s = dead_end frames 0x90 s
  run_handler rtc s = dead_end frames 0x90 s
  run_handler fmc s = dead_end frames 0x90 s
  run_handler rcu s = dead_end frames 0x90 s
  run_handler adc01 s = call_adc s.adc_irq_handler s
  run_handler (i2c_ev n) s = dead_end frames 1 s
  run_handler (i2c_err n) s = dead_end frames 1 s
  run_handler usb_tx s = fail frames s
  run_handler usb_rx s = fail frames s
  run_handler usb_wakeup s = fail frames s
  run_handler h s = calls h s

-- `lnSetInterruptHandler`, for LN_IRQ_ADC0_1 and for the others, which fail the assertion.
unfoldable pub set_interrupt_handler : ℕ → ℕ → Faults → Option Faults
set_interrupt_handler irq handler s =
    if irq == 18 then some (record s { adc_irq_handler = some handler }) else none

-- What ends in the crash functions, by esprit_mini/systemHelper.cpp, arm_gd32fx/start.cpp and the
-- stubs of src_common/stubs.cpp.
abbrev pub handle_trap : ℕ → Faults → Outcome
handle_trap frames s = dead_end frames 0xffff s

abbrev pub unhandled_exception : ℕ → Faults → Outcome
unhandled_exception frames s = dead_end frames 0x1000 s

abbrev pub exit : ℕ → ℕ → Faults → Outcome
exit frames code s = dead_end frames (u32 (code + 0x2000)) s

abbrev pub fault : ℕ → Faults → Outcome
fault frames s = dead_end frames 5 s

abbrev pub pure_virtual : ℕ → Faults → Outcome
pure_virtual frames s = do_assert frames s

abbrev pub core_exception_handler : ℕ → Faults → Outcome
core_exception_handler frames s = do_assert frames s

abbrev pub throw_out_of_range : ℕ → Faults → Outcome
throw_out_of_range frames s = do_assert frames s

abbrev pub throw_length_error : ℕ → Faults → Outcome
throw_length_error frames s = do_assert frames s
