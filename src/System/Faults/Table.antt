-- ===== src/System/Faults/Table.antt =====
-- The vector table against the enumerators.
use mathlib.Core.Option.{some_inj}
use swindle_bootloader_gd.Common.{ℕ, zero, suc, ◌+◌, ◌<◌, ◌≡◌, refl, some, arith, get_elem?, subst}
use swindle_bootloader_gd.System.Faults.{
  Handler, wdg, tamper, rtc, fmc, rcu, adc01, usb_tx, usb_rx, usb_wakeup, exti5_9, exti10_15, exti,
  timer, i2c_ev, i2c_err, usart, dma, vector_table, irq_number,
}

at :
    (k j : ℕ) (x : Handler)
    → some j ≡ some k
    → get_elem? vector_table (16 + j) ≡ some x
    → get_elem? vector_table (16 + k) ≡ some x
at k j x e found = subst (λ i. get_elem? vector_table (16 + i) ≡ some x) (some_inj.0 e) found

-- The numbers that the table reaches.
table_entry :
    (x : Handler) (k : ℕ)
    → irq_number x ≡ some k
    → k < 60
    → get_elem? vector_table (16 + k) ≡ some x
unfolding vector_table irq_number
table_entry wdg k e l = at k 0 wdg e refl
table_entry tamper k e l = at k 2 tamper e refl
table_entry rtc k e l = at k 3 rtc e refl
table_entry fmc k e l = at k 4 fmc e refl
table_entry rcu k e l = at k 5 rcu e refl
table_entry adc01 k e l = at k 18 adc01 e refl
table_entry usb_tx k e l = at k 19 usb_tx e refl
table_entry usb_rx k e l = at k 20 usb_rx e refl
table_entry exti5_9 k e l = at k 23 exti5_9 e refl
table_entry exti10_15 k e l = at k 40 exti10_15 e refl
table_entry usb_wakeup k e l = at k 42 usb_wakeup e refl
table_entry (exti zero) k e l = at k 6 (exti 0) e refl
table_entry (exti (suc zero)) k e l = at k 7 (exti 1) e refl
table_entry (exti (suc (suc zero))) k e l = at k 8 (exti 2) e refl
table_entry (exti (suc (suc (suc zero)))) k e l = at k 9 (exti 3) e refl
table_entry (exti (suc (suc (suc (suc zero))))) k e l = at k 10 (exti 4) e refl
table_entry (exti (suc (suc (suc (suc (suc n)))))) k e l = absurd (ground arith)
table_entry (i2c_ev zero) k e l = at k 31 (i2c_ev 0) e refl
table_entry (i2c_ev (suc zero)) k e l = at k 33 (i2c_ev 1) e refl
table_entry (i2c_ev (suc (suc n))) k e l = absurd (ground arith)
table_entry (i2c_err zero) k e l = at k 32 (i2c_err 0) e refl
table_entry (i2c_err (suc zero)) k e l = at k 34 (i2c_err 1) e refl
table_entry (i2c_err (suc (suc n))) k e l = absurd (ground arith)
table_entry (usart zero) k e l = at k 37 (usart 0) e refl
table_entry (usart (suc zero)) k e l = at k 38 (usart 1) e refl
table_entry (usart (suc (suc zero))) k e l = at k 39 (usart 2) e refl
table_entry (usart (suc (suc (suc n)))) k e l = absurd (ground arith)
table_entry (timer zero) k e l = absurd (ground arith)
table_entry (timer (suc zero)) k e l = at k 28 (timer 1) e refl
table_entry (timer (suc (suc zero))) k e l = at k 29 (timer 2) e refl
table_entry (timer (suc (suc (suc zero)))) k e l = at k 30 (timer 3) e refl
table_entry (timer (suc (suc (suc (suc zero))))) k e l = absurd (ground arith)
table_entry (timer (suc (suc (suc (suc (suc zero)))))) k e l = at k 54 (timer 5) e refl
table_entry (timer (suc (suc (suc (suc (suc (suc zero))))))) k e l = at k 55 (timer 6) e refl
table_entry (timer (suc (suc (suc (suc (suc (suc (suc n)))))))) k e l = absurd (ground arith)
table_entry (dma zero zero) k e l = at k 11 (dma 0 0) e refl
table_entry (dma zero (suc zero)) k e l = at k 12 (dma 0 1) e refl
table_entry (dma zero (suc (suc zero))) k e l = at k 13 (dma 0 2) e refl
table_entry (dma zero (suc (suc (suc zero)))) k e l = at k 14 (dma 0 3) e refl
table_entry (dma zero (suc (suc (suc (suc zero))))) k e l = at k 15 (dma 0 4) e refl
table_entry (dma zero (suc (suc (suc (suc (suc zero)))))) k e l = at k 16 (dma 0 5) e refl
table_entry (dma zero (suc (suc (suc (suc (suc (suc zero))))))) k e l = at k 17 (dma 0 6) e refl
table_entry (dma zero (suc (suc (suc (suc (suc (suc (suc n)))))))) k e l = absurd (ground arith)
table_entry (dma (suc zero) zero) k e l = at k 56 (dma 1 0) e refl
table_entry (dma (suc zero) (suc zero)) k e l = at k 57 (dma 1 1) e refl
table_entry (dma (suc zero) (suc (suc zero))) k e l = at k 58 (dma 1 2) e refl
table_entry (dma (suc zero) (suc (suc (suc zero)))) k e l = at k 59 (dma 1 3) e refl
table_entry (dma (suc zero) (suc (suc (suc (suc n))))) k e l = absurd (ground arith)
table_entry (dma (suc (suc d)) c) k e l = absurd (ground arith)
table_entry _ k e l = absurd (ground arith)
