-- ===== src/System/Faults/Crash.antt =====
-- The crash functions never come to their endless loops.
use swindle_bootloader_gd.Common.{ℕ, zero, suc, ◌<◌, ◌≡◌, refl, ap, ◌∙◌, arith}
use swindle_bootloader_gd.System.Faults.{Faults, overrun, dead_end}

-- The error code that is left, by the room on the stack.
abbrev pub left_code : ℕ → ℕ → ℕ → ℕ
left_code zero code old = old
left_code (suc zero) code old = code
left_code (suc (suc zero)) code old = code
left_code (suc (suc (suc frames))) code old = left_code frames 2 code

-- Whatever room the stack has, `deadEnd` overruns it and does not come to the loop at its end: its
-- message fails an assertion, and that calls `deadEnd` again.
dead_end-left_code :
    (frames code : ℕ) (s : Faults)
    → dead_end frames code s
      ≡ overrun (record s { last_error_code = left_code frames code s.last_error_code })
unfolding dead_end
dead_end-left_code zero code s = refl
dead_end-left_code (suc zero) code s = refl
dead_end-left_code (suc (suc zero)) code s = refl
dead_end-left_code (suc (suc (suc n))) code s =
    rw (dead_end-left_code n 2 (record s { last_error_code = code })) refl

left_code-lost : (frames old : ℕ) → 0 < frames → left_code frames 2 old ≡ 2
left_code-lost zero old l = absurd (omega arith)
left_code-lost (suc zero) old l = refl
left_code-lost (suc (suc zero)) old l = refl
left_code-lost (suc (suc (suc zero))) old l = refl
left_code-lost (suc (suc (suc (suc n)))) old l = left_code-lost (suc n) 2 (omega arith)

-- Whatever room the stack has for four calls or more, `deadEnd` overruns it and does not come to the
-- endless loop at its end, and the error code that it was called with is lost: that of the assertion
-- in its own message stands in its place.
pub dead_end-overrun :
    (frames code : ℕ) (s : Faults)
    → dead_end (suc (suc (suc (suc frames)))) code s ≡ overrun (record s { last_error_code = 2 })
dead_end-overrun frames code s =
    dead_end-left_code (suc (suc (suc (suc frames)))) code s
    ∙ ap (λ c. overrun (record s { last_error_code = c }))
        (left_code-lost (suc frames) code (omega arith))
