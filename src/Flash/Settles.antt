-- ===== src/Flash/Settles.antt =====
-- What the flash routines rely on of the flash controller: a busy flag that clears.
use swindle_bootloader_gd.Common.{
  ℕ, zero, suc, ◌%◌, ◌<◌, ◌≡◌, refl, bit_and, Bool, true, inl, inr, ◌∷◌, arith, ◌==◌, Bool-cases,
  Returns, returns, Returns_mono,
}
use swindle_bootloader_gd.Bus.{word, read, Log, Env, modulus, writes}
use swindle_bootloader_gd.Flash.{flash_sr, sr_bsy, flash_wait_for_last_operation}

-- `n` further reads of the status register
abbrev pub polls : ℕ → Log → Log
polls zero h = h
polls (suc n) h = polls n (read word flash_sr ∷ h)

abbrev pub is_ready : Env → Log → Bool
is_ready env h = bit_and (env h word flash_sr % modulus word) sr_bsy == 0

-- From every point of every run, some poll among the next `fuel` finds the controller ready.
abbrev pub Settles : Env → ℕ → Type 0
Settles env fuel = (h : Log) → (k : ℕ) × (k < fuel) × (is_ready env (polls k h) ≡ true)

-- `h'` is `h` after some reads of the status register.
abbrev pub Polled : Log → Log → Type 0
Polled h h' = (n : ℕ) × (h' ≡ polls n h)

pub wait-Polled :
    (env : Env) (fuel k : ℕ) (h : Log)
    → k < fuel
    → is_ready env (polls k h) ≡ true
    → Returns (λ _ h'. Polled h h') (flash_wait_for_last_operation env fuel h)
unfolding flash_wait_for_last_operation
wait-Polled env zero k h lt ready = absurd (omega arith)
wait-Polled env (suc fuel) zero h lt ready = rw ready (returns (1, refl))
wait-Polled env (suc fuel) (suc k) h lt ready = elim (Bool-cases (is_ready env h)) [
  | inl now ↦ rw now (returns (1, refl))
  | inr later ↦ rw later (
      Returns_mono (wait-Polled env fuel k (read word flash_sr ∷ h) (omega arith) ready)
        λ _ h' (n, e). (suc n, e))
]

pub writes-polls : (n : ℕ) (h : Log) → writes (polls n h) ≡ writes h
unfolding writes
writes-polls zero h = refl
writes-polls (suc n) h = writes-polls n (read word flash_sr ∷ h)
