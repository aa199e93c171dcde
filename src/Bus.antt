-- ===== src/Bus.antt =====
-- The memory-mapped world of the bootloader: registers, packet memory, flash and RAM outside the
-- program's own variables. A run is the list of its accesses, the newest first. What a read
-- answers is the environment's choice: any function of the accesses so far and of the address.
use swindle_bootloader_gd.Common.{ℕ, ◌%◌, ◌^◌, List, [], ◌∷◌, some, M, Gives, returns}

pub data Width : Type 0 where
  byte half word : Width

pub data Access : Type 0 where
  read : Width → ℕ → Access
  write : Width → ℕ → ℕ → Access

abbrev pub Log : Type 0
Log = List Access

abbrev pub Env : Type 0
Env = Log → Width → ℕ → ℕ

abbrev pub modulus : Width → ℕ
modulus byte = 2 ^ 8
modulus half = 2 ^ 16
modulus word = 2 ^ 32

-- `*(volatile T *)a`, for a T of the given width
abbrev pub load : Env → Width → ℕ → M Log ℕ
load env w a h = some (env h w a % modulus w, read w a ∷ h)

-- `*(volatile T *)a = v`
abbrev pub store : Width → ℕ → ℕ → M Log (Unit {0})
store w a v h = some (tt, write w a (v % modulus w) ∷ h)

-- The writes of a run, without the reads between them.
unfoldable pub writes : Log → Log
writes [] = []
writes (read w a ∷ h) = writes h
writes (write w a v ∷ h) = write w a v ∷ writes h

-- A command of the bus that comes back.
abbrev pub Done : {A : Type 0} → M Log A → Type 0
Done m = Gives (λ _. Unit {0}) m

-- The single accesses come back.
pub load-Gives : (env : Env) (w : Width) (a : ℕ) → Gives (λ _. Unit {0}) (load env w a)
load-Gives env w a = record { run = λ h. returns tt }

pub store-Gives : (w : Width) (a v : ℕ) → Gives (λ _. Unit {0}) (store w a v)
store-Gives w a v = record { run = λ h. returns tt }
