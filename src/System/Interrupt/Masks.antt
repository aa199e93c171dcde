-- ===== src/System/Interrupt/Masks.antt =====
-- Which interrupts the controller lets through, after the accesses of a run.
use swindle_bootloader_gd.Common.{
  ℕ, zero, suc, ◌+◌, ◌*◌, ◌/◌, ◌%◌, ◌^◌, ◌<◌, ◌≤◌, ◌≡◌, refl, bit_and, bit_or, ◌>>=◌, ◌>>◌, Bool,
  true, false, ◌&&◌, ◌||◌, ◌==◌, [], ◌∷◌, none, ◌∙◌, Returns-if, if◌then◌else◌, arith, Returns,
  returns, Keeps, Keeps-bind, Keeps-pure, Keeps-if, digit, single-law, all_below, below-holds,
}
use swindle_bootloader_gd.Bus.{byte, half, word, read, write, Log, Env, load, store}
use swindle_bootloader_gd.System.Interrupt.{
  is_negative, iser, icer, ip, scb_aircr, scb_vtor, scb_cr, scb_shp, scb_shcsr, last_interrupt,
  irq_priority, enable_disable, irq_set_priority, default_priorities, set_up_faults, irq_sys_init,
}

-- The controller's rule: a one in a set or a clear register acts on the interrupt of its place,
-- a zero does nothing.
unfoldable pub irq_enabled : (ℕ → Bool) → Log → ℕ → Bool
irq_enabled before [] i = before i
irq_enabled before (read w a ∷ h) i = irq_enabled before h i
irq_enabled before (write byte a v ∷ h) i = irq_enabled before h i
irq_enabled before (write half a v ∷ h) i = irq_enabled before h i
irq_enabled before (write word a v ∷ h) i =
    let rest = irq_enabled before h i in
    if digit (i % 32) v == 1
    then if a == iser (i / 32) then true else if a == icer (i / 32) then false else rest
    else rest

-- A write to a register of either kind acts on the interrupts of its word.
module _ (before : ℕ → Bool) (k v i : ℕ) (h : Log) (low : k < 32) (small : i < 1024) where
  set-register :
      irq_enabled before (write word (iser k) v ∷ h) i
      ≡ (if digit (i % 32) v == 1 && i / 32 == k then true else irq_enabled before h i)
  unfolding irq_enabled
  set-register = ground arith

  clear-register :
      irq_enabled before (write word (icer k) v ∷ h) i
      ≡ (if digit (i % 32) v == 1 && i / 32 == k then false else irq_enabled before h i)
  unfolding irq_enabled
  clear-register = ground arith

single-place :
    {A : Type 0} (irq i : ℕ) (x y : A)
    → (if digit (i % 32) (2 ^ (irq % 32) % 2 ^ 32) == 1 && i / 32 == irq / 32 then x else y)
      ≡ (if i == irq then x else y)
single-place irq i x y =
    let law = single-law (irq % 32) (i % 32) (omega arith) (omega arith) in ground arith

-- For an interrupt other than the first, enabling or disabling comes back and has done so to that
-- interrupt, and to no other.
pub enable_disable-one :
    (before : ℕ → Bool) (on : Bool) (irq i : ℕ) (h : Log)
    → 0 < irq
    → irq < 240
    → i < 240
    → Returns
        (λ _ t. irq_enabled before t i ≡ (if i == irq then on else irq_enabled before h i))
        (enable_disable on irq h)
unfolding enable_disable
enable_disable-one before on irq i h some below small =
    Returns-if (irq == 0 || is_negative irq) (λ _. none) (store word _ _) h
      (λ e. absurd (ground arith)) λ _. returns (done on)
  where
    done :
        (on : Bool)
        → irq_enabled before
            (write word (if on then iser (irq / 32) else icer (irq / 32)) (2 ^ (irq % 32) % 2 ^ 32)
              ∷ h)
            i
          ≡ (if i == irq then on else irq_enabled before h i)
    done true =
        set-register before (irq / 32) (2 ^ (irq % 32) % 2 ^ 32) i h (omega arith) (omega arith)
        ∙ single-place irq i true (irq_enabled before h i)
    done false =
        clear-register before (irq / 32) (2 ^ (irq % 32) % 2 ^ 32) i h (omega arith) (omega arith)
        ∙ single-place irq i false (irq_enabled before h i)

-- An interrupt that is off stays so under accesses that write no set register.
module _ (before : ℕ → Bool) (env : Env) (i : ℕ) (small : i < 240) where
  abbrev Off : Log → Type 0
  Off h = irq_enabled before h i ≡ false

  load-Off : (a : ℕ) → Keeps Off (load env word a)
  unfolding irq_enabled
  load-Off a = record { run = λ h off. returns off }

  byte-Off : (a v : ℕ) → Keeps Off (store byte a v)
  unfolding irq_enabled
  byte-Off a v = record { run = λ h off. returns off }

  word-Off : (a v : ℕ) → 0xE000E180 ≤ a → Keeps Off (store word a v)
  unfolding irq_enabled
  word-Off a v far = record { run = λ h off. returns (ground arith) }

  irq_set_priority-Off : (irq prio : ℕ) → Keeps Off (irq_set_priority irq prio)
  unfolding irq_set_priority
  irq_set_priority-Off irq prio =
      Keeps-if (is_negative irq) (Keeps-pure tt) (byte-Off (ip irq) (irq_priority prio * 2 ^ 4))

  default_priorities-Off : (n irq : ℕ) → Keeps Off (default_priorities irq n)
  unfolding default_priorities
  default_priorities-Off zero irq = record { run = λ h off. returns off }
  default_priorities-Off (suc n) irq = record {
    run = (Keeps-bind (irq_set_priority-Off irq 0) λ u. default_priorities-Off n (irq + 1)).run;
  }

  set_up_faults-Off : (vectors : ℕ) → Keeps Off (set_up_faults env vectors)
  unfolding set_up_faults
  set_up_faults-Off vectors = Keeps-bind (byte-Off (scb_shp 0) 80) λ u0.
      Keeps-bind (byte-Off (scb_shp 1) 80) λ u1. Keeps-bind (byte-Off (scb_shp 2) 80) λ u2.
        Keeps-bind (byte-Off (scb_shp 3) 80) λ u3.
          Keeps-bind (word-Off scb_vtor vectors (omega arith)) λ u4.
            Keeps-bind (load-Off scb_cr) λ cr.
              Keeps-bind (word-Off scb_cr (bit_or cr (2 ^ 4 + 2 ^ 9)) (omega arith)) λ u5.
                Keeps-bind (load-Off scb_shcsr)
                  λ shcsr. word-Off scb_shcsr (bit_or shcsr (7 * 2 ^ 16)) (omega arith)

  rest-Off :
      (vectors : ℕ)
      → Keeps Off (do
        v ← load env word scb_aircr
        store word scb_aircr (bit_or (bit_and v 7) (0x05FA0000 + 3 * 2 ^ 8))
        default_priorities 0 last_interrupt
        set_up_faults env vectors)
  rest-Off vectors = Keeps-bind (load-Off scb_aircr) λ v.
      Keeps-bind (word-Off scb_aircr (bit_or (bit_and v 7) (0x05FA0000 + 3 * 2 ^ 8)) (omega arith))
        λ u. Keeps-bind (default_priorities-Off last_interrupt 0) λ u1. set_up_faults-Off vectors

-- The four words of ones.
ones_test : all_below 32 (λ n. digit n (0xffff_ffff % 2 ^ 32) == 1) ≡ true
ones_test = refl

module _ (before : ℕ → Bool) (i : ℕ) (h : Log) (small : i < 128) where
  masked : Log
  masked =
      write word (icer 3) (0xffff_ffff % 2 ^ 32)
      ∷ write word (icer 2) (0xffff_ffff % 2 ^ 32)
      ∷ write word (icer 1) (0xffff_ffff % 2 ^ 32)
      ∷ write word (icer 0) (0xffff_ffff % 2 ^ 32)
      ∷ h

  masked-Off : irq_enabled before masked i ≡ false
  unfolding masked irq_enabled
  masked-Off =
      let one =
        below-holds 32 (i % 32) (λ n. digit n (0xffff_ffff % 2 ^ 32) == 1) (omega arith)
          ones_test in
      ground arith

-- `lnIrqSysInit` comes back, and has then disabled each of the first 128 interrupts, whichever were
-- enabled before it.
pub irq_sys_init-disabled :
    (before : ℕ → Bool) (env : Env) (i vectors : ℕ) (h : Log)
    → i < 128
    → Returns (λ _ t. irq_enabled before t i ≡ false) (irq_sys_init env vectors h)
unfolding irq_sys_init masked
irq_sys_init-disabled before env i vectors h small =
    (rest-Off before env i (omega arith) vectors).run (masked before i h small)
      (masked-Off before i h small)
