-- ===== src/Clock/Waits.antt =====
-- The waiting loops of the clock code, for hardware whose clocks start when they are switched on.
use native.Mathlib.Nat.{mod-eq_of_lt}
use swindle_bootloader_gd.Common.{
  ℕ, zero, suc, ◌%◌, ◌^◌, ◌<◌, ◌≡◌, refl, bit_and, bit_or, bit_or-small, digit, digit-or,
  digit-small, Bool, false, inl, inr, Option, none, some, [], ◌∷◌, ◌==◌, if◌then◌else◌, Bool-cases,
  arith, Returns, returns, Returns_mono,
}
use swindle_bootloader_gd.Bus.{word, Access, read, write, Log, Env, modulus}
use swindle_bootloader_gd.Clock.{wait_set}

-- `n` further reads of a register
abbrev pub reads : ℕ → ℕ → Log → Log
reads r zero h = h
reads r (suc n) h = reads r n (read word r ∷ h)

-- The register shows a bit of the mask when it is read next.
abbrev pub shows : Env → ℕ → ℕ → Log → Bool
shows env r mask h = bit_and (env h word r % modulus word) mask == 0

-- The value last written to an address.
unfoldable pub latest : ℕ → Log → Option ℕ
latest a [] = none
latest a (read w b ∷ h) = latest a h
latest a (write w b v ∷ h) = if b == a then some v else latest a h

-- The word last written to a register has a digit set.
abbrev IsOn : ℕ → ℕ → Log → Type 0
IsOn r bit h = (v : ℕ) × (latest r h ≡ some v) × (digit bit v ≡ 1)

-- A clock that is switched on by the digit `bit` of a register starts: from every point of a run where
-- it is on, some read among the next `fuel` shows the status bit.
abbrev pub Rises : Env → ℕ → ℕ → ℕ → ℕ → Type 0
Rises env fuel r bit mask =
    (h : Log) → IsOn r bit h → (k : ℕ) × (k < fuel) × (shows env r mask (reads r k h) ≡ false)

-- Setting a digit of a word sets it.
pub digit-set :
    (n v bits : ℕ)
    → v < 2 ^ 32
    → bits < 2 ^ 32
    → digit n bits ≡ 1
    → digit n (bit_or v bits % modulus word) ≡ 1
digit-set n v bits small fits e =
    rw (mod-eq_of_lt (bit_or-small 32 v bits small fits))
      (omega (arith, digit-or n v bits, digit-small n v))

-- A run, and the same run later.
pub data Extends (h : Log) : Log → Type 0 where
  same : Extends h h
  access : {t : Log} (x : Access) → Extends h t → Extends h (x ∷ t)

pub Extends-trans : {a b c : Log} → Extends a b → Extends b c → Extends a c
Extends-trans p same = p
Extends-trans p (access x q) = access x (Extends-trans p q)

-- The run ends with a read of the register that shows the bit, and wrote nothing since `h`.
pub record Seen (env : Env) (r mask : ℕ) (h t : Log) : Type 0 where
  pub before : Log
  pub last : t ≡ read word r ∷ before
  pub shown : shows env r mask before ≡ false
  pub unwritten : (a : ℕ) → latest a t ≡ latest a h
  pub extends : Extends h t

wait_set-Seen :
    (env : Env) (r mask fuel k : ℕ) (h : Log)
    → k < fuel
    → shows env r mask (reads r k h) ≡ false
    → Returns (λ _ t. Seen env r mask h t) (wait_set env fuel r mask h)
unfolding wait_set latest
wait_set-Seen env r mask zero k h lt e = absurd (omega arith)
wait_set-Seen env r mask (suc fuel) zero h lt e = rw e (
    returns (record {
      before = h;
      last = refl;
      shown = e;
      unwritten = λ a. refl;
      extends = access _ same;
    }))
wait_set-Seen env r mask (suc fuel) (suc k) h lt e = elim (Bool-cases (shows env r mask h)) [
  | inr now ↦ rw now (
      returns (record {
        before = h;
        last = refl;
        shown = now;
        unwritten = λ a. refl;
        extends = access _ same;
      }))
  | inl not_yet ↦ rw not_yet (
      Returns_mono (wait_set-Seen env r mask fuel k (read word r ∷ h) (omega arith) e) λ _ t s.
        record {
          before = s.before;
          last = s.last;
          shown = s.shown;
          unwritten = s.unwritten;
          extends = Extends-trans (access _ same) s.extends;
        })
]

pub wait-Seen :
    (env : Env) (fuel r mask : ℕ) (h : Log)
    → (bit : ℕ) → Rises env fuel r bit mask
    → IsOn r bit h
    → Returns (λ _ t. Seen env r mask h t) (wait_set env fuel r mask h)
wait-Seen env fuel r mask h bit rises on =
    let (k, lt, e) = rises h on in wait_set-Seen env r mask fuel k h lt e
