-- ===== src/Stage1/Memory.antt =====
-- What stage 1 relies on of the hardware: memory that only writes to it change, a pin at rest, and a
-- checksum unit.
use mathlib.Core.List.{append-nil, append_assoc}
use swindle_bootloader_gd.Common.{
  ℕ, zero, suc, ◌+◌, ◌*◌, ◌%◌, ◌^◌, ◌≤◌, ◌<◌, ◌≡◌, refl, sym, Bool, true, false, List, [], ◌∷◌,
  ◌++◌, ◌==◌, if◌then◌else◌, arith, M, pure, ◌>>=◌, Returns, returns, Returns-bind, Returns_mono,
}
use swindle_bootloader_gd.Bus.{Width, word, read, write, Log, Env, load, store}
use swindle_bootloader_gd.Board.{or_into}
use swindle_bootloader_gd.Stage1.{crc_data, crc_control, feed_words, ch32_crc}

abbrev pub peripherals : ℕ
peripherals = 0x4000_0000

-- All writes so far went to peripherals.
abbrev pub Outside : Log → Type 0
Outside [] = Unit {0}
Outside (read w a ∷ h) = Outside h
Outside (write w a v ∷ h) = (peripherals ≤ a) × Outside h

-- Flash and RAM hold what they held, while only peripherals are written.
abbrev pub Memory : Env → (ℕ → ℕ) → Type 0
Memory env initial = (h : Log) (a : ℕ) → Outside h → a < peripherals → env h word a ≡ initial a

-- The words written to the data register since the unit was reset.
unfoldable pub fed : Log → List ℕ
fed [] = []
fed (read w a ∷ h) = fed h
fed (write w a v ∷ h) =
    let before = fed h in
    if a == crc_data then before ++ (v ∷ []) else if a == crc_control then [] else before

-- Reading the data register gives the checksum of those words.
abbrev pub CrcUnit : Env → (List ℕ → ℕ) → Type 0
CrcUnit env crc = (h : Log) → env h word crc_data ≡ crc (fed h)

-- `n` words of memory
unfoldable pub words : (ℕ → ℕ) → ℕ → ℕ → List ℕ
words initial a zero = []
words initial a (suc n) = initial a % 2 ^ 32 ∷ words initial (a + 4) n

-- The command comes back with only peripherals written, and with a result of the predicate.
pub record Tells {A : Type 0} (Q : A → Type 0) (m : M Log A) : Type 0 where
  pub run : (h : Log) → Outside h → Returns (λ a t. Q a × Outside t) (m h)

pub Tells-pure : {A : Type 0} {Q : A → Type 0} (a : A) → Q a → Tells Q (pure a)
Tells-pure a q = record { run = λ h o. returns (q, o) }

pub Tells-bind :
    {A B : Type 0} {P : A → Type 0} {Q : B → Type 0} {m : M Log A} {f : A → M Log B}
    → Tells P m
    → ((a : A) → P a → Tells Q (f a))
    → Tells Q (m >>= f)
Tells-bind k l = record { run = λ h o. Returns-bind (k.run h o) λ a t (p, q). (l a p).run t q }

pub Tells-if :
    {A : Type 0} {Q : A → Type 0} (b : Bool) {m n : M Log A}
    → (b ≡ true → Tells Q m)
    → (b ≡ false → Tells Q n)
    → Tells Q (if b then m else n)
Tells-if true k l = k refl
Tells-if false k l = l refl

pub Tells-store : (w : Width) (a v : ℕ) → peripherals ≤ a → Tells (λ _. Unit {0}) (store w a v)
Tells-store w a v le = record { run = λ h o. returns (tt, (le, o)) }

module _ (env : Env) where
  pub Tells-any : (w : Width) (a : ℕ) → Tells (λ _. Unit {0}) (load env w a)
  Tells-any w a = record { run = λ h o. returns (tt, o) }

  pub or_into-Tells : (r bits : ℕ) → peripherals ≤ r → Tells (λ _. Unit {0}) (or_into env r bits)
  or_into-Tells r bits le = record { run = λ h o. returns (tt, (le, o)) }

  module _ (initial : ℕ → ℕ) (memory : Memory env initial) where
    pub Tells-load :
        (a : ℕ) → a < peripherals → Tells (λ v. v ≡ initial a % 2 ^ 32) (load env word a)
    Tells-load a lt = record { run = λ h o. let e = memory h a o lt in returns (rw e refl, o) }

    -- The loop appends the words of the memory to what the unit was fed.
    feed_words-fed :
        (n p : ℕ) (h : Log)
        → p + 4 * n ≤ peripherals
        → Outside h
        → Returns (λ _ t. (fed t ≡ fed h ++ words initial p n) × Outside t) (feed_words env n p h)
    unfolding feed_words words fed
    feed_words-fed zero p h le o = returns (sym (append-nil (fed h)), o)
    feed_words-fed (suc n) p h le o =
        let v = env h word p % 2 ^ 32 in
        let e : v % 2 ^ 32 ≡ initial p % 2 ^ 32 = rw (memory h p o (omega arith)) (omega arith) in
        let t = write word crc_data (v % 2 ^ 32) ∷ read word p ∷ h in
        Returns_mono (feed_words-fed n (p + 4) t (omega arith) (omega arith, o)) λ _ u (eq, q).
          (rw (eq, e) (append_assoc (fed h) (initial p % 2 ^ 32 ∷ []) (words initial (p + 4) n)), q)

    -- The checksum of `n` words of memory is the unit's checksum of those words, whatever it was
    -- fed before.
    pub ch32_crc-words :
        (crc : List ℕ → ℕ) (addr n : ℕ)
        → CrcUnit env crc
        → addr + 4 * n ≤ peripherals
        → Tells (λ v. v ≡ crc (words initial addr n) % 2 ^ 32) (ch32_crc env addr n)
    unfolding ch32_crc fed
    ch32_crc-words crc addr n unit le = record {
      run = λ h o.
          Returns-bind
            (Returns-bind ((or_into-Tells 0x40021014 0x40 (omega arith)).run h o) λ _ t (_, q).
              feed_words-fed n addr (write word crc_control 1 ∷ t) le (omega arith, q))
            λ _ u (eq, q). returns (rw (unit u, eq) refl, q);
    }
