-- ===== src/Common/Partial.antt =====
-- Partial correctness of a run: what holds if it comes back.
use mathlib.Core.Path.{◌≡◌, refl}
use mathlib.Core.Bool.{Bool, true, false}
use mathlib.Core.Option.{Option, none, some}
use swindle_bootloader_gd.Common.Tests.{if◌then◌else◌}
use swindle_bootloader_gd.Common.State.{M, pure, and_then, ◌>>=◌, Returns, returns}

-- No condition on a result.
abbrev pub Any : {A : Type 0} → A → Type 0
Any a = Unit {0}

module _ {S : Type 0} where
  pub data Holds {A : Type 0} (P : A → S → Type 0) : Option (A × S) → Type 0 where
    nothing : Holds P none
    holds : {a : A} {s : S} → P a s → Holds P (some (a, s))

  pub Holds-bind :
      {A B : Type 0} {P : A → S → Type 0} {Q : B → S → Type 0} {r : Option (A × S)} {f : A → M S B}
      → Holds P r
      → ((a : A) (s : S) → P a s → Holds Q (f a s))
      → Holds Q (and_then r f)
  Holds-bind nothing next = nothing
  Holds-bind (holds p) next = next _ _ p

  -- A run that comes back satisfies what holds if it does.
  pub Returns-Holds :
      {A : Type 0} {P Q : A → S → Type 0} {o : Option (A × S)}
      → Returns P o
      → Holds Q o
      → Returns (λ a s. P a s × Q a s) o
  Returns-Holds (returns p) (holds q) = returns (p, q)

  -- From a state of the invariant, a run that comes back ends in one, with a result of the predicate.
  pub record Safe {A : Type 0} (I : S → Type 0) (P : A → Type 0) (m : M S A) : Type 0 where
    pub run : (s : S) → I s → Holds (λ a t. P a × I t) (m s)

  module _ {I : S → Type 0} where
    pub Safe-pure : {A : Type 0} {P : A → Type 0} (a : A) → P a → Safe I P (pure a)
    Safe-pure a p = record { run = λ s i. holds (p, i) }

    pub Safe-done : Safe I Any (pure tt)
    Safe-done = record { run = λ s i. holds (tt, i) }

    pub Safe-bind :
        {A B : Type 0} {P : A → Type 0} {Q : B → Type 0} {m : M S A} {f : A → M S B}
        → Safe I P m
        → ((a : A) → P a → Safe I Q (f a))
        → Safe I Q (m >>= f)
    Safe-bind k l = record { run = λ s i. Holds-bind (k.run s i) λ a t (p, j). (l a p).run t j }

    pub Safe-if :
        {A : Type 0} {P : A → Type 0} (b : Bool) {m n : M S A}
        → Safe I P m
        → Safe I P n
        → Safe I P (if b then m else n)
    Safe-if true k l = k
    Safe-if false k l = l

    -- Each branch may use how its test came out.
    pub Safe-test :
        {A : Type 0} {P : A → Type 0} (b : Bool) {m n : M S A}
        → (b ≡ true → Safe I P m)
        → (b ≡ false → Safe I P n)
        → Safe I P (if b then m else n)
    Safe-test true k l = k refl
    Safe-test false k l = l refl

    -- A change of the variables that keeps the invariant.
    pub Safe-change : (f : S → S) → ((s : S) → I s → I (f s)) → Safe I Any (λ s. some (tt, f s))
    Safe-change f k = record { run = λ s i. holds (tt, k s i) }

    pub Safe-forget : {A : Type 0} {P : A → Type 0} {m : M S A} → Safe I P m → Safe I Any m
    Safe-forget k = record { run = λ s i. forget (k.run s i) }
      where
        forget :
            {A : Type 0} {P : A → Type 0} {o : Option (A × S)}
            → Holds (λ a t. P a × I t) o
            → Holds (λ a t. Unit {0} × I t) o
        forget nothing = nothing
        forget (holds (p, i)) = holds (tt, i)
