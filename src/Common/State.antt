-- ===== src/Common/State.antt =====
-- State passing with failure, and total correctness of a run.
use mathlib.Core.Path.{◌≡◌, refl}
use mathlib.Core.Bool.{Bool, true, false}
use mathlib.Core.Option.{Option, none, some}
use swindle_bootloader_gd.Common.Tests.{if◌then◌else◌}

-- `none` is a run that does not come back: a polling loop that is out of fuel.
abbrev pub M : Type 0 → Type 0 → Type 0
M S A = S → Option (A × S)

module _ {S : Type 0} where
  abbrev pub pure : {A : Type 0} → A → M S A
  pure a s = some (a, s)

  abbrev pub and_then : {A B : Type 0} → Option (A × S) → (A → M S B) → Option (B × S)
  and_then r f = elim r [ none ↦ none | some (a, s) ↦ f a s ]

  infixl 5 ◌>>=◌ ◌>>◌
  abbrev pub ◌>>=◌ : {A B : Type 0} → M S A → (A → M S B) → M S B
  ◌>>=◌ m f s = and_then (m s) f

  abbrev pub ◌>>◌ : {B : Type 0} → M S (Unit {0}) → M S B → M S B
  m >> k = m >>= λ _. k

  pub data Returns {A : Type 0} (P : A → S → Type 0) : Option (A × S) → Type 0 where
    returns : {a : A} {s : S} → P a s → Returns P (some (a, s))

  module _ {A : Type 0} {P : A → S → Type 0} where
    pub Returns-bind :
        {B : Type 0} {Q : B → S → Type 0} {r : Option (A × S)} {f : A → M S B}
        → Returns P r
        → ((a : A) (s : S) → P a s → Returns Q (f a s))
        → Returns Q (and_then r f)
    Returns-bind (returns p) next = next _ _ p

    pub Returns_mono :
        {Q : A → S → Type 0} {o : Option (A × S)}
        → Returns P o
        → ((a : A) (s : S) → P a s → Q a s)
        → Returns Q o
    Returns_mono (returns p) weaken = returns (weaken _ _ p)

  pub returned : {A : Type 0} {P : A → S → Type 0} {a : A} {s : S} → Returns P (some (a, s)) → P a s
  returned (returns p) = p

  -- Two facts of one run.
  pub Returns-both :
      {A : Type 0} {P Q : A → S → Type 0} (o : Option (A × S))
      → Returns P o
      → Returns Q o
      → Returns (λ a s. P a s × Q a s) o
  Returns-both none r q = elim r [ ]
  Returns-both (some (a, s)) r q = returns (returned r, returned q)

  -- Each branch may use how its test came out.
  pub Returns-if :
      {A : Type 0} {P : A → S → Type 0} (b : Bool) (m n : M S A) (s : S)
      → (b ≡ true → Returns P (m s))
      → (b ≡ false → Returns P (n s))
      → Returns P ((if b then m else n) s)
  Returns-if true m n s r q = r refl
  Returns-if false m n s r q = q refl

  -- The command comes back from every state of the invariant, in a state of the invariant.
  pub record Keeps {A : Type 0} (I : S → Type 0) (m : M S A) : Type 0 where
    pub run : (s : S) → I s → Returns (λ _ s'. I s') (m s)

  module _ {I : S → Type 0} where
    pub Keeps-pure : {A : Type 0} (a : A) → Keeps I (pure a)
    Keeps-pure a = record { run = λ s i. returns i }

    pub Keeps-bind :
        {A B : Type 0} {m : M S A} {f : A → M S B}
        → Keeps I m
        → ((a : A) → Keeps I (f a))
        → Keeps I (m >>= f)
    Keeps-bind k l = record { run = λ s i. Returns-bind (k.run s i) λ a t j. (l a).run t j }

    pub Keeps-if :
        {A : Type 0} (b : Bool) {m n : M S A} → Keeps I m → Keeps I n → Keeps I (if b then m else n)
    Keeps-if true k l = k
    Keeps-if false k l = l

  -- The command comes back from every state, with a result of the predicate.
  pub record Gives {A : Type 0} (P : A → Type 0) (m : M S A) : Type 0 where
    pub run : (s : S) → Returns (λ a _. P a) (m s)

  pub Gives-pure : {A : Type 0} {P : A → Type 0} (a : A) → P a → Gives P (pure a)
  Gives-pure a p = record { run = λ s. returns p }

  pub Gives-bind :
      {A B : Type 0} {P : A → Type 0} {Q : B → Type 0} {m : M S A} {f : A → M S B}
      → Gives P m
      → ((a : A) → P a → Gives Q (f a))
      → Gives Q (m >>= f)
  Gives-bind k l = record { run = λ s. Returns-bind (k.run s) λ a t p. (l a p).run t }

  pub Gives-if :
      {A : Type 0} {P : A → Type 0} (b : Bool) {m n : M S A}
      → Gives P m
      → Gives P n
      → Gives P (if b then m else n)
  Gives-if true k l = k
  Gives-if false k l = l
