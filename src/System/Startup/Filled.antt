-- ===== src/System/Startup/Filled.antt =====
-- What the loops before `main` leave in memory.
use swindle_bootloader_gd.Common.{
  ℕ, zero, suc, ◌+◌, ◌*◌, ◌%◌, ◌^◌, ◌≤◌, ◌<◌, ◌≡◌, ◌⊎◌, inl, refl, ap, ◌∙◌, [], ◌∷◌, ◌==◌,
  if◌then◌else◌, arith, u32, M, Returns, returns, Returns-bind, Returns_mono, Gives,
}
use swindle_bootloader_gd.Bus.{word, read, write, Log, Env}
use swindle_bootloader_gd.Stage2.{clear_words}
use swindle_bootloader_gd.System.Startup.{
  Sections, words_between, ram, copy_words, load_sections, start_c,
}

-- The word that was written last at an address, or what was there at first.
unfoldable pub last_word : (ℕ → ℕ) → Log → ℕ → ℕ
last_word initial [] a = initial a
last_word initial (read w r ∷ h) a = last_word initial h a
last_word initial (write w r v ∷ h) a =
    let before = last_word initial h a in if r == a then v else before

-- Memory reads as the word written last.
abbrev pub Stored : Env → (ℕ → ℕ) → Type 0
Stored env initial = (h : Log) (a : ℕ) → env h word a ≡ last_word initial h a

module _ (initial : ℕ → ℕ) where
  -- Only the words of a range have changed.
  abbrev pub Elsewhere : Log → Log → ℕ → ℕ → Type 0
  Elsewhere h t first n =
      (a : ℕ) → (a < first) ⊎ (first + 4 * n ≤ a) → last_word initial t a ≡ last_word initial h a

  -- A range holds the words of `f`, and elsewhere nothing has changed.
  abbrev pub Filled : (ℕ → ℕ) → Log → ℕ → ℕ → Log → Type 0
  Filled f h n first t =
      ((i : ℕ) → i < n → last_word initial t (first + 4 * i) ≡ f i) × Elsewhere h t first n

  filled_first : (first v : ℕ) (h : Log) → last_word initial (write word first v ∷ h) first ≡ v
  unfolding last_word
  filled_first first v h = ground arith

  filled_other :
      (first v a : ℕ) (h : Log)
      → (a < first) ⊎ (first + 4 ≤ a)
      → last_word initial (write word first v ∷ h) a ≡ last_word initial h a
  unfolding last_word
  filled_other first v a h out = ground arith

  module _ (f g : ℕ → ℕ) (h h0 t : Log) (n first v : ℕ)
      (kept : (a : ℕ) → last_word initial h0 a ≡ last_word initial h a) (head : v ≡ f 0)
      (rest : Filled g (write word first v ∷ h0) n (first + 4) t)
      (tail : (i : ℕ) → i < n → g i ≡ f (suc i)) where
    step-words : (i : ℕ) → i < suc n → last_word initial t (first + 4 * i) ≡ f i
    step-words zero l =
        ap (last_word initial t) {x = first + 4 * 0} {y = first} (omega arith)
        ∙ rest.1 first (inl (omega arith))
        ∙ filled_first first v h0
        ∙ head
    step-words (suc i) l =
        ap (last_word initial t) {x = first + 4 * suc i} {y = first + 4 + 4 * i} (omega arith)
        ∙ rest.0 i (omega arith)
        ∙ tail i (omega arith)

    outside_rest :
        (a : ℕ) → (a < first) ⊎ (first + 4 * suc n ≤ a) → (a < first + 4) ⊎ (first + 4 + 4 * n ≤ a)
    outside_rest a out = ground arith

    outside_word : (a : ℕ) → (a < first) ⊎ (first + 4 * suc n ≤ a) → (a < first) ⊎ (first + 4 ≤ a)
    outside_word a out = ground arith

    step-Filled : Filled f h (suc n) first t
    step-Filled = (
      step-words,
      λ a out.
          rest.1 a (outside_rest a out) ∙ filled_other first v a h0 (outside_word a out) ∙ kept a,
    )

  clear_words-Filled :
      (n first : ℕ) (h : Log)
      → first + 4 * n < 2 ^ 32
      → Returns (λ _ t. Filled (λ i. 0) h n first t) (clear_words n first h)
  unfolding clear_words
  clear_words-Filled zero first h fits = returns (λ i l. absurd (omega arith), λ a out. refl)
  clear_words-Filled (suc n) first h fits =
      let next : u32 (first + 4) ≡ first + 4 = omega arith in
      rw (next) (
        Returns_mono (clear_words-Filled n (first + 4) (write word first 0 ∷ h) (omega arith))
          λ _ t rest.
            step-Filled (λ i. 0) (λ i. 0) h h t n first 0 (λ a. refl) refl rest (λ i l. refl))

  module _ (env : Env) (stored : Stored env initial) where
    abbrev pub source : Log → ℕ → ℕ → ℕ
    source h src i = last_word initial h (src + 4 * i) % 2 ^ 32

    source-first : (src : ℕ) (h : Log) → env h word src % 2 ^ 32 % 2 ^ 32 ≡ source h src 0
    source-first src h =
        let twice : env h word src % 2 ^ 32 % 2 ^ 32 ≡ env h word src % 2 ^ 32 = omega arith in
        let at : src ≡ src + 4 * 0 = omega arith in
        twice ∙ ap (λ w. w % 2 ^ 32) (stored h src ∙ ap (last_word initial h) at)

    source-next :
        (src dst v i n : ℕ) (h : Log)
        → i < n
        → (src + 4 * suc n ≤ dst) ⊎ (dst + 4 * suc n ≤ src)
        → source (write word dst v ∷ read word src ∷ h) (src + 4) i ≡ source h src (suc i)
    unfolding last_word
    source-next src dst v i n h l apart =
        let at : src + 4 + 4 * i ≡ src + 4 * suc i = omega arith in
        let out : (src + 4 + 4 * i < dst) ⊎ (dst + 4 ≤ src + 4 + 4 * i) = ground arith in
        ap (λ w. w % 2 ^ 32)
          (filled_other dst v (src + 4 + 4 * i) (read word src ∷ h) out
            ∙ ap (last_word initial h) at)

    copy_words-Filled :
        (n src dst : ℕ) (h : Log)
        → src + 4 * n < 2 ^ 32
        → dst + 4 * n < 2 ^ 32
        → (src + 4 * n ≤ dst) ⊎ (dst + 4 * n ≤ src)
        → Returns (λ _ t. Filled (source h src) h n dst t) (copy_words env n src dst h)
    unfolding copy_words last_word
    copy_words-Filled zero src dst h fits room apart =
        returns (λ i l. absurd (omega arith), λ a out. refl)
    copy_words-Filled (suc n) src dst h fits room apart =
        let from : u32 (src + 4) ≡ src + 4 = omega arith in
        let to : u32 (dst + 4) ≡ dst + 4 = omega arith in
        let v = env h word src % 2 ^ 32 % 2 ^ 32 in
        let h0 = read word src ∷ h in
        rw (from, to)
          (Returns_mono
            (copy_words-Filled n (src + 4) (dst + 4) (write word dst v ∷ h0) (omega arith)
              (omega arith) (ground arith))
            λ _ t rest.
              step-Filled (source h src) (source (write word dst v ∷ h0) (src + 4)) h h0 t n dst v
                (λ a. refl) (source-first src h) rest (λ i l. source-next src dst v i n h l apart))

-- The sections lie apart, below the end of the address space.
pub record Placed (s : Sections) : Type 0 where
  pub data_fits : s.data_start + 4 * words_between s.data_start s.data_end < 2 ^ 32
  pub image_fits : s.image + 4 * words_between s.data_start s.data_end < 2 ^ 32
  pub bss_fits : s.bss_start + 4 * words_between s.bss_start s.bss_end < 2 ^ 32
  pub image_apart :
      (s.image + 4 * words_between s.data_start s.data_end ≤ s.data_start)
      ⊎ (s.data_start + 4 * words_between s.data_start s.data_end ≤ s.image)
  pub bss_above : s.data_start + 4 * words_between s.data_start s.data_end ≤ s.bss_start

module _ (initial : ℕ → ℕ) (env : Env) (s : Sections) (h t : Log) where
  -- The data are the image, and the rest is zero.
  pub record Loaded : Type 0 where
    pub data_loaded :
        (i : ℕ)
        → i < words_between s.data_start s.data_end
        → last_word initial t (s.data_start + 4 * i)
          ≡ last_word initial h (s.image + 4 * i) % 2 ^ 32
    pub bss_zero :
        (i : ℕ)
        → i < words_between s.bss_start s.bss_end
        → last_word initial t (s.bss_start + 4 * i) ≡ 0

-- On a memory that reads as it was written, and with sections that lie apart, the two loops before
-- `main` come back: the data section then holds its image and the section for zeros is zero.
pub load_sections-Loaded :
    (initial : ℕ → ℕ) (env : Env) (s : Sections) (h : Log)
    → Stored env initial
    → Placed s
    → Returns (λ _ t. Loaded initial env s h t) (load_sections env s h)
unfolding load_sections
load_sections-Loaded initial env s h stored placed =
    let n = words_between s.data_start s.data_end in
    let m = words_between s.bss_start s.bss_end in
    Returns-bind
      (copy_words-Filled initial env stored n s.image s.data_start h placed.image_fits
        placed.data_fits placed.image_apart)
      λ _ t copied.
        Returns_mono (clear_words-Filled initial m s.bss_start t placed.bss_fits) λ _ u cleared.
          record {
            data_loaded = λ i l.
                cleared.1 (s.data_start + 4 * i)
                  (inl (below s.data_start i n s.bss_start l placed.bss_above))
                ∙ copied.0 i l;
            bss_zero = cleared.0;
          }
  where
    below : (a i n b : ℕ) → i < n → a + 4 * n ≤ b → a + 4 * i < b
    below a i n b l le = omega arith

read-Stored :
    (initial : ℕ → ℕ) (env : Env) (h : Log) (a : ℕ)
    → Stored env initial
    → env h word a % 2 ^ 32 % 2 ^ 32 ≡ last_word initial h a % 2 ^ 32
read-Stored initial env h a stored =
    let twice : env h word a % 2 ^ 32 % 2 ^ 32 ≡ env h word a % 2 ^ 32 = omega arith in
    twice ∙ ap (λ w. w % 2 ^ 32) (stored h a)

-- Whatever the loops and the C library's initializers write, if the latter come back then `main` is
-- called with the first two words of the RAM as they were read at the start.
pub start_c-kept :
    (initial : ℕ → ℕ) (env : Env) (s : Sections) (init : M Log (Unit {0})) (h : Log)
    → Stored env initial
    → Placed s
    → Gives (λ _. Unit {0}) init
    → Returns
        (λ _ t.
          (last_word initial t (ram 0) ≡ last_word initial h (ram 0) % 2 ^ 32)
          × (last_word initial t (ram 4) ≡ last_word initial h (ram 4) % 2 ^ 32))
        (start_c env s init h)
unfolding start_c last_word
start_c-kept initial env s init h stored placed comes =
    Returns-bind
      (load_sections-Loaded initial env s (read word (ram 4) ∷ read word (ram 0) ∷ h) stored placed)
      λ _ t loaded. Returns-bind (comes.run t) λ _ u done. returns (
        read-Stored initial env h (ram 0) stored,
        read-Stored initial env (read word (ram 0) ∷ h) (ram 4) stored,
      )
