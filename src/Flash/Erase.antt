-- ===== src/Flash/Erase.antt =====
-- The erasing routines of src_stage2/flash.h leave blank pages, and the other pages as they were.
use native.Mathlib.Nat.{mod-eq_of_lt}
use swindle_bootloader_gd.Common.{
  ℕ, zero, suc, ◌+◌, ◌-◌, ◌*◌, ◌/◌, ◌%◌, ◌^◌, ◌≤◌, ◌<◌, ◌≡◌, refl, sym, ap, ◌∙◌, bit_and, bit_or,
  bit_or-small, bit_and-small, digit, digit-or, digit-and, Bool, true, false, inl, inr, ◌⊎◌, some,
  ◌∷◌, ltb, ltb→lt, geb→ltb, ◌==◌, ==→eq, Bool-cases, if◌then◌else◌, arith, u32, pure, Returns,
  returns, Returns-bind, Returns_mono, Returns-if,
}
use swindle_bootloader_gd.Bus.{word, read, write, Log, Env, modulus}
use swindle_bootloader_gd.Clock.Waits.{latest, digit-set}
use swindle_bootloader_gd.Flash.{
  flash_cr, flash_ar, flash_wait_for_last_operation, flash_erase_page, words_are_erased,
  flash_page_is_erased, erase_pages,
}
use swindle_bootloader_gd.Flash.Settles.{Settles, Polled, wait-Polled}
use swindle_bootloader_gd.Flash.Program.{periph_base}
use swindle_bootloader_gd.Flash.Cells.{
  cells, word_of, NorFlash, cells-lt, cells-polls, control-kept, erase-inside, erase-outside,
}

-- From `from` up to `to` the flash is blank, and outside of `from` up to `top` as it was.
pub record Blank (size : ℕ) (rom : ℕ → ℕ) (from to top : ℕ) (h t : Log) : Type 0 where
  pub blank : (x : ℕ) → from ≤ x → x < to → cells size rom t x ≡ 255
  pub kept : (x : ℕ) → (x < from) ⊎ (top ≤ x) → cells size rom t x ≡ cells size rom h x

pub waited :
    (env : Env) (fuel : ℕ) (settles : Settles env fuel) (h : Log)
    → Returns (λ _ t. Polled h t) (flash_wait_for_last_operation env fuel h)
waited env fuel settles h = let (k, lt, ready) = settles h in wait-Polled env fuel k h lt ready

pub digit-unset :
    (n v bits : ℕ)
    → v < 2 ^ 32
    → bits < 2 ^ 32
    → digit n v ≡ 0
    → digit n bits ≡ 0
    → digit n (bit_or v bits % modulus word) ≡ 0
digit-unset n v bits small fits e d =
    rw (mod-eq_of_lt (bit_or-small 32 v bits small fits)) (omega (arith, digit-or n v bits))

digit-other :
    (n v bits : ℕ)
    → v < 2 ^ 32
    → bits < 2 ^ 32
    → digit n bits ≡ 0
    → digit n (bit_or v bits % modulus word) ≡ digit n v
digit-other n v bits small fits d =
    rw (mod-eq_of_lt (bit_or-small 32 v bits small fits)) (omega (arith, digit-or n v bits))

pub digit-cleared :
    (n v mask : ℕ) → v < 2 ^ 32 → digit n v ≡ 0 → digit n (bit_and v mask % modulus word) ≡ 0
digit-cleared n v mask small e =
    rw (mod-eq_of_lt (bit_and-small 32 v mask small)) (omega (arith, digit-and n v mask))

place_cases : (a x : ℕ) → a ≤ x → x < a + 4 → (x ≡ a) ⊎ (x ≡ a + 1) ⊎ (x ≡ a + 2) ⊎ (x ≡ a + 3)
place_cases a x low high = ground arith

-- A word of ones is four blank bytes.
ones_blank :
    (f : ℕ → ℕ) (a x : ℕ)
    → ((y : ℕ) → f y < 256)
    → word_of f a ≡ 0xffff_ffff
    → a ≤ x
    → x < a + 4
    → f x ≡ 255
ones_blank f a x small e low high =
    let b0 = small a in
    let b1 = small (a + 1) in
    let b2 = small (a + 2) in
    let b3 = small (a + 3) in
    elim (place_cases a x low high) [
      | inl p ↦ rw p (omega (arith, e, b0, b1, b2, b3))
      | inr (inl p) ↦ rw p (omega (arith, e, b0, b1, b2, b3))
      | inr (inr (inl p)) ↦ rw p (omega (arith, e, b0, b1, b2, b3))
      | inr (inr (inr p)) ↦ rw p (omega (arith, e, b0, b1, b2, b3))
    ]

page_facts :
    (size page top : ℕ)
    → (size ≡ 1024) ⊎ (size ≡ 2048)
    → page % size ≡ 0
    → top % size ≡ 0
    → page < top
    → (page + size ≤ top) × (4 * (size / 4) ≡ size) × ((page + size) % size ≡ 0)
page_facts size page top sized whole last lt = elim sized [
  | inl e ↦ rw e (small (rw e at whole) (rw e at last))
  | inr e ↦ rw e (large (rw e at whole) (rw e at last))
]
  where
    small :
        page % 1024 ≡ 0
        → top % 1024 ≡ 0
        → (page + 1024 ≤ top) × (4 * (1024 / 4) ≡ 1024) × ((page + 1024) % 1024 ≡ 0)
    small w l = omega arith

    large :
        page % 2048 ≡ 0
        → top % 2048 ≡ 0
        → (page + 2048 ≤ top) × (4 * (2048 / 4) ≡ 2048) × ((page + 2048) % 2048 ≡ 0)
    large w l = omega arith

module _ (env : Env) (size : ℕ) (rom : ℕ → ℕ) (nor : NorFlash env size rom) where
  -- The test of a page, which reads only: what it finds is there.
  words-blank :
      (n p : ℕ) (h : Log)
      → p + 4 * n ≤ periph_base
      → Returns
          (λ b t.
            (b ≡ true → (x : ℕ) → p ≤ x → x < p + 4 * n → cells size rom h x ≡ 255)
            × ((x : ℕ) → cells size rom t x ≡ cells size rom h x))
          (words_are_erased env n p h)
  unfolding words_are_erased cells
  words-blank zero p h fits = returns (λ e x low high. absurd (omega arith), λ x. refl)
  words-blank (suc n) p h fits =
      let v = env h word p % modulus word in
      let next : u32 (p + 4) ≡ p + 4 = omega arith in
      Returns-if (v == 0xffff_ffff) (words_are_erased env n (u32 (p + 4))) (pure false)
        (read word p ∷ h)
        (λ yes. rw next (
          Returns_mono (words-blank n (p + 4) (read word p ∷ h) (omega arith)) λ b t (found, kept).
            (
              λ e x low high. elim (below_or x (p + 4)) [
                | inl first ↦
                    ones_blank (cells size rom h) p x (cells-lt size rom nor.bytes h)
                      (sym (nor.reading h p (omega arith)) ∙ ==→eq v 0xffff_ffff yes) low first
                | inr rest ↦ found e x rest (omega arith)
              ],
              kept,
            )))
        (λ no. returns (λ e. absurd (ground arith), λ x. refl))
    where
      below_or : (x y : ℕ) → (x < y) ⊎ (y ≤ x)
      below_or x y = ground arith

  module _ (fuel : ℕ) (settles : Settles env fuel) where
    erase_page-Blank :
        (page : ℕ) (h : Log)
        → page % size ≡ 0
        → page < 2 ^ 32
        → Returns
            (λ _ t. Blank size rom page (page + size) (page + size) h t)
            (flash_erase_page env fuel page h)
    unfolding flash_erase_page cells latest
    erase_page-Blank page h whole small = Returns-bind (waited env fuel settles h) λ _ t1 (n, e1).
        let r1 = env t1 word flash_cr % modulus word in
        let v1 = bit_or r1 2 % modulus word in
        let s2 : Log =
          write word flash_ar (page % modulus word)
          ∷ write word flash_cr v1
          ∷ read word flash_cr
          ∷ t1 in
        let r2 = env s2 word flash_cr % modulus word in
        let v2 = bit_or r2 0x40 % modulus word in
        let s3 : Log = write word flash_cr v2 ∷ read word flash_cr ∷ s2 in
        let set : digit 6 v2 ≡ 1 = digit-set 6 r2 0x40 (omega arith) (omega arith) refl in
        let per : digit 1 v2 ≡ 1 =
          digit-other 1 r2 0x40 (omega arith) (omega arith) refl
          ∙ nor.per s2 v1 refl
          ∙ digit-set 1 r1 2 (omega arith) (omega arith) refl in
        let calm : digit 6 v1 ≡ 0 =
          digit-unset 6 r1 2 (omega arith) (omega arith) (nor.strt t1) refl in
        let named : latest flash_ar (read word flash_cr ∷ s2) ≡ some page =
          ap some (mod-eq_of_lt small) in
        Returns-bind (waited env fuel settles s3) λ _ t2 (m, e2).
          let r3 = env t2 word flash_cr % modulus word in
          let v3 = bit_and r3 (0xffff_ffff - 2) % modulus word in
          let end = λ (x : ℕ).
            control-kept size rom word v3 (read word flash_cr ∷ t2) x
              (digit-cleared 6 r3 (0xffff_ffff - 2) (omega arith) (nor.strt t2))
            ∙ ap (λ t. cells size rom t x) e2
            ∙ cells-polls size rom m s3 x in
          let begin = λ (x : ℕ).
            control-kept size rom word v1 (read word flash_cr ∷ t1) x calm
            ∙ ap (λ t. cells size rom t x) e1
            ∙ cells-polls size rom n h x in
          returns (record {
            blank = λ x low high.
                end x
                ∙ erase-inside size rom word v2 page (read word flash_cr ∷ s2) x set per named whole
                    low high;
            kept = λ x out.
                end x
                ∙ erase-outside size rom word v2 page (read word flash_cr ∷ s2) x set per named
                    whole out
                ∙ begin x;
          })

    -- The page is erased unless it was found blank.
    clear_page-Blank :
        (b : Bool) (page : ℕ) (h t : Log)
        → page % size ≡ 0
        → page < 2 ^ 32
        → (b ≡ true → (x : ℕ) → page ≤ x → x < page + size → cells size rom h x ≡ 255)
        → ((x : ℕ) → cells size rom t x ≡ cells size rom h x)
        → Returns
            (λ _ u. Blank size rom page (page + size) (page + size) h u)
            ((if b then pure tt else flash_erase_page env fuel page) t)
    clear_page-Blank true page h t whole small found kept =
        returns
          (record { blank = λ x low high. kept x ∙ found refl x low high; kept = λ x out. kept x })
    clear_page-Blank false page h t whole small found kept =
        Returns_mono (erase_page-Blank page t whole small)
          λ _ u e. record { blank = e.blank; kept = λ x out. e.kept x out ∙ kept x }

    -- The loop over the pages, from the start of one to any address up to the end of a page.
    pub erase_pages-Blank :
        (k page to top : ℕ) (h : Log)
        → (size ≡ 1024) ⊎ (size ≡ 2048)
        → page % size ≡ 0
        → top % size ≡ 0
        → to ≤ top
        → top + 4096 ≤ periph_base
        → to ≤ page + k
        → Returns
            (λ _ t. Blank size rom page to top h t)
            (erase_pages env fuel size (suc k) page to h)
    unfolding erase_pages flash_page_is_erased
    erase_pages-Blank zero page to top h sized whole last ends cap enough =
        rw (geb→ltb page to (omega arith))
          (returns (record { blank = λ x low high. absurd (omega arith); kept = λ x out. refl }))
    erase_pages-Blank (suc k) page to top h sized whole last ends cap enough =
        elim (Bool-cases (ltb page to)) [
          | inr out ↦
              let done : to ≤ page = ground arith in
              rw out (
                returns
                  (record { blank = λ x low high. absurd (omega arith); kept = λ x out. refl }))
          | inl more ↦
              let lt : page < to = ltb→lt page to more in
              let (fits, words, next) = page_facts size page top sized whole last (omega arith) in
              let no_wrap : u32 (page + size) ≡ page + size = omega arith in
              let on : to ≤ page + size + k = ground (arith, sized) in
              rw (more, no_wrap)
                (Returns-bind (words-blank (size / 4) page h (omega arith)) λ b t1 (found, kept).
                  Returns-bind
                    (clear_page-Blank b page h t1 whole (omega arith)
                      (λ e x low high. found e x low (omega arith)) kept)
                    λ _ t2 c.
                      Returns_mono
                        (erase_pages-Blank k (page + size) to top t2 sized next last ends cap on)
                        λ _ t3 r. record {
                          blank = λ x low high. elim (below_or x (page + size)) [
                            | inl first ↦ r.kept x (inl first) ∙ c.blank x low first
                            | inr rest ↦ r.blank x rest high
                          ];
                          kept = λ x out.
                              r.kept x (outside x page top size out)
                              ∙ c.kept x (beyond x page top size fits out);
                        })
        ]
      where
        below_or : (x y : ℕ) → (x < y) ⊎ (y ≤ x)
        below_or x y = ground arith

        outside : (x page top size : ℕ) → (x < page) ⊎ (top ≤ x) → (x < page + size) ⊎ (top ≤ x)
        outside x page top size out = ground arith

        beyond :
            (x page top size : ℕ)
            → page + size ≤ top
            → (x < page) ⊎ (top ≤ x)
            → (x < page) ⊎ (page + size ≤ x)
        beyond x page top size fits out = ground arith
