-- ===== src/Stage1/Boots.antt =====
-- Which images stage 1 runs.
use swindle_bootloader_gd.Common.{
  ℕ, ◌+◌, ◌*◌, ◌/◌, ◌%◌, ◌^◌, ◌<◌, ◌≡◌, ◌↔◌, ◌⊎◌, inl, inr, refl, sym, ◌∙◌, bit_and, bit_or, Bool,
  true, false, not, ◌&&◌, ◌||◌, Option, none, some, List, [], ◌∷◌, ltb, ltb→lt, ◌==◌, ==→eq, eq→==,
  if◌then◌else◌, Bool-cases, arith, pure, ◌>>=◌, Returns, returns, Returns-bind, Returns-if,
}
use swindle_bootloader_gd.Bus.{word, read, write, Log, Env}
use swindle_bootloader_gd.Device.{start_addr}
use swindle_bootloader_gd.Board.{port_istat}
use swindle_bootloader_gd.Stage1.{
  ram_start_addr, force_dfu_io, marker_low, marker_high, Jump, copy_bytes, chain_to, ch32_crc,
  check_image, go_on,
}
use swindle_bootloader_gd.Stage1.Memory.{
  Memory, CrcUnit, words, Tells, Tells-pure, Tells-bind, Tells-if, ch32_crc-words,
}

-- The force pin reads the same all along.
abbrev pub Level : Env → ℕ → Type 0
Level env pins = (h : Log) → env h word (port_istat force_dfu_io) ≡ pins

abbrev pub word_of : (ℕ → ℕ) → ℕ → ℕ
word_of initial a = initial a % 2 ^ 32

-- The image has a size below 256 kB, and the checksum of its words or the pair of values that stands
-- for none.
pub record IsSound (initial : ℕ → ℕ) (crc : List ℕ → ℕ) (size checksum : ℕ) : Type 0 where
  pub small : size < 256 * 1024
  pub sum :
      ((size ≡ 0x1234) × (checksum ≡ 0x5678))
      ⊎ (crc (words initial (start_addr + 16) (size / 4)) % 2 ^ 32 ≡ checksum)

-- The image that stage 1 runs: nobody asked for the DFU mode, by the marker or the pin, the first
-- word points to RAM, and the image is sound.
pub record IsBootable (initial : ℕ → ℕ) (crc : List ℕ → ℕ) (asked high : Bool) : Type 0 where
  pub unasked : asked ≡ false
  pub released : high ≡ true
  pub stack : word_of initial start_addr / 2 ^ 20 ≡ 0x200
  pub sound :
      IsSound initial crc (word_of initial (start_addr + 8)) (word_of initial (start_addr + 12))

abbrev pub is_marked : (ℕ → ℕ) → Bool
is_marked initial =
    (word_of initial ram_start_addr == marker_low)
    && (word_of initial (ram_start_addr + 4) == marker_high)

abbrev pub is_high : ℕ → Bool
is_high pins = not (bit_and (pins % 2 ^ 32) (2 ^ 14) == 0)

-- `go_dfu` before the image is checked
abbrev pub first_go : Bool → Bool → ℕ → ℕ
first_go asked high sig =
    let go : ℕ = if asked then 1 else 0 in
    let pressed : ℕ = if high then go else bit_or go 1 in
    if (pressed == 0) && not (sig / 2 ^ 20 == 0x200) then bit_or pressed 2 else pressed

pub first_go-zero :
    (asked high : Bool) (sig : ℕ)
    → (first_go asked high sig ≡ 0) ↔ ((asked ≡ false) × (high ≡ true) × (sig / 2 ^ 20 ≡ 0x200))
first_go-zero true true sig = ((λ e. absurd (omega arith)), λ (p, q, r). cc)
first_go-zero true false sig = ((λ e. absurd (omega arith)), λ (p, q, r). cc)
first_go-zero false false sig = ((λ e. absurd (omega arith)), λ (p, q, r). cc)
first_go-zero false true sig = (
  (λ e. elim (Bool-cases (sig / 2 ^ 20 == 0x200)) [
    | inl is ↦ (refl, refl, ==→eq (sig / 2 ^ 20) 0x200 is)
    | inr isnt ↦ absurd (bad (sig / 2 ^ 20 == 0x200) isnt e)
  ]),
  λ (p, q, r). rw (eq→== (sig / 2 ^ 20) 0x200 r) refl,
)
  where
    bad : (b : Bool) → b ≡ false → ◌≡◌ {A = ℕ} (if not b then 2 else 0) 0 → ⊥
    bad true f e = cc
    bad false f e = absurd (omega (arith, e))

-- The last word written to an address.
unfoldable pub last_word : ℕ → Log → Option ℕ
last_word a [] = none
last_word a (read w b ∷ h) = last_word a h
last_word a (write w b v ∷ h) = let earlier = last_word a h in if a == b then some v else earlier

abbrev pub app_address : ℕ
app_address = bit_and start_addr 0xffff_fff0

abbrev pub IsCleared : Log → Type 0
IsCleared h = (last_word ram_start_addr h ≡ some 0) × (last_word (ram_start_addr + 4) h ≡ some 0)

-- The end of a run that was decided by `result`.
abbrev pub Ends : ℕ → Jump → Log → Type 0
Ends result j h = ((j.base ≡ app_address) ↔ (result ≡ 0)) × (j.base ≡ app_address → IsCleared h)

copy_bytes-Returns :
    (p : ℕ) (bytes : List ℕ) (h : Log) → Returns (λ _ _. Unit {0}) (copy_bytes p bytes h)
unfolding copy_bytes
copy_bytes-Returns p [] h = returns tt
copy_bytes-Returns p (b ∷ bytes) h = copy_bytes-Returns (p + 1) bytes _

pub go_on-Ends :
    (env : Env) (payload : List ℕ) (result : ℕ) (t : Log)
    → IsCleared t
    → Returns (Ends result) (go_on env payload result t)
unfolding go_on chain_to last_word
go_on-Ends env payload result t clear =
    Returns-if (result == 0) _ _ t (λ e. returns (((λ _. ==→eq result 0 e), λ _. refl), λ _. clear))
      (λ e. Returns-bind (copy_bytes-Returns ram_start_addr payload t) λ _ u _. returns (
        ((λ f. absurd (omega (arith, f))), λ z. absurd (nonzero result e z)),
        λ f. absurd (omega (arith, f)),
      ))
  where
    nonzero : (n : ℕ) → (n == 0) ≡ false → n ≡ 0 → ⊥
    nonzero n f z = ground arith

module _ (env : Env) (initial : ℕ → ℕ) (memory : Memory env initial) (crc : List ℕ → ℕ)
    (unit : CrcUnit env crc) where
  unstopped-Tells :
      (size checksum : ℕ)
      → Tells
          (λ r. (r ≡ 0) ↔ ((◌≡◌ {A = ℕ} 0 0) × IsSound initial crc size checksum))
          (if ltb size (256 * 1024)
            then (if not (size == 0x1234) || not (checksum == 0x5678)
                then (do
                  computed ← ch32_crc env (start_addr + 16) (size / 4)
                  pure (if computed == checksum then 0 else bit_or 0 4))
                else pure 0)
            else pure 1)
  unstopped-Tells size checksum =
      Tells-if (ltb size (256 * 1024))
        (λ e.
          let small = ltb→lt size (256 * 1024) e in
          Tells-if (not (size == 0x1234) || not (checksum == 0x5678))
            (λ hashed.
              Tells-bind
                (ch32_crc-words env initial memory crc (start_addr + 16) (size / 4) unit
                  (omega (arith, small)))
                λ computed is. compared small hashed computed is)
            (λ exempt. Tells-pure 0 (
              (λ _. (refl, record { small = small; sum = inl (unhashed size checksum exempt) })),
              λ _. refl,
            )))
        (λ e.
          Tells-pure 1 ((λ f. absurd (omega (arith, f))), λ (f, s). absurd (large size e s.small)))
    where
      large : (n : ℕ) → ltb n (256 * 1024) ≡ false → n < 256 * 1024 → ⊥
      large n f lt = ground arith

      unhashed :
          (a b : ℕ) → (not (a == 0x1234) || not (b == 0x5678)) ≡ false → (a ≡ 0x1234) × (b ≡ 0x5678)
      unhashed a b f = ground arith

      compared :
          size < 256 * 1024
          → (not (size == 0x1234) || not (checksum == 0x5678)) ≡ true
          → (computed : ℕ) → computed ≡ crc (words initial (start_addr + 16) (size / 4)) % 2 ^ 32
          → Tells
              (λ r. (r ≡ 0) ↔ ((◌≡◌ {A = ℕ} 0 0) × IsSound initial crc size checksum))
              (pure (if computed == checksum then 0 else bit_or 0 4))
      compared small hashed computed is = elim (Bool-cases (computed == checksum)) [
        | inl same ↦ rw same (
            Tells-pure 0 (
              (λ _. (
                refl,
                record { small = small; sum = inr (sym is ∙ ==→eq computed checksum same) },
              )),
              λ _. refl,
            ))
        | inr other ↦ rw other (
            Tells-pure 4 (
              (λ f. absurd (omega (arith, f))),
              λ (f, s). absurd (elim s.sum [
                | inl (p, q) ↦ ground (arith, hashed)
                | inr q ↦ ground (arith, is, other, q)
              ]),
            ))
      ]

  pub check_image-Tells :
      (go size checksum : ℕ)
      → Tells
          (λ r. (r ≡ 0) ↔ ((go ≡ 0) × IsSound initial crc size checksum))
          (check_image env go size checksum)
  unfolding check_image
  check_image-Tells go size checksum =
      Tells-if (not (go == 0))
        (λ e. Tells-pure go ((λ z. absurd (stopped go e z)), λ (z, s). absurd (stopped go e z)))
        (λ e. let z : go ≡ 0 = ground (arith, e) in rw z (unstopped-Tells size checksum))
    where
      stopped : (n : ℕ) → not (n == 0) ≡ true → n ≡ 0 → ⊥
      stopped n e z = ground arith
