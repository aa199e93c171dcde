-- ===== src/Strings/Serial.antt =====
-- The serial number of dfu.cpp says which chip it is.
use swindle_bootloader_gd.Common.{
  ℕ, zero, suc, ◌+◌, ◌-◌, ◌*◌, ◌/◌, ◌%◌, ◌^◌, ◌<◌, ◌≡◌, refl, List, [], ◌∷◌, ◌++◌, ltb,
  if◌then◌else◌, arith, length, length-append, take, drop, returns, Gives, Gives-pure, Gives-bind,
}
use swindle_bootloader_gd.Bus.{byte, Log, Env}
use swindle_bootloader_gd.Strings.{hcharset, hex_bytes, get_dev_unique_id}

-- The value of a lower-case hexadecimal digit, and the bytes of pairs of digits.
abbrev pub hex_value : ℕ → ℕ
hex_value c = if ltb c 58 then c - 48 else c - 87

unfoldable pub unhex : ℕ → List ℕ → List ℕ
unhex zero s = []
unhex (suc n) (a ∷ b ∷ s) = (hex_value a * 16 + hex_value b) ∷ unhex n s
unhex (suc n) s = []

hex_value-hcharset : (n : ℕ) → n < 16 → hex_value (hcharset n) ≡ n
hex_value-hcharset n lt = ground arith

-- `n` bytes of the chip's identification
unfoldable pub id_bytes : (ℕ → ℕ) → ℕ → ℕ → List ℕ
id_bytes id p zero = []
id_bytes id p (suc n) = id p % 2 ^ 8 ∷ id_bytes id (p + 1) n

module _ (env : Env) (id : ℕ → ℕ) (fixed : (h : Log) (p : ℕ) → env h byte p ≡ id p) where
  hex_bytes-unhex :
      (n p : ℕ) (tail : List ℕ)
      → Gives
          (λ s. (unhex n (s ++ tail) ≡ id_bytes id p n) × (length s ≡ 2 * n))
          (hex_bytes env n p)
  unfolding hex_bytes unhex id_bytes
  hex_bytes-unhex zero p tail = Gives-pure [] (refl, refl)
  hex_bytes-unhex (suc n) p tail =
      Gives-bind {P = λ c. c ≡ id p % 2 ^ 8}
        (record { run = λ h. let e = fixed h p in returns (rw e refl) })
        λ c e. Gives-bind (hex_bytes-unhex n (p + 1) tail) λ rest (back, len).
          let lt : c < 256 = omega (arith, e) in
          let high = hex_value-hcharset (c / 16 % 16) (omega arith) in
          let low = hex_value-hcharset (c % 16) (omega arith) in
          let whole : c / 16 % 16 * 16 + c % 16 ≡ c = omega (arith, lt) in
          Gives-pure (hcharset (c / 16 % 16) ∷ hcharset (c % 16) ∷ rest)
            (rw (high, low, whole, e, back) refl, omega (arith, len))

  -- The serial number has 26 bytes: `SWIND_`, the nine bytes of the chip's identification in
  -- hexadecimal, which can be read back from it, and zeros. The identification does not change.
  pub unique_id-unhex :
      Gives
        (λ s.
          (take 6 s ≡ 83 ∷ 87 ∷ 73 ∷ 78 ∷ 68 ∷ 95 ∷ [])
          × (unhex 9 (drop 6 s) ≡ id_bytes id 0x1FFFF7E8 9)
          × (length s ≡ 26))
        (get_dev_unique_id env)
  unfolding get_dev_unique_id
  unique_id-unhex = Gives-bind (hex_bytes-unhex 9 0x1FFFF7E8 (0 ∷ 0 ∷ [])) λ digits (back, len).
      Gives-pure (83 ∷ 87 ∷ 73 ∷ 78 ∷ 68 ∷ 95 ∷ digits ++ (0 ∷ 0 ∷ []))
        (refl, back, omega (arith, length-append digits (0 ∷ 0 ∷ []), len))
