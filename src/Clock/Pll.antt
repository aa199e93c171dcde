-- ===== src/Clock/Pll.antt =====
-- What `setPll` configures: the fields of the word that it writes, and the factor they stand for.
use swindle_bootloader_gd.Common.{
  ℕ, zero, suc, ◌+◌, ◌-◌, ◌*◌, ◌^◌, ◌≤◌, ◌<◌, ◌≡◌, ◌≢◌, refl, ◌∙◌, bit_and, bit_or, Bool, true,
  false, ◌&&◌, some, ltb, leb, ◌==◌, ◌||◌, List, [], ◌∷◌, ◌⊎◌, length, get_or, if◌then◌else◌, arith,
  get_elem?, digit, digit-and, digit-or, digit-small, digit-masked, all_below, below-holds,
}
use swindle_bootloader_gd.Clock.{multipliers, pll_config}

-- Masks of one digit.
abbrev one_law : ℕ → ℕ → Bool
one_law j n =
    if n == j
    then digit n (0xffff_ffff - 2 ^ j) == 0 && digit n (2 ^ j) == 1
    else digit n (0xffff_ffff - 2 ^ j) == 1 && digit n (2 ^ j) == 0

one_test : all_below 32 (λ j. all_below 32 (one_law j)) ≡ true
one_test = refl

one-law : (j n : ℕ) → j < 32 → n < 32 → one_law j n ≡ true
one-law j n h l =
    below-holds 32 n (one_law j) l (below-holds 32 j (λ i. all_below 32 (one_law i)) h one_test)

clear-digit :
    (j n a : ℕ)
    → j < 32
    → n < 32
    → digit n (bit_and a (0xffff_ffff - 2 ^ j)) ≡ (if n == j then 0 else digit n a)
clear-digit j n a h l =
    let law = one-law j n h l in
    let both = digit-and n a (0xffff_ffff - 2 ^ j) in let small = digit-small n a in ground arith

raise-digit :
    (j n a : ℕ) → j < 32 → n < 32 → digit n (bit_or a (2 ^ j)) ≡ (if n == j then 1 else digit n a)
raise-digit j n a h l =
    let law = one-law j n h l in
    let both = digit-or n a (2 ^ j) in let small = digit-small n a in ground arith

-- The field of four digits.
abbrev in_field : ℕ → Bool
in_field n = leb 18 n && ltb n 22

abbrev factor_law : ℕ → ℕ → Bool
factor_law factor n =
    if in_field n
    then digit n (0xffff_ffff - 15 * 2 ^ 18) == 0
      && digit n (bit_and factor 15 * 2 ^ 18) == digit (n - 18) factor
    else digit n (0xffff_ffff - 15 * 2 ^ 18) == 1 && digit n (bit_and factor 15 * 2 ^ 18) == 0

factor_test : all_below 32 (λ factor. all_below 32 (factor_law factor)) ≡ true
factor_test = refl

abbrev high_law : ℕ → Bool
high_law factor = if bit_and factor 16 == 0 then digit 4 factor == 0 else digit 4 factor == 1

high_test : all_below 32 high_law ≡ true
high_test = refl

field-digit :
    (factor n c0 : ℕ)
    → factor < 32
    → n < 32
    → digit n (bit_or (bit_and c0 (0xffff_ffff - 15 * 2 ^ 18)) (bit_and factor 15 * 2 ^ 18))
      ≡ (if in_field n then digit (n - 18) factor else digit n c0)
field-digit factor n c0 h l =
    let law =
      below-holds 32 n (factor_law factor) l
        (below-holds 32 factor (λ f. all_below 32 (factor_law f)) h factor_test) in
    let masked = digit-masked n c0 (0xffff_ffff - 15 * 2 ^ 18) (bit_and factor 15 * 2 ^ 18) in
    ground arith

module _ (c0 factor n : ℕ) (small : factor < 32) (below : n < 32) where
  abbrev with_field : ℕ
  with_field = bit_or (bit_and c0 (0xffff_ffff - 15 * 2 ^ 18)) (bit_and factor 15 * 2 ^ 18)

  abbrev with_high : ℕ
  with_high =
      if bit_and factor 16 == 0
      then bit_and with_field (0xffff_ffff - 2 ^ 27)
      else bit_or with_field (2 ^ 27)

  high-digit : digit n with_high ≡ (
      if n == 27
      then digit 4 factor
      else (if in_field n then digit (n - 18) factor else digit n c0))
  high-digit =
      let law = below-holds 32 factor high_law small high_test in
      let field = field-digit factor n c0 small below in
      let clear = clear-digit 27 n with_field (omega arith) below in
      let raise = raise-digit 27 n with_field (omega arith) below in ground arith

  pll_config-digit :
      (external : Bool)
      → digit n (pll_config c0 factor external) ≡ (
          if n == 16
          then (if external then 1 else 0)
          else (if n == 27
              then digit 4 factor
              else (if in_field n then digit (n - 18) factor else digit n c0)))
  unfolding pll_config
  pll_config-digit true =
      let high = high-digit in
      let raise = raise-digit 16 n with_high (omega arith) below in ground arith
  pll_config-digit false =
      let high = high-digit in
      let clear = clear-digit 16 n with_high (omega arith) below in ground arith

-- The number that the five digits of the PLL's factor make, and the factor that the clock unit
-- multiplies by: from 2 on, with 16 twice.
abbrev pub pll_code : ℕ → ℕ
pll_code cfg =
    digit 18 cfg + 2 * digit 19 cfg + 4 * digit 20 cfg + 8 * digit 21 cfg + 16 * digit 27 cfg

abbrev pub pll_factor : ℕ → ℕ
pll_factor code = if ltb code 15 then code + 2 else if code == 15 then 16 else code + 1

abbrev entry : ℕ → ℕ
entry m = get_or 0 multipliers m

abbrev entry_law : ℕ → Bool
entry_law m =
    let f = entry m in
    ltb f 32
    && (ltb m 2
        || pll_factor (digit 0 f + 2 * digit 1 f + 4 * digit 2 f + 8 * digit 3 f + 16 * digit 4 f)
          == (if m == 15 then 14 else m))

entry_test : all_below 25 entry_law ≡ true
entry_test = refl

pub found : (xs : List ℕ) (i : ℕ) → i < length xs → get_elem? xs i ≡ some (get_or 0 xs i)
found [] i h = absurd (omega arith)
found (x ∷ xs) zero h = refl
found (x ∷ xs) (suc i) h = found xs i (omega arith)

-- For each multiplier from 2 to 24, the word that `setPll` writes has the digits of the PLL's factor
-- such that the clock unit multiplies by that multiplier; only for 15 it multiplies by 14. The digit
-- of the source is the one asked for, and all other digits of the word are those that were read.
pub pll_config-factor :
    (c0 m : ℕ) (external : Bool)
    → 2 ≤ m
    → m < 25
    → (factor : ℕ) × (get_elem? multipliers m ≡ some factor)
      × (pll_factor (pll_code (pll_config c0 factor external)) ≡ (if m == 15 then 14 else m))
      × (digit 16 (pll_config c0 factor external) ≡ (if external then 1 else 0))
      × ((n : ℕ)
          → n < 32
          → (n < 16) ⊎ (n ≡ 17) ⊎ (22 ≤ n)
          → n ≢ 27
          → digit n (pll_config c0 factor external) ≡ digit n c0)
pll_config-factor c0 m external low high =
    let f = entry m in
    let law = below-holds 25 m entry_law high entry_test in
    let small : f < 32 = ground arith in
    let d = λ (n : ℕ) (below : n < 32). pll_config-digit c0 f n small below external in
    let d18 = d 18 (omega arith) in
    let d19 = d 19 (omega arith) in
    let d20 = d 20 (omega arith) in
    let d21 = d 21 (omega arith) in
    let d27 = d 27 (omega arith) in
    (
      f,
      found multipliers m high,
      rw (d18, d19, d20, d21, d27) (ground arith),
      d 16 (omega arith),
      λ n below other not_high. d n below ∙ ground arith,
    )
