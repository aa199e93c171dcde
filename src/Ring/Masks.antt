-- ===== src/Ring/Masks.antt =====
-- The well-formed rings: a size that is a power of two, offsets inside it, and what the masked
-- sums of the methods come to.
use native.Mathlib.Nat.{pow-le-pow_right}
use swindle_bootloader_gd.Common.{
  ℕ, ◌+◌, ◌-◌, ◌*◌, ◌^◌, ◌≤◌, ◌<◌, ◌≡◌, refl, ap, ◌∙◌, bit_and, true, false, List, ◌++◌, arith, ltb,
  ◌==◌, if◌then◌else◌, length, take, drop, bit_and-fits, bit_and-wraps,
}
use swindle_bootloader_gd.Ring.{Ring, sub32, count, free, get_write_pointer, get_read_pointer}

pub record IsRing (r : Ring) : Type 0 where
  pub power : ℕ
  pub small : power < 32
  pub sized : r.size ≡ 2 ^ power
  pub masked : r.mask ≡ 2 ^ power - 1
  pub head_in : r.head < r.size
  pub tail_in : r.tail < r.size
  pub filled : length r.buffer ≡ r.size

module _ (r : Ring) where
  -- The bytes in the ring, oldest first.
  unfoldable pub contents : List ℕ
  contents =
      if ltb r.head r.tail
      then drop r.tail r.buffer ++ take r.head r.buffer
      else take (r.head - r.tail) (drop r.tail r.buffer)

  -- Their number, without the masks.
  abbrev pub held : ℕ
  held = if ltb r.head r.tail then r.size + r.head - r.tail else r.head - r.tail

  abbrev pub room : ℕ
  room = (get_write_pointer r).1

  abbrev pub ready : ℕ
  ready = (get_read_pointer r).1

module _ (r : Ring) (ok : IsRing r) where
  pub size-bound : r.size ≤ 2 ^ 31
  size-bound =
      let pow = pow-le-pow_right {n = 2} (omega arith) {i = ok.power} {j = 31} (omega arith) in
      omega arith

  masked-fits : (a : ℕ) → a < r.size → bit_and a r.mask ≡ a
  masked-fits a h = ap (λ m. bit_and a m) ok.masked ∙ bit_and-fits ok.power a (omega arith)

  masked-wraps : (a : ℕ) → r.size ≤ a → a < 2 * r.size → bit_and a r.mask ≡ a - r.size
  masked-wraps a h k =
      let e : a ≡ 2 ^ ok.power + (a - r.size) = omega arith in
      let under : a - r.size < 2 ^ ok.power = omega arith in
      ap (λ b. bit_and b r.mask) e
      ∙ ap (λ m. bit_and (2 ^ ok.power + (a - r.size)) m) ok.masked
      ∙ bit_and-wraps ok.power (a - r.size) under

  -- A sum that stays below twice the size, masked.
  pub masked-once :
      (a : ℕ) → a < 2 * r.size → bit_and a r.mask ≡ (if ltb a r.size then a else a - r.size)
  masked-once a h = let fits = masked-fits a in let wraps = masked-wraps a in grind arith

  pub count-held : count r ≡ held r
  unfolding count
  count-held =
      let bound = size-bound in
      let head_in = ok.head_in in
      let tail_in = ok.tail_in in
      let no_wrap : sub32 (r.size + r.head) r.tail ≡ r.size + r.head - r.tail = omega arith in
      let once = masked-once (r.size + r.head - r.tail) (omega arith) in
      ap (λ a. bit_and a r.mask) no_wrap ∙ once ∙ ground arith

  pub held-size : held r < r.size
  held-size = let head_in = ok.head_in in let tail_in = ok.tail_in in ground arith

  pub free-held : free r ≡ r.size - 1 - held r
  unfolding free
  free-held =
      let bound = size-bound in
      let counted = count-held in
      let head_in = ok.head_in in
      let tail_in = ok.tail_in in let less : held r < r.size = ground arith in omega arith

  pub room-held : room r ≡ (
      if ltb r.head r.tail
      then r.tail - r.head - 1
      else (if r.tail == 0 then r.size - r.head - 1 else r.size - r.head))
  unfolding get_write_pointer
  room-held =
      let bound = size-bound in let head_in = ok.head_in in let tail_in = ok.tail_in in ground arith

  pub room-free : room r ≤ free r
  room-free =
      let roomy = room-held in
      let avail = free-held in let head_in = ok.head_in in let tail_in = ok.tail_in in ground arith

  pub no_room-free : (room r ≡ 0) → free r ≡ 0
  no_room-free h =
      let roomy = room-held in
      let avail = free-held in let head_in = ok.head_in in let tail_in = ok.tail_in in ground arith

  pub ready-held : ready r ≡ (if ltb r.head r.tail then r.size - r.tail else r.head - r.tail)
  unfolding get_read_pointer
  ready-held =
      let bound = size-bound in let head_in = ok.head_in in let tail_in = ok.tail_in in ground arith

module _ (r : Ring) where
  pub contents-wrapped : r.head < r.tail → contents r ≡ drop r.tail r.buffer ++ take r.head r.buffer
  unfolding contents
  contents-wrapped h = let wrapped : ltb r.head r.tail ≡ true = ground arith in rw (wrapped) refl

  pub contents-straight :
      r.tail ≤ r.head → contents r ≡ take (r.head - r.tail) (drop r.tail r.buffer)
  unfolding contents
  contents-straight h =
      let straight : ltb r.head r.tail ≡ false = ground arith in rw (straight) refl
