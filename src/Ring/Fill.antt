-- ===== src/Ring/Fill.antt =====
-- One `memcpy` into the ring with its `add`, as `put` does it twice.
use swindle_bootloader_gd.Common.{
  ℕ, ◌+◌, ◌-◌, ◌≤◌, ◌<◌, ◌≡◌, ◌⊎◌, inl, inr, refl, sym, ap, ◌∙◌, bit_and, List, ◌++◌, arith, ◌==◌,
  if◌then◌else◌, u32, length, length-take, length-drop, take, drop,
}
use mathlib.Core.List.{append_assoc, append-nil}
use swindle_bootloader_gd.Ring.{Ring, add, copy_in}
use swindle_bootloader_gd.Ring.Pieces.{
  length-copy_in, slice-copy_in, take-copy_in, drop-copy_in, take-all,
}
use swindle_bootloader_gd.Ring.Masks.{
  IsRing, contents, held, room, size-bound, masked-once, room-held, contents-wrapped,
  contents-straight,
}

-- `n` bytes went into `r`, the first of `bytes`.
pub record Taken (n : ℕ) (bytes : List ℕ) (r r' : Ring) : Type 0 where
  pub ring : IsRing r'
  pub same_size : r'.size ≡ r.size
  pub counted : held r' ≡ held r + n
  pub appended : contents r' ≡ contents r ++ take n bytes

splits : (h t e s : ℕ) → e ≤ s → (h < t) ⊎ ((t ≤ h) × (e < s)) ⊎ ((t ≤ h) × (e ≡ s))
splits h t e s le = ground arith

module _ (r : Ring) (ok : IsRing r) where
  -- The state after `memcpy` and `add`.
  abbrev pub after : ℕ → List ℕ → Ring
  after n bytes = add (record r { buffer = copy_in r.head (take n bytes) r.buffer }) n

  head-after :
      (n : ℕ) (bytes : List ℕ)
      → n ≤ room r
      → (after n bytes).head ≡ (if r.head + n == r.size then 0 else r.head + n)
  unfolding add
  head-after n bytes h =
      let bound = size-bound r ok in
      let roomy = room-held r ok in
      let head_in = ok.head_in in
      let tail_in = ok.tail_in in
      let fits : r.head + n ≤ r.size = ground arith in
      let once = masked-once r ok (r.head + n) (omega arith) in
      let no_wrap : u32 (r.head + n) ≡ r.head + n = omega arith in
      ap (λ a. bit_and a r.mask) no_wrap ∙ once ∙ ground arith

  module _ (n : ℕ) (bytes : List ℕ) (room_in : n ≤ room r) (bytes_in : n ≤ length bytes) where
    appended-wrapped : r.head < r.tail → contents (after n bytes) ≡ contents r ++ take n bytes
    unfolding add
    appended-wrapped h =
        let roomy = room-held r ok in
        let sized = length-take n bytes bytes_in in
        let filled = ok.filled in
        let tail_in = ok.tail_in in
        let head = head-after n bytes room_in in
        let fits : r.head + n < r.tail = ground arith in
        let head' : (after n bytes).head ≡ r.head + n = ground arith in
        let xs = take n bytes in
        contents-wrapped (after n bytes) (omega arith)
        ∙ ap (λ ys. ys ++ take (after n bytes).head (copy_in r.head xs r.buffer))
            (drop-copy_in r.tail r.head xs r.buffer (omega arith))
        ∙ ap (λ k. drop r.tail r.buffer ++ take k (copy_in r.head xs r.buffer)) head'
        ∙ ap (λ ys. drop r.tail r.buffer ++ ys)
            (take-copy_in (r.head + n) r.head xs r.buffer (omega arith) (omega arith))
        ∙ sym (append_assoc (drop r.tail r.buffer) (take r.head r.buffer) xs)
        ∙ ap (λ ys. ys ++ xs) (sym (contents-wrapped r h))

    appended-inside :
        r.tail ≤ r.head
        → r.head + n < r.size
        → contents (after n bytes) ≡ contents r ++ take n bytes
    unfolding add
    appended-inside h fits =
        let sized = length-take n bytes bytes_in in
        let filled = ok.filled in
        let head = head-after n bytes room_in in
        let head' : (after n bytes).head ≡ r.head + n = ground arith in
        let xs = take n bytes in
        contents-straight (after n bytes) (omega arith)
        ∙ slice-copy_in r.tail (r.head - r.tail) ((after n bytes).head - r.tail) r.head xs r.buffer
            (omega arith) (omega arith) (omega arith)
        ∙ ap (λ ys. ys ++ xs) (sym (contents-straight r h))

    -- The bytes go up to the end of the buffer, and the head to its start.
    appended-end :
        r.tail ≤ r.head
        → (r.head + n ≡ r.size)
        → contents (after n bytes) ≡ contents r ++ take n bytes
    unfolding add
    appended-end h ends =
        let roomy = room-held r ok in
        let sized = length-take n bytes bytes_in in
        let filled = ok.filled in
        let head_in = ok.head_in in
        let head = head-after n bytes room_in in
        let head' : (after n bytes).head ≡ 0 = ground arith in
        let behind : 0 < r.tail = ground arith in
        let xs = take n bytes in
        let new = copy_in r.head xs r.buffer in
        let rest = drop r.tail new in
        let same_length = length-copy_in r.head xs r.buffer in
        contents-wrapped (after n bytes) (omega arith)
        ∙ ap (λ k. rest ++ take k new) head'
        ∙ append-nil rest
        ∙ sym (take-all (r.size - r.tail) rest (omega (arith, length-drop r.tail new)))
        ∙ slice-copy_in r.tail (r.head - r.tail) (r.size - r.tail) r.head xs r.buffer (omega arith)
            (omega arith) (omega arith)
        ∙ ap (λ ys. ys ++ xs) (sym (contents-straight r h))

    pub after-Taken : Taken n bytes r (after n bytes)
    unfolding add
    after-Taken =
        let roomy = room-held r ok in
        let head = head-after n bytes room_in in
        let head_in = ok.head_in in
        let tail_in = ok.tail_in in
        let fits : r.head + n ≤ r.size = ground arith in
        record {
          ring = record {
            power = ok.power;
            small = ok.small;
            sized = ok.sized;
            masked = ok.masked;
            head_in = ground arith;
            tail_in = tail_in;
            filled = length-copy_in r.head (take n bytes) r.buffer ∙ ok.filled;
          };
          same_size = refl;
          counted = ground arith;
          appended = elim (splits r.head r.tail (r.head + n) r.size fits) [
            | inl wrapped ↦ appended-wrapped wrapped
            | inr (inl (straight, inside)) ↦ appended-inside straight inside
            | inr (inr (straight, ends)) ↦ appended-end straight ends
          ];
        }

    -- When it is filled, the room at the head is followed by what is free at the start.
    pub room-after : (n ≡ room r) → room (after n bytes) ≡ r.size - 1 - held r - n
    unfolding add
    room-after full =
        let roomy = room-held r ok in
        let next = room-held (after n bytes) after-Taken.ring in
        let head = head-after n bytes room_in in
        let head_in = ok.head_in in let tail_in = ok.tail_in in ground arith
