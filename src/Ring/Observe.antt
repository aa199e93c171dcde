-- ===== src/Ring/Observe.antt =====
-- What the ring tells of its contents, and which sizes the constructor accepts.

use swindle_bootloader_gd.Common.{
  ℕ, zero, suc, ◌≢◌, Bool-cases, ==→eq, ◌+◌, ◌-◌, ◌^◌, ◌≤◌, ◌<◌, ◌≡◌, ◌↔◌, ◌⊎◌, inl, inr, refl, sym,
  ap, ◌∙◌, bit_and, true, false, none, some, [], arith, ◌==◌, if◌then◌else◌, length, length-take,
  length-drop, length-append, take, drop, replicate, lowest-Power, Power-lowest,
}
use swindle_bootloader_gd.Ring.{Ring, sub32, new_ring, is_empty, is_full, count, free, flush}
use swindle_bootloader_gd.Ring.Masks.{
  IsRing, contents, held, size-bound, masked-once, count-held, free-held, held-size,
  contents-wrapped, contents-straight,
}

order : (h t : ℕ) → (h < t) ⊎ (t ≤ h)
order h t = ground arith

module _ (r : Ring) (ok : IsRing r) where
  length-contents : length (contents r) ≡ held r
  length-contents =
      let filled = ok.filled in
      let head_in = ok.head_in in
      let tail_in = ok.tail_in in
      elim (order r.head r.tail) [
        | inl wrapped ↦
            let upper = length-drop r.tail r.buffer in
            let lower = length-take r.head r.buffer (omega arith) in
            let both = length-append (drop r.tail r.buffer) (take r.head r.buffer) in
            ap length (contents-wrapped r wrapped) ∙ ground arith
        | inr straight ↦
            let upper = length-drop r.tail r.buffer in
            let slice = length-take (r.head - r.tail) (drop r.tail r.buffer) (omega arith) in
            ap length (contents-straight r straight) ∙ ground arith
      ]

  full-mask :
      bit_and (sub32 (r.tail + r.size) 1) r.mask ≡ (if r.tail == 0 then r.size - 1 else r.tail - 1)
  full-mask =
      let bound = size-bound r ok in
      let tail_in = ok.tail_in in
      let no_wrap : sub32 (r.tail + r.size) 1 ≡ r.tail + r.size - 1 = omega arith in
      let once = masked-once r ok (r.tail + r.size - 1) (omega arith) in
      ap (λ a. bit_and a r.mask) no_wrap ∙ once ∙ ground arith

-- In a well-formed ring `count` is the number of bytes held, `free` the rest of its size but one,
-- `empty` and `full` say that the first or the second is 0, and `flush` leaves a well-formed ring
-- without bytes.
pub count-contents :
    (r : Ring)
    → IsRing r
    → (count r ≡ length (contents r))
      × (count r + free r + 1 ≡ r.size)
      × ((is_empty r ≡ true) ↔ (count r ≡ 0))
      × ((is_full r ≡ true) ↔ (free r ≡ 0))
      × IsRing (flush r)
      × (contents (flush r) ≡ [])
unfolding is_empty is_full flush contents
count-contents r ok =
    let head_in = ok.head_in in
    let tail_in = ok.tail_in in
    let counted = count-held r ok in
    let avail = free-held r ok in
    let less = held-size r ok in
    let mask = full-mask r ok in
    let len = length-contents r ok in
    (
      counted ∙ sym len,
      omega arith,
      (λ h. ground arith, λ h. ground arith),
      (λ h. ground arith, λ h. ground arith),
      record {
        power = ok.power;
        small = ok.small;
        sized = ok.sized;
        masked = ok.masked;
        head_in = omega arith;
        tail_in = omega arith;
        filled = ok.filled;
      },
      refl,
    )

-- The ring that the constructor makes where its assertion holds.
abbrev pub fresh : ℕ → Ring
fresh n = record { head = 0; tail = 0; mask = sub32 n 1; size = n; buffer = replicate n 0 }

length-replicate : (n a : ℕ) → length (replicate n a) ≡ n
length-replicate zero a = refl
length-replicate (suc n) a = ap suc (length-replicate n a)

fresh-IsRing : (n k : ℕ) → 0 < n → k < 32 → n < 2 ^ 32 → n ≡ 2 ^ k → IsRing (fresh n)
fresh-IsRing n k p small h e = record {
  power = k;
  small = small;
  sized = e;
  masked = omega arith;
  head_in = p;
  tail_in = p;
  filled = length-replicate n 0;
}

no_Power :
    (n k : ℕ)
    → n ≡ 2 ^ k
    → bit_and (2 ^ k) (2 ^ 32 - 1 - (2 ^ k - 1)) ≡ 2 ^ k
    → (n == bit_and n (2 ^ 32 - 1 - (n - 1))) ≡ false
    → ⊥
no_Power n k e kept fails =
    let same : bit_and n (2 ^ 32 - 1 - (n - 1)) ≡ n =
      ap (λ a. bit_and a (2 ^ 32 - 1 - (a - 1))) e ∙ kept ∙ sym e in
    ground arith

-- The constructor's assertion on a size other than 0 holds for a power of two, and then the ring is
-- well-formed, and for no other size, and then nothing is made.
pub new_ring-IsRing :
    (n : ℕ)
    → 0 < n
    → n < 2 ^ 32
    → ((k : ℕ) × (k < 32) × (n ≡ 2 ^ k) × (new_ring n ≡ some (fresh n)) × IsRing (fresh n))
      ⊎ (((k : ℕ) → k < 32 → n ≢ 2 ^ k) × (new_ring n ≡ none))
unfolding new_ring
new_ring-IsRing n p h =
    let less : sub32 n 1 ≡ n - 1 = omega arith in
    elim (Bool-cases (n == bit_and n (2 ^ 32 - 1 - (n - 1)))) [
      | inl holds ↦
          let (k, small, power) = lowest-Power 32 n p h (sym (==→eq n _ holds)) in
          inl (k, small, power, rw (less, holds) refl, fresh-IsRing n k p small h power)
      | inr fails ↦ inr (
        λ k small e. let kept = Power-lowest 32 k small in absurd (no_Power n k e kept fails),
        rw (less, fails) refl,
      )
    ]
