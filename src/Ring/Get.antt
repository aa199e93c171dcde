-- ===== src/Ring/Get.antt =====
-- `get` as the other end of the queue.
use Prim.Native.Nat.{min}
use mathlib.Core.List.{append_assoc}
use swindle_bootloader_gd.Common.{
  ℕ, ◌+◌, ◌-◌, ◌≤◌, ◌<◌, ◌≡◌, ◌⊎◌, inl, inr, refl, sym, ap, ◌∙◌, bit_and, List, [], ◌++◌, arith,
  ltb, leb, ◌==◌, if◌then◌else◌, if-each, u32, length, length-take, length-drop, length-append,
  take, drop,
}
use swindle_bootloader_gd.Ring.{
  Ring, sub32, count, get_read_pointer, consume, cmin, get_piece, get_rest, get,
}
use swindle_bootloader_gd.Ring.Pieces.{take_add, drop_add, take-all, take-append-drop}
use swindle_bootloader_gd.Ring.Masks.{
  IsRing, contents, held, ready, size-bound, masked-once, count-held, held-size, ready-held,
  contents-wrapped, contents-straight,
}

-- `n` bytes came out of `r`: they were the oldest.
pub record Given (n : ℕ) (bytes : List ℕ) (r r' : Ring) : Type 0 where
  pub ring : IsRing r'
  pub same_size : r'.size ≡ r.size
  pub counted : held r ≡ n + held r'
  pub as_many : length bytes ≡ n
  pub first_out : contents r ≡ bytes ++ contents r'

splits : (h t e s : ℕ) → e ≤ s → (h < t) × (e < s) ⊎ (h < t) × (e ≡ s) ⊎ (t ≤ h)
splits h t e s le = ground arith

module _ (r : Ring) (ok : IsRing r) (n : ℕ) (in_reach : n ≤ ready r) where
  fits : r.tail + n ≤ r.size
  fits =
      let reach = ready-held r ok in
      let head_in = ok.head_in in let tail_in = ok.tail_in in ground arith

  tail-after : (consume r n).tail ≡ (if r.tail + n == r.size then 0 else r.tail + n)
  unfolding consume
  tail-after =
      let bound = size-bound r ok in
      let head_in = ok.head_in in
      let tail_in = ok.tail_in in
      let inside = fits in
      let once = masked-once r ok (r.tail + n) (omega arith) in
      let no_wrap : u32 (r.tail + n) ≡ r.tail + n = omega arith in
      ap (λ a. bit_and a r.mask) no_wrap ∙ once ∙ ground arith

  abbrev pub piece : List ℕ
  piece = take n (drop r.tail r.buffer)

  halves : take n (drop r.tail r.buffer) ++ drop n (drop r.tail r.buffer) ≡ drop r.tail r.buffer
  halves = take-append-drop n (drop r.tail r.buffer)

  first-wrapped :
      r.head < r.tail → r.tail + n < r.size → contents r ≡ piece ++ contents (consume r n)
  unfolding consume
  first-wrapped h inside =
      let reach = ready-held r ok in
      let tail = tail-after in
      let tail' : (consume r n).tail ≡ r.tail + n = ground arith in
      let old = take r.head r.buffer in
      contents-wrapped r h
      ∙ ap (λ ys. ys ++ old) (sym halves)
      ∙ append_assoc piece (drop n (drop r.tail r.buffer)) old
      ∙ ap (λ ys. piece ++ (ys ++ old)) (drop_add r.tail n (consume r n).tail r.buffer tail')
      ∙ ap (λ ys. piece ++ ys) (sym (contents-wrapped (consume r n) (omega arith)))

  -- The bytes up to the end of the buffer come out, and the tail goes to its start.
  first-end : r.head < r.tail → (r.tail + n ≡ r.size) → contents r ≡ piece ++ contents (consume r n)
  unfolding consume
  first-end h ends =
      let filled = ok.filled in
      let tail = tail-after in
      let tail' : (consume r n).tail ≡ 0 = ground arith in
      let whole = take-all n (drop r.tail r.buffer) (omega (arith, length-drop r.tail r.buffer)) in
      contents-wrapped r h
      ∙ ap (λ ys. ys ++ take r.head r.buffer) (sym whole)
      ∙ ap (λ k. piece ++ take k r.buffer) {x = r.head} {y = r.head - (consume r n).tail}
          (omega arith)
      ∙ ap (λ k. piece ++ take (r.head - (consume r n).tail) (drop k r.buffer)) (sym tail')
      ∙ ap (λ ys. piece ++ ys) (sym (contents-straight (consume r n) (omega arith)))

  first-straight : r.tail ≤ r.head → contents r ≡ piece ++ contents (consume r n)
  unfolding consume
  first-straight h =
      let reach = ready-held r ok in
      let head_in = ok.head_in in
      let tail = tail-after in
      let tail' : (consume r n).tail ≡ r.tail + n = ground arith in
      let rest = r.head - (consume r n).tail in
      contents-straight r h
      ∙ take_add n rest (r.head - r.tail) (drop r.tail r.buffer) (ground arith)
      ∙ ap (λ ys. piece ++ take rest ys) (drop_add r.tail n (consume r n).tail r.buffer tail')
      ∙ ap (λ ys. piece ++ ys) (sym (contents-straight (consume r n) (ground arith)))

  consume-Given : Given n piece r (consume r n)
  unfolding consume
  consume-Given =
      let reach = ready-held r ok in
      let tail = tail-after in
      let head_in = ok.head_in in
      let tail_in = ok.tail_in in
      let filled = ok.filled in
      let inside = fits in
      record {
        ring = record {
          power = ok.power;
          small = ok.small;
          sized = ok.sized;
          masked = ok.masked;
          head_in = head_in;
          tail_in = ground arith;
          filled = ok.filled;
        };
        same_size = refl;
        counted = ground arith;
        as_many = length-take n (drop r.tail r.buffer) (omega (arith, length-drop r.tail r.buffer));
        first_out = elim (splits r.head r.tail (r.tail + n) r.size inside) [
          | inl (wrapped, more) ↦ first-wrapped wrapped more
          | inr (inl (wrapped, ends)) ↦ first-end wrapped ends
          | inr (inr straight) ↦ first-straight straight
        ];
      }

  -- When all that can be read in one piece is read, what is left lies at the start.
  ready-after : (n ≡ ready r) → ready (consume r n) ≡ held r - n
  unfolding consume
  ready-after full =
      let reach = ready-held r ok in
      let next = ready-held (consume r n) consume-Given.ring in
      let tail = tail-after in let head_in = ok.head_in in let tail_in = ok.tail_in in ground arith

module _ (r : Ring) (ok : IsRing r) where
  ready-count : ready r ≤ count r
  ready-count =
      let reach = ready-held r ok in
      let counted = count-held r ok in
      let head_in = ok.head_in in let tail_in = ok.tail_in in ground arith

  none-ready : (ready r ≡ 0) → count r ≡ 0
  none-ready h =
      let reach = ready-held r ok in
      let counted = count-held r ok in
      let head_in = ok.head_in in let tail_in = ok.tail_in in ground arith

  abbrev taken : ℕ → ℕ × List ℕ × Ring
  taken n = (n, take n (drop r.tail r.buffer), consume r n)

  get_piece-taken : (size : ℕ) → get_piece size r ≡ taken (min size (ready r))
  unfolding get_piece get_read_pointer
  get_piece-taken size =
      let least : (if ltb size (ready r) then size else ready r) ≡ min size (ready r) =
        ground arith in
      ap taken least

  Given-none : Given 0 [] r r
  Given-none = record {
    ring = ok;
    same_size = refl;
    counted = omega arith;
    as_many = refl;
    first_out = refl;
  }

-- Two pieces, one after the other.
Given-join :
    {n m : ℕ} {bytes more : List ℕ} {r r1 r2 : Ring}
    → Given n bytes r r1
    → Given m more r1 r2
    → Given (n + m) (bytes ++ more) r r2
Given-join {n} {m} {bytes} {more} {r} {r1} {r2} one two = record {
  ring = two.ring;
  same_size = two.same_size ∙ one.same_size;
  counted = omega (arith, one.counted, two.counted);
  as_many = omega (arith, length-append bytes more, one.as_many, two.as_many);
  first_out =
      one.first_out
      ∙ ap (λ ys. bytes ++ ys) two.first_out
      ∙ sym (append_assoc bytes more (contents r2));
}

-- What `get` makes of a ring.
abbrev Gets : ℕ → Ring → ℕ × List ℕ × Ring → Type 0
Gets n r (done, bytes, r') = (done ≡ n) × Given done bytes r r'

get_rest-Gets :
    (r : Ring) (ok : IsRing r) (size : ℕ)
    → size ≤ count r
    → Gets size r (get_rest size (taken r ok (min size (ready r))))
unfolding get_rest
get_rest-Gets r ok size has =
    let n = min size (ready r) in
    let counted = count-held r ok in
    let bound = size-bound r ok in
    let first = consume-Given r ok n (omega arith) in
    let more = ready-after r ok n (omega arith) in
    let less = held-size r ok in
    if-each (Gets size r) (sub32 size n == 0) (λ all_out. (ground arith, first))
      (λ some_in.
        let full : n ≡ ready r = ground arith in
        let next = more full in
        let left : sub32 size n ≡ size - n = omega arith in
        if-each (Gets size r) (ready (consume r n) == 0) (λ no_more. (ground arith, first))
          (λ some_more.
            let r1 = consume r n in
            let k = sub32 size n in
            let second = consume-Given r1 first.ring (min k (ready r1)) (omega arith) in
            let both : Gets size r (
              n + min k (ready r1),
              take n (drop r.tail r.buffer) ++ take (min k (ready r1)) (drop r1.tail r1.buffer),
              consume r1 (min k (ready r1)),
            ) =
              (omega arith, Given-join first second) in
            rw (get_piece-taken r1 first.ring k) both))

-- `get` takes the oldest bytes out, as many as are wanted and there are.
pub get-Given :
    (r : Ring) (wanted : ℕ)
    → IsRing r
    → ((get wanted r).0 ≡ min wanted (count r))
      × Given (get wanted r).0 (get wanted r).1 r (get wanted r).2
unfolding get cmin
get-Given r wanted ok =
    let dry = none-ready r ok in
    let size = if leb wanted (count r) then wanted else count r in
    let least : size ≡ min wanted (count r) = ground arith in
    if-each (Gets (min wanted (count r)) r) (ready r == 0)
      (λ none_in. (ground arith, Given-none r ok))
      (λ some_in.
        rw (get_piece-taken r ok size)
          (let rest = get_rest-Gets r ok size (omega arith) in (rest.0 ∙ least, rest.1)))
