-- ===== src/Ring/Put.antt =====
-- `put` as one end of a queue: the ring's contents are the bytes put in and not yet taken out, in order.
use swindle_bootloader_gd.Common.{
  ℕ, ◌+◌, ◌-◌, ◌^◌, ◌≤◌, ◌<◌, ◌≡◌, refl, sym, ap, ◌∙◌, List, ◌++◌, arith, ltb, ◌==◌, if◌then◌else◌,
  if-each, length, length-drop, take, drop,
}
use Prim.Native.Nat.{min}
use mathlib.Core.List.{append_assoc, append-nil}
use swindle_bootloader_gd.Ring.{Ring, sub32, free, get_write_pointer, put_piece, put_rest, put}
use swindle_bootloader_gd.Ring.Pieces.{take_add}
use swindle_bootloader_gd.Ring.Masks.{IsRing, contents, room, free-held, room-free, no_room-free}
use swindle_bootloader_gd.Ring.Fill.{Taken, after, after-Taken, room-after}

Taken-none : (bytes : List ℕ) (r : Ring) → IsRing r → Taken 0 bytes r r
Taken-none bytes r ok = record {
  ring = ok;
  same_size = refl;
  counted = omega arith;
  appended = sym (append-nil (contents r));
}

-- Two pieces, one after the other.
Taken-join :
    {n m k : ℕ} {bytes : List ℕ} {r r1 r2 : Ring}
    → k ≡ n + m
    → Taken n bytes r r1
    → Taken m (drop n bytes) r1 r2
    → Taken k bytes r r2
Taken-join {n} {m} {k} {bytes} {r} e one two = record {
  ring = two.ring;
  same_size = two.same_size ∙ one.same_size;
  counted = omega (arith, one.counted, two.counted);
  appended =
      two.appended
      ∙ ap (λ ys. ys ++ take m (drop n bytes)) one.appended
      ∙ append_assoc (contents r) (take n bytes) (take m (drop n bytes))
      ∙ ap (λ ys. contents r ++ ys) (sym (take_add n m k bytes e));
}

-- What `put` makes of a ring.
abbrev Puts : ℕ → List ℕ → Ring → ℕ × Ring → Type 0
Puts n bytes r (done, r') = (done ≡ min n (free r)) × Taken done bytes r r'

module _ (r : Ring) (n : ℕ) (bytes : List ℕ) (ok : IsRing r) where
  put_piece-after : put_piece n bytes r ≡ (min n (room r), after r ok (min n (room r)) bytes)
  unfolding put_piece get_write_pointer
  put_piece-after =
      let least : (if ltb n (room r) then n else room r) ≡ min n (room r) = ground arith in
      ap (λ m. (m, after r ok m bytes)) least

module _ (r : Ring) (n : ℕ) (bytes : List ℕ) (ok : IsRing r) where
  put_rest-Puts :
      n ≤ length bytes
      → n < 2 ^ 32
      → Puts n bytes r (put_rest n bytes (min n (room r), after r ok (min n (room r)) bytes))
  unfolding put_rest
  put_rest-Puts given small =
      let m = min n (room r) in
      let avail = free-held r ok in
      let within = room-free r ok in
      let first = after-Taken r ok m bytes (omega arith) (omega arith) in
      let more = room-after r ok m bytes (omega arith) (omega arith) in
      if-each (Puts n bytes r) (sub32 n m == 0) (λ all_in. (ground arith, first))
        (λ some_out.
          let full : m ≡ room r = ground arith in
          let next = more full in
          let left : sub32 n m ≡ n - m = omega arith in
          if-each (Puts n bytes r) (room (after r ok m bytes) == 0)
            (λ no_room. (ground arith, first))
            (λ some_room.
              let fits : sub32 n m ≤ length (drop m bytes) = omega (arith, length-drop m bytes) in
              let second =
                after-Taken (after r ok m bytes) first.ring
                  (min (sub32 n m) (room (after r ok m bytes))) (drop m bytes) (omega arith)
                  (omega arith) in
              let r1 = after r ok m bytes in
              let k = sub32 n m in
              let both : Puts n bytes r
                  (m + min k (room r1), after r1 first.ring (min k (room r1)) (drop m bytes)) =
                (omega arith, Taken-join refl first second) in
              rw (put_piece-after r1 k (drop m bytes) first.ring) both))

-- `put` takes as many of the bytes as there is room for, and appends them.
pub put-Taken :
    (r : Ring) (n : ℕ) (bytes : List ℕ)
    → IsRing r
    → n ≤ length bytes
    → n < 2 ^ 32
    → ((put n bytes r).0 ≡ min n (free r)) × Taken (put n bytes r).0 bytes r (put n bytes r).1
unfolding put
put-Taken r n bytes ok given small =
    let stuck = no_room-free r ok in
    if-each (Puts n bytes r) ((get_write_pointer r).1 == 0)
      (λ none_left. (ground arith, Taken-none bytes r ok))
      (λ some_left. rw (put_piece-after r n bytes ok) (put_rest-Puts r n bytes ok given small))
