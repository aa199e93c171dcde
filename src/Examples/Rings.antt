-- ===== src/Examples/Rings.antt =====
-- A ring of eight bytes whose contents and room both go around its end.
use Prim.Native.Nat.{min}
use swindle_bootloader_gd.Common.{
  ℕ, ◌+◌, ◌^◌, ◌<◌, ◌≡◌, ◌≢◌, ◌↔◌, ◌⊎◌, refl, true, none, some, List, [], ◌∷◌, arith, length,
}
use swindle_bootloader_gd.Ring.{
  Ring, new_ring, is_empty, is_full, count, free, flush, put, put_rest, put_piece, get, get_rest,
  get_piece, get_read_pointer, get_write_pointer, consume, add, cmin,
}
use swindle_bootloader_gd.Ring.Masks.{IsRing, contents}
use swindle_bootloader_gd.Ring.Fill.{Taken}
use swindle_bootloader_gd.Ring.Put.{put-Taken}
use swindle_bootloader_gd.Ring.Get.{Given, get-Given}
use swindle_bootloader_gd.Ring.Observe.{fresh, count-contents, new_ring-IsRing}

abbrev low_room : Ring
low_room = record {
  head = 6;
  tail = 3;
  mask = 7;
  size = 8;
  buffer = 10 ∷ 11 ∷ 12 ∷ 13 ∷ 14 ∷ 15 ∷ 16 ∷ 17 ∷ [];
}

abbrev wrapped : Ring
wrapped = record low_room { head = 2; tail = 6 }

low_room-IsRing : IsRing low_room
low_room-IsRing = record {
  power = 3;
  small = omega arith;
  sized = refl;
  masked = refl;
  head_in = omega arith;
  tail_in = omega arith;
  filled = refl;
}

wrapped-IsRing : IsRing wrapped
wrapped-IsRing = record {
  power = 3;
  small = omega arith;
  sized = refl;
  masked = refl;
  head_in = omega arith;
  tail_in = omega arith;
  filled = refl;
}

abbrev six : List ℕ
six = 1 ∷ 2 ∷ 3 ∷ 4 ∷ 5 ∷ 6 ∷ []

-- Six bytes are offered to room for four; two go to the end and two to the start.
put_test :
    put 6 six low_room
    ≡ (4, record low_room { head = 2; buffer = 3 ∷ 4 ∷ 12 ∷ 13 ∷ 14 ∷ 15 ∷ 1 ∷ 2 ∷ [] })
unfolding put put_rest put_piece get_write_pointer add
put_test = refl

get_test : get 3 wrapped ≡ (3, 16 ∷ 17 ∷ 10 ∷ [], record wrapped { tail = 1 })
unfolding get get_rest get_piece get_read_pointer consume count cmin
get_test = refl

-- The assertion lets a size of 0 through.
zero_size_test : new_ring 0 ≡ some (fresh 0)
unfolding new_ring
zero_size_test = refl

put-Taken_example :
    ((put 6 six low_room).0 ≡ min 6 (free low_room))
    × Taken (put 6 six low_room).0 six low_room (put 6 six low_room).1
put-Taken_example = put-Taken low_room 6 six low_room-IsRing (omega arith) (omega arith)

get-Given_example :
    ((get 3 wrapped).0 ≡ min 3 (count wrapped))
    × Given (get 3 wrapped).0 (get 3 wrapped).1 wrapped (get 3 wrapped).2
get-Given_example = get-Given wrapped 3 wrapped-IsRing

count-contents_example :
    (count wrapped ≡ length (contents wrapped))
    × (count wrapped + free wrapped + 1 ≡ wrapped.size)
    × ((is_empty wrapped ≡ true) ↔ (count wrapped ≡ 0))
    × ((is_full wrapped ≡ true) ↔ (free wrapped ≡ 0))
    × IsRing (flush wrapped)
    × (contents (flush wrapped) ≡ [])
count-contents_example = count-contents wrapped wrapped-IsRing

new_ring-IsRing_example :
    ((k : ℕ) × (k < 32)
      × (◌≡◌ {A = ℕ} 16 (2 ^ k))
      × (new_ring 16 ≡ some (fresh 16))
      × IsRing (fresh 16))
    ⊎ (((k : ℕ) → k < 32 → ◌≢◌ {A = ℕ} 16 (2 ^ k)) × (new_ring 16 ≡ none))
new_ring-IsRing_example = new_ring-IsRing 16 (omega arith) (omega arith)
