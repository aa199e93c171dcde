-- ===== src/Ring.antt =====
-- The ring buffer of bytes (esprit_mini/include/lnRingBuffer.h): one operation per method. A pointer
-- into the buffer is its offset; `memcpy` copies the number of bytes that is given.
pub mod Masks
pub mod Pieces
pub mod Fill
pub mod Put
pub mod Get
pub mod Observe
use swindle_bootloader_gd.Common.{
  ℕ, zero, suc, ◌+◌, ◌-◌, ◌^◌, bit_and, Bool, true, false, Option, none, some, List, [], ◌∷◌, ◌++◌,
  ltb, leb, ◌==◌, if◌then◌else◌, u32, take, drop, blit, replicate,
}

pub record Ring : Type 0 where
  pub head : ℕ
  pub tail : ℕ
  pub mask : ℕ
  pub size : ℕ
  pub buffer : List ℕ

-- Subtraction of `uint32_t`s.
abbrev pub sub32 : ℕ → ℕ → ℕ
sub32 a b = u32 (u32 a + (2 ^ 32 - u32 b))

-- `memcpy (buf + offset, bytes, …)`
abbrev pub copy_in : ℕ → List ℕ → List ℕ → List ℕ
copy_in zero bytes buf = blit bytes buf
copy_in (suc offset) bytes [] = []
copy_in (suc offset) bytes (b ∷ buf) = b ∷ copy_in offset bytes buf

-- The constructor; `none` where its assertion fails, after which nothing runs. The new buffer's
-- bytes are not set by the source.
unfoldable pub new_ring : ℕ → Option Ring
new_ring size =
    if size == bit_and size (2 ^ 32 - 1 - sub32 size 1)
    then some
        (record { head = 0; tail = 0; mask = sub32 size 1; size = size; buffer = replicate size 0 })
    else none

module _ (r : Ring) where
  unfoldable pub is_empty : Bool
  is_empty = r.head == r.tail

  unfoldable pub is_full : Bool
  is_full = r.head == bit_and (sub32 (r.tail + r.size) 1) r.mask

  unfoldable pub count : ℕ
  count = bit_and (sub32 (r.size + r.head) r.tail) r.mask

  unfoldable pub free : ℕ
  free = sub32 (sub32 r.size count) 1

  unfoldable pub flush : Ring
  flush = record r { head = 0; tail = 0 }

  unfoldable pub consume : ℕ → Ring
  consume n = record r { tail = bit_and (u32 (r.tail + n)) r.mask }

  unfoldable pub add : ℕ → Ring
  add n = record r { head = bit_and (u32 (r.head + n)) r.mask }

  -- The offset of the bytes to read, and their number.
  unfoldable pub get_read_pointer : ℕ × ℕ
  get_read_pointer =
      (r.tail, (if ltb r.head r.tail then sub32 r.size r.tail else sub32 r.head r.tail))

  -- The offset of the room to write to, and its size.
  unfoldable pub get_write_pointer : ℕ × ℕ
  get_write_pointer = (
    r.head,
    (if ltb r.head r.tail
        then sub32 (sub32 r.tail r.head) 1
        else let res = sub32 r.size r.head in if r.tail == 0 then sub32 res 1 else res),
  )

unfoldable pub cmin : ℕ → ℕ → ℕ
cmin a b = if leb a b then a else b

-- A result of `put`: the number of bytes taken, and the ring.
-- The part that `put` runs twice: what the write pointer leaves room for goes in.
unfoldable pub put_piece : ℕ → List ℕ → Ring → ℕ × Ring
put_piece insize bytes r =
    let (to, room) = get_write_pointer r in
    let n = if ltb insize room then insize else room in
    (n, add (record r { buffer = copy_in to (take n bytes) r.buffer }) n)

-- `put` after its first piece.
unfoldable pub put_rest : ℕ → List ℕ → ℕ × Ring → ℕ × Ring
put_rest insize bytes (n, r) =
    if sub32 insize n == 0
    then (n, r)
    else if (get_write_pointer r).1 == 0
    then (n, r)
    else let (m, r') = put_piece (sub32 insize n) (drop n bytes) r in (n + m, r')

unfoldable pub put : ℕ → List ℕ → Ring → ℕ × Ring
put insize bytes r =
    if (get_write_pointer r).1 == 0
    then (0, r)
    else put_rest insize bytes (put_piece insize bytes r)

-- The part that `get` runs twice: the number of bytes, the bytes themselves and the ring.
unfoldable pub get_piece : ℕ → Ring → ℕ × List ℕ × Ring
get_piece size r =
    let (from, room) = get_read_pointer r in
    let n = if ltb size room then size else room in (n, take n (drop from r.buffer), consume r n)

-- `get` after its first piece.
unfoldable pub get_rest : ℕ → ℕ × List ℕ × Ring → ℕ × List ℕ × Ring
get_rest size (n, bytes, r) =
    if sub32 size n == 0
    then (n, bytes, r)
    else if (get_read_pointer r).1 == 0
    then (n, bytes, r)
    else let (m, more, r') = get_piece (sub32 size n) r in (n + m, bytes ++ more, r')

unfoldable pub get : ℕ → Ring → ℕ × List ℕ × Ring
get wanted r =
    let size = cmin wanted (count r) in
    if (get_read_pointer r).1 == 0 then (0, [], r) else get_rest size (get_piece size r)
