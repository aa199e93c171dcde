-- ===== src/Strings.antt =====
-- The strings that dfu.cpp builds: the serial number and the memory layout, with the string functions
-- of src_common/stubs.cpp. An array is a list of bytes; `none` is a read or a write beyond its end.
pub mod Serial
pub mod Layout
pub mod Table
use swindle_bootloader_gd.Common.{
  ℕ, zero, suc, ◌+◌, ◌-◌, ◌*◌, ◌/◌, ◌%◌, ◌≤◌, Bool, true, false, Option, none, some, List, [], ◌∷◌,
  ◌++◌, ltb, ◌==◌, if◌then◌else◌, M, pure, ◌>>=◌, ◌>>◌,
}
use swindle_bootloader_gd.Bus.{byte, Log, Env, load}
use swindle_bootloader_gd.Flash.{get_flash_page_size}
use swindle_bootloader_gd.Device.{bootldr_size_kb}
use swindle_bootloader_gd.Usb.State.{put_at}

unfoldable pub xstrlen : List ℕ → Option ℕ
xstrlen [] = none
xstrlen (c ∷ s) =
    let rest = xstrlen s in
    if c == 0 then some 0 else elim rest [ none ↦ none | some n ↦ some (suc n) ]

-- `src` is a string without its final 0; the bytes are written one after the other.
abbrev pub xstrcpy : List ℕ → List ℕ → Option (List ℕ)
xstrcpy tgt src = put_at 0 (src ++ (0 ∷ [])) tgt

abbrev pub xstrcat : List ℕ → List ℕ → Option (List ℕ)
xstrcat tgt src = elim (xstrlen tgt) [ none ↦ none | some n ↦ put_at n (src ++ (0 ∷ [])) tgt ]

-- The `do … while` of `prepare_memory_layout`, with the room left in `num` and the string at `p`.
unfoldable pub decimal : ℕ → ℕ → List ℕ → Option (List ℕ)
decimal zero n p = none
decimal (suc room) n p =
    let q = (48 + n % 10) ∷ p in
    let rest = decimal room (n / 10) q in if n / 10 == 0 then some q else rest

-- "@Internal Flash /0x08000000/"
abbrev pub internal_flash : List ℕ
internal_flash =
    64 ∷ 73 ∷ 110 ∷ 116 ∷ 101 ∷ 114 ∷ 110 ∷ 97 ∷ 108 ∷ 32 ∷ 70 ∷ 108 ∷ 97 ∷ 115 ∷ 104 ∷ 32 ∷ 47 ∷ 48
    ∷ 120 ∷ 48 ∷ 56 ∷ 48 ∷ 48 ∷ 48 ∷ 48 ∷ 48 ∷ 48 ∷ 47 ∷ []

-- "*002Ka," or "*001Ka,"
abbrev pub sectors_a : ℕ → List ℕ
sectors_a page_size_kb = 42 ∷ 48 ∷ 48 ∷ (if page_size_kb == 2 then 50 else 49) ∷ 75 ∷ 97 ∷ 44 ∷ []

-- "*002Kg" or "*001Kg"
abbrev pub sectors_g : ℕ → List ℕ
sectors_g page_size_kb = 42 ∷ 48 ∷ 48 ∷ (if page_size_kb == 2 then 50 else 49) ∷ 75 ∷ 103 ∷ []

abbrev pub append_text : List ℕ → Option (List ℕ) → Option (List ℕ)
append_text s arr = elim arr [ none ↦ none | some a ↦ xstrcat a s ]

abbrev pub append_number : ℕ → Option (List ℕ) → Option (List ℕ)
append_number n arr = elim (decimal 7 n []) [ none ↦ none | some s ↦ append_text s arr ]

-- For a flash of at least the boot loader's size: the code's `user_kb` is an `int`.
unfoldable pub prepare_memory_layout : Bool → ℕ → List ℕ → Option (List ℕ)
unfolding decimal xstrlen put_at get_flash_page_size
prepare_memory_layout gd flash_size memory_layout =
    let user_kb = flash_size - bootldr_size_kb in
    let page_size_kb = (get_flash_page_size gd 0).0 / 1024 in
    append_text (sectors_g page_size_kb) (
      append_number (user_kb / page_size_kb) (
        append_text (sectors_a page_size_kb)
          (append_number (bootldr_size_kb / page_size_kb) (xstrcpy memory_layout internal_flash))))

-- `hcharset[n]`
abbrev pub hcharset : ℕ → ℕ
hcharset n = if ltb n 10 then 48 + n else 87 + n

module _ (env : Env) where
  -- The loop of `get_dev_unique_id`, with the bytes left.
  unfoldable pub hex_bytes : ℕ → ℕ → M Log (List ℕ)
  hex_bytes zero p h = pure [] h
  hex_bytes (suc n) p h =
      (do
        cid ← load env byte p
        rest ← hex_bytes n (p + 1)
        pure (hcharset (cid / 16 % 16) ∷ hcharset (cid % 16) ∷ rest))
        h

  -- The 26 bytes of `serial_no`: "SWIND_", the digits, and two zeros
  unfoldable pub get_dev_unique_id : M Log (List ℕ)
  unfolding hex_bytes
  get_dev_unique_id = do
    digits ← hex_bytes 9 0x1FFFF7E8
    pure (83 ∷ 87 ∷ 73 ∷ 78 ∷ 68 ∷ 95 ∷ digits ++ (0 ∷ 0 ∷ []))

-- "davidgf.net (libopencm3 based)"
abbrev pub manufacturer : List ℕ
manufacturer =
    100 ∷ 97 ∷ 118 ∷ 105 ∷ 100 ∷ 103 ∷ 102 ∷ 46 ∷ 110 ∷ 101 ∷ 116 ∷ 32 ∷ 40 ∷ 108 ∷ 105 ∷ 98 ∷ 111
    ∷ 112 ∷ 101 ∷ 110 ∷ 99 ∷ 109 ∷ 51 ∷ 32 ∷ 98 ∷ 97 ∷ 115 ∷ 101 ∷ 100 ∷ 41 ∷ []

-- "Swindle bootloader_", which the build's version follows
abbrev pub product : List ℕ
product =
    83 ∷ 119 ∷ 105 ∷ 110 ∷ 100 ∷ 108 ∷ 101 ∷ 32 ∷ 98 ∷ 111 ∷ 111 ∷ 116 ∷ 108 ∷ 111 ∷ 97 ∷ 100 ∷ 101
    ∷ 114 ∷ 95 ∷ []

-- "Bootloader "
abbrev pub configuration : List ℕ
configuration = 66 ∷ 111 ∷ 111 ∷ 116 ∷ 108 ∷ 111 ∷ 97 ∷ 100 ∷ 101 ∷ 114 ∷ 32 ∷ []

-- `_usb_strings`
abbrev pub usb_strings : List ℕ → List ℕ → List ℕ → List (List ℕ)
usb_strings version serial_no memory_layout =
    manufacturer ∷ (product ++ version) ∷ serial_no ∷ memory_layout ∷ configuration ∷ []
