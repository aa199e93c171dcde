-- ===== src/Strings/Table.antt =====
-- The string table of dfu_name.h: each descriptor fits the control buffer.
use swindle_bootloader_gd.Common.{
  ℕ, zero, suc, ◌+◌, ◌*◌, ◌/◌, ◌%◌, ◌≤◌, ◌≡◌, refl, List, [], ◌∷◌, ◌++◌, arith, All, length,
  length-append, Gives, Gives-pure, Gives-bind,
}
use swindle_bootloader_gd.Bus.{byte, Env, load-Gives}
use swindle_bootloader_gd.Usb.Requests.{strlen}
use swindle_bootloader_gd.Usb.Dispatch.{FitsString}
use swindle_bootloader_gd.Strings.{
  hcharset, hex_bytes, get_dev_unique_id, manufacturer, product, configuration, usb_strings,
  internal_flash, sectors_a, sectors_g,
}
use swindle_bootloader_gd.Strings.Layout.{Describes}

strlen-length : (s : List ℕ) → strlen s ≤ length s
unfolding strlen
strlen-length [] = omega arith
strlen-length (c ∷ s) = let rest = strlen-length s in ground arith

-- A 0 ends the string.
strlen-append : (s rest : List ℕ) → strlen (s ++ (0 ∷ rest)) ≤ length s
unfolding strlen
strlen-append [] rest = omega arith
strlen-append (c ∷ s) rest = let more = strlen-append s rest in ground arith

pub Describes-strlen :
    (page boot user : ℕ) (r : List ℕ) → Describes page boot user r → strlen r ≤ 64
Describes-strlen page boot user r d =
    let a = internal_flash ++ d.boot_digits in
    let b = a ++ sectors_a page in
    let c = b ++ d.user_digits in
    let end = strlen-append (c ++ sectors_g page) d.text.rest in
    rw d.text.shape (
      omega (
        arith,
        end,
        d.short,
        length-append internal_flash d.boot_digits,
        length-append a (sectors_a page),
        length-append b d.user_digits,
        length-append c (sectors_g page),
      ))

hex_bytes-length : (env : Env) (n p : ℕ) → Gives (λ s. length s ≡ 2 * n) (hex_bytes env n p)
unfolding hex_bytes
hex_bytes-length env zero p = Gives-pure [] refl
hex_bytes-length env (suc n) p = Gives-bind (load-Gives env byte p) λ c _.
    Gives-bind (hex_bytes-length env n (p + 1))
      λ rest e. Gives-pure (hcharset (c / 16 % 16) ∷ hcharset (c % 16) ∷ rest) (omega (arith, e))

pub unique_id-length : (env : Env) → Gives (λ s. length s ≡ 26) (get_dev_unique_id env)
unfolding get_dev_unique_id
unique_id-length env = Gives-bind (hex_bytes-length env 9 0x1FFFF7E8) λ digits e.
    Gives-pure (83 ∷ 87 ∷ 73 ∷ 78 ∷ 68 ∷ 95 ∷ digits ++ (0 ∷ 0 ∷ []))
      (omega (arith, length-append digits (0 ∷ 0 ∷ []), e))

pub usb_strings-FitsString :
    (version serial_no memory_layout : List ℕ)
    → length version ≤ 2000
    → length serial_no ≡ 26
    → strlen memory_layout ≤ 64
    → All FitsString (usb_strings version serial_no memory_layout)
usb_strings-FitsString version serial_no memory_layout small len fits = (
  omega (arith, strlen-length manufacturer),
  (
    omega (arith, strlen-length (product ++ version), length-append product version),
    (
      omega (arith, strlen-length serial_no, len),
      (omega arith, (omega (arith, strlen-length configuration), tt)),
    ),
  ),
)
