-- ===== src/Strings/Layout.antt =====
-- The memory layout that dfu.cpp prints names the sectors of the two areas, and fits its array.
use mathlib.Core.List.{append-nil, append_assoc}
use swindle_bootloader_gd.Common.{
  ℕ, zero, suc, ◌+◌, ◌-◌, ◌*◌, ◌/◌, ◌%◌, ◌^◌, ◌≤◌, ◌<◌, ◌≡◌, refl, sym, ap, ◌∙◌, Bool, true, false,
  inl, inr, Option, some, List, [], ◌∷◌, ◌++◌, ◌==◌, ==→eq, eq→==, if◌then◌else◌, Bool-cases, arith,
  length, length-append, All,
}
use swindle_bootloader_gd.Flash.{get_flash_page_size}
use swindle_bootloader_gd.Device.{bootldr_size_kb}
use swindle_bootloader_gd.Usb.State.{put_at}
use swindle_bootloader_gd.Strings.{
  xstrlen, xstrcat, decimal, internal_flash, sectors_a, sectors_g, append_text, append_number,
  prepare_memory_layout,
}

abbrev IsChar : ℕ → Type 0
IsChar c = 1 ≤ c

-- An array with the string `s`, and room for more behind its final 0.
pub record Holds (s : List ℕ) (room : ℕ) (arr : List ℕ) : Type 0 where
  pub rest : List ℕ
  pub shape : arr ≡ s ++ (0 ∷ rest)
  pub free : length rest ≡ room
  pub chars : All IsChar s

All-append : (s t : List ℕ) → All IsChar s → All IsChar t → All IsChar (s ++ t)
All-append [] t p q = q
All-append (c ∷ s) t p q = (p.0, All-append s t p.1 q)

put_at-append :
    (s t rest : List ℕ)
    → length t ≤ length rest
    → (tail : List ℕ) × (put_at (length s) t (s ++ rest) ≡ some (s ++ (t ++ tail)))
      × (length t + length tail ≡ length rest)
unfolding put_at
put_at-append [] [] rest le = (rest, refl, omega arith)
put_at-append [] (x ∷ t) [] le = absurd (omega arith)
put_at-append [] (x ∷ t) (y ∷ rest) le =
    let (tail, e, l) = put_at-append [] t rest (omega arith) in (tail, rw e refl, omega (arith, l))
put_at-append (c ∷ s) [] rest le = (rest, refl, omega arith)
put_at-append (c ∷ s) (x ∷ t) rest le =
    let (tail, e, l) = put_at-append s (x ∷ t) rest le in (tail, rw e refl, l)

xstrlen-append : (s rest : List ℕ) → All IsChar s → xstrlen (s ++ (0 ∷ rest)) ≡ some (length s)
unfolding xstrlen
xstrlen-append [] rest p = refl
xstrlen-append (c ∷ s) rest p =
    let char : (c == 0) ≡ false = is_char c p.0 in
    let more = xstrlen-append s rest p.1 in rw (char, more) refl
  where
    is_char : (c : ℕ) → 1 ≤ c → (c == 0) ≡ false
    is_char c le = ground arith

xstrcat-put_at :
    (arr t : List ℕ) (n : ℕ) → xstrlen arr ≡ some n → xstrcat arr t ≡ put_at n (t ++ (0 ∷ [])) arr
xstrcat-put_at arr t n e = rw (e, xstrcat) refl

xstrcat-Holds :
    (s t : List ℕ) (room : ℕ) (arr : List ℕ)
    → Holds s room arr
    → All IsChar t
    → length t ≤ room
    → (r : List ℕ) × (xstrcat arr t ≡ some r) × Holds (s ++ t) (room - length t) r
xstrcat-Holds s t room arr h chars le =
    let zero_end = length-append t (0 ∷ []) in
    let (tail, e, l) =
      put_at-append s (t ++ (0 ∷ [])) (0 ∷ h.rest) (omega (arith, h.free, zero_end)) in
    let len = xstrlen-append s h.rest h.chars in
    (
      s ++ ((t ++ (0 ∷ [])) ++ tail),
      rw h.shape (xstrcat-put_at (s ++ (0 ∷ h.rest)) t (length s) len ∙ e),
      record {
        rest = tail;
        shape = rw (append_assoc t (0 ∷ []) tail) (sym (append_assoc s t (0 ∷ tail)));
        free = omega (arith, l, h.free, zero_end);
        chars = All-append s t h.chars chars;
      },
    )

-- The number that a string of decimal digits stands for.
abbrev pub value : ℕ → List ℕ → ℕ
value v [] = v
value v (c ∷ s) = value (v * 10 + (c - 48)) s

value-append : (v : ℕ) (s : List ℕ) (c : ℕ) → value v (s ++ (c ∷ [])) ≡ value v s * 10 + (c - 48)
value-append v [] c = refl
value-append v (d ∷ s) c = value-append (v * 10 + (d - 48)) s c

abbrev limit : ℕ → ℕ
limit zero = 1
limit (suc k) = 10 * limit k

-- Enough room gives the digits of the number, in front of what stands there.
decimal-value :
    (k n : ℕ) (p : List ℕ)
    → n < limit (suc k)
    → (s : List ℕ) × (decimal (suc k) n p ≡ some (s ++ p))
      × (value 0 s ≡ n)
      × All IsChar s
      × (length s ≤ suc k)
unfolding decimal
decimal-value zero n p lt =
    let is : (n / 10 == 0) ≡ true = eq→== (n / 10) 0 (omega arith) in
    ((48 + n % 10) ∷ [], rw is refl, omega arith, (omega arith, tt), omega arith)
decimal-value (suc k) n p lt = elim (Bool-cases (n / 10 == 0)) [
  | inl is ↦
      let e = ==→eq (n / 10) 0 is in
      ((48 + n % 10) ∷ [], rw is refl, omega (arith, e), (omega arith, tt), omega arith)
  | inr more ↦
      let c = 48 + n % 10 in
      let (s, e, v, chars, l) = decimal-value k (n / 10) (c ∷ p) (omega (arith, lt)) in
      (
        s ++ (c ∷ []),
        rw (more, e, append_assoc s (c ∷ []) p) refl,
        omega (arith, value-append 0 s c, v),
        All-append s (c ∷ []) chars (omega arith, tt),
        omega (arith, length-append s (c ∷ []), l),
      )
]

append_text-Holds :
    (s t : List ℕ) (room : ℕ) (arr : List ℕ) (o : Option (List ℕ))
    → o ≡ some arr
    → Holds s room arr
    → All IsChar t
    → length t ≤ room
    → (r : List ℕ) × (append_text t o ≡ some r) × Holds (s ++ t) (room - length t) r
append_text-Holds s t room arr o e h chars le =
    let (r, f, g) = xstrcat-Holds s t room arr h chars le in (r, rw e f, g)

append_number-append_text :
    (n : ℕ) (t : List ℕ) (o : Option (List ℕ))
    → decimal 7 n [] ≡ some t
    → append_number n o ≡ append_text t o
append_number-append_text n t o e = rw (e, append_number) refl

append_number-Holds :
    (s : List ℕ) (n room : ℕ) (arr : List ℕ) (o : Option (List ℕ))
    → o ≡ some arr
    → Holds s room arr
    → n < limit 7
    → 7 ≤ room
    → (t : List ℕ) × (r : List ℕ) × (append_number n o ≡ some r)
      × Holds (s ++ t) (room - length t) r
      × (value 0 t ≡ n)
      × (length t ≤ 7)
append_number-Holds s n room arr o e h lt le =
    let (t, d, v, chars, l) = decimal-value 6 n [] lt in
    let (r, f, g) = append_text-Holds s t room arr o e h chars (omega (arith, l)) in
    let digits : decimal 7 n [] ≡ some t = d ∙ ap some (append-nil t) in
    (t, r, append_number-append_text n t o digits ∙ f, g, v, l)

-- The text of a layout: the first area's sectors and the second's, with the size of a sector.
pub record Describes (page boot user : ℕ) (arr : List ℕ) : Type 0 where
  pub boot_digits : List ℕ
  pub user_digits : List ℕ
  pub room : ℕ
  pub boot_value : value 0 boot_digits ≡ boot
  pub user_value : value 0 user_digits ≡ user
  pub short : length boot_digits + length user_digits ≤ 14
  pub text :
      Holds
        ((((internal_flash ++ boot_digits) ++ sectors_a page) ++ user_digits) ++ sectors_g page)
        room
        arr

sectors-chars : (page : ℕ) → All IsChar (sectors_a page) × All IsChar (sectors_g page)
sectors-chars page = cases (page == 2)
  where
    cases :
        (b : Bool)
        → All IsChar (42 ∷ 48 ∷ 48 ∷ (if b then 50 else 49) ∷ 75 ∷ 97 ∷ 44 ∷ [])
          × All IsChar (42 ∷ 48 ∷ 48 ∷ (if b then 50 else 49) ∷ 75 ∷ 103 ∷ [])
    cases true = (ground arith, ground arith)
    cases false = (ground arith, ground arith)

start-Holds :
    (arr : List ℕ)
    → length arr ≡ 64
    → (r : List ℕ) × (put_at 0 (internal_flash ++ (0 ∷ [])) arr ≡ some r)
      × Holds internal_flash 35 r
start-Holds arr len =
    let (tail, e, l) = put_at-append [] (internal_flash ++ (0 ∷ [])) arr (omega (arith, len)) in
    (
      (internal_flash ++ (0 ∷ [])) ++ tail,
      e,
      record { rest = tail; shape = refl; free = omega (arith, l, len); chars = ground arith },
    )

layout-Describes :
    (page boot user : ℕ) (arr : List ℕ)
    → length arr ≡ 64
    → boot < limit 7
    → user < limit 7
    → (r : List ℕ) × (append_text (sectors_g page) (
          append_number user (
            append_text
              (sectors_a page)
              (append_number boot (put_at 0 (internal_flash ++ (0 ∷ [])) arr))))
        ≡ some r)
      × Describes page boot user r
layout-Describes page boot user arr len small fits =
    let (a0, e0, h0) = start-Holds arr len in
    let (s, a1, e1, h1, v1, l1) =
      append_number-Holds internal_flash boot 35 a0 _ e0 h0 small (omega arith) in
    let (a2, e2, h2) =
      append_text-Holds (internal_flash ++ s) (sectors_a page) (35 - length s) a1 _ e1 h1
        (sectors-chars page).0 (omega (arith, l1)) in
    let (t, a3, e3, h3, v3, l3) =
      append_number-Holds ((internal_flash ++ s) ++ sectors_a page) user (35 - length s - 7) a2 _ e2
        h2 fits (omega (arith, l1)) in
    let (a4, e4, h4) =
      append_text-Holds (((internal_flash ++ s) ++ sectors_a page) ++ t) (sectors_g page)
        (35 - length s - 7 - length t) a3 _ e3 h3 (sectors-chars page).1 (omega (arith, l1, l3)) in
    (
      a4,
      e4,
      record {
        boot_digits = s;
        user_digits = t;
        room = 35 - length s - 7 - length t - 6;
        boot_value = v1;
        user_value = v3;
        short = omega (arith, l1, l3);
        text = h4;
      },
    )

-- For a flash of at least the boot loader's size, whose size fits its register, the memory layout fits
-- its array of 64 bytes, and names the pages of the boot loader and of the rest, and their size.
pub memory_layout-Describes :
    (gd : Bool) (flash_size : ℕ) (memory_layout : List ℕ)
    → length memory_layout ≡ 64
    → bootldr_size_kb ≤ flash_size
    → flash_size < 2 ^ 16
    → (r : List ℕ) × (prepare_memory_layout gd flash_size memory_layout ≡ some r)
      × Describes
          (if gd then 2 else 1)
          (if gd then 4 else 8)
          ((flash_size - 8) / (if gd then 2 else 1))
          r
unfolding prepare_memory_layout get_flash_page_size
memory_layout-Describes true flash_size arr len low high =
    layout-Describes 2 4 ((flash_size - 8) / 2) arr len (omega arith) (omega arith)
memory_layout-Describes false flash_size arr len low high =
    layout-Describes 1 8 ((flash_size - 8) / 1) arr len (omega arith) (omega arith)
