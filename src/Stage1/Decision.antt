-- ===== src/Stage1/Decision.antt =====
-- `main` of src_stage1/main.cpp, from reset to the jump.
use swindle_bootloader_gd.Common.{
  ℕ, ◌+◌, ◌^◌, ◌≡◌, ◌↔◌, refl, sym, Bool, false, not, ◌&&◌, List, [], ◌==◌, arith, M, and_then,
  ◌>>◌, Returns, returns, Returns-bind, Returns_mono,
}
use swindle_bootloader_gd.Bus.{Log, Env}
use swindle_bootloader_gd.Device.{start_addr}
use swindle_bootloader_gd.Board.{
  input_pullup, gpiob, gpioc, af, enable, mode_value, pin_mode, digital_read, rcu_switch,
  rcu_action, peripheral_action, identify, CpuId,
}
use swindle_bootloader_gd.Stage1.{
  ram_start_addr, force_dfu_io, marker_low, marker_high, clear_reboot_flags, rebooted_into_dfu,
  exti_swd_only, go_on, main,
}
use swindle_bootloader_gd.Stage1.Memory.{
  Outside, Memory, CrcUnit, Tells, Tells-pure, Tells-bind, Tells-if, or_into-Tells, Tells-load,
}
use swindle_bootloader_gd.Stage1.Boots.{
  Level, word_of, IsSound, IsBootable, is_marked, is_high, first_go, first_go-zero, last_word,
  app_address, IsCleared, Ends, go_on-Ends, check_image-Tells,
}

-- A step in front of the rest of a run.
Tells-then :
    {A B : Type 0} {P : A → Type 0} {R : B → Log → Type 0} {m : M Log A} {f : A → M Log B}
    → Tells P m
    → (h : Log) → Outside h
    → ((a : A) (t : Log) → P a → Outside t → Returns R (f a t))
    → Returns R (and_then (m h) f)
Tells-then k h o next = Returns-bind (k.run h o) λ a t (p, q). next a t p q

module _ (env : Env) where
  enable-Tells :
      Tells (λ _. Unit {0}) (peripheral_action env gpiob enable)
      × Tells (λ _. Unit {0}) (peripheral_action env gpioc enable)
      × Tells (λ _. Unit {0}) (peripheral_action env af enable)
  unfolding peripheral_action rcu_action rcu_switch
  enable-Tells = (
    or_into-Tells env 0x40021018 (2 ^ 3) (omega arith),
    or_into-Tells env 0x40021018 (2 ^ 4) (omega arith),
    or_into-Tells env 0x40021018 (2 ^ 0) (omega arith),
  )

  exti-Tells : Tells (λ _. Unit {0}) (exti_swd_only env)
  unfolding exti_swd_only
  exti-Tells = record { run = λ h o. returns (tt, (omega arith, (omega arith, o))) }

  pin_mode-Tells :
      (unset : ℕ) → Tells (λ _. Unit {0}) (pin_mode env unset force_dfu_io input_pullup 0)
  unfolding pin_mode mode_value
  pin_mode-Tells unset = record { run = λ h o. returns (tt, (omega arith, (omega arith, o))) }

  identify-Tells : (s : CpuId) → Tells (λ _. Unit {0}) (identify env s)
  unfolding identify
  identify-Tells s =
      Tells-if (not (s.flash_size == 0)) (λ _. Tells-pure s tt)
        (λ _. record { run = λ h o. returns (tt, o) })

  read-Tells :
      (pins : ℕ) → Level env pins → Tells (λ b. b ≡ is_high pins) (digital_read env force_dfu_io)
  unfolding digital_read
  read-Tells pins level = record { run = λ h o. let e = level h in returns (rw e refl, o) }

  module _ (initial : ℕ → ℕ) (memory : Memory env initial) where
    rebooted-Tells : Tells (λ b. b ≡ is_marked initial) (rebooted_into_dfu env)
    unfolding rebooted_into_dfu
    rebooted-Tells =
        Tells-bind (Tells-load env initial memory ram_start_addr (omega arith)) λ low e.
          Tells-bind (Tells-load env initial memory (ram_start_addr + 4) (omega arith))
            λ high f. Tells-pure ((low == marker_low) && (high == marker_high)) (rw (e, f) refl)

cleared-Ends :
    (env : Env) (payload : List ℕ) (result : ℕ) (t : Log)
    → Returns (Ends result) ((do clear_reboot_flags; go_on env payload result) t)
unfolding clear_reboot_flags last_word
cleared-Ends env payload result t = go_on-Ends env payload result _ (refl, refl)

-- The two steps of the decision, together.
decided :
    (initial : ℕ → ℕ) (crc : List ℕ → ℕ) (asked high : Bool) (result : ℕ) (P : Type 0)
    → (result ≡ 0) ↔ (
        (first_go asked high (word_of initial start_addr) ≡ 0)
        × IsSound initial crc
            (word_of initial (start_addr + 8))
            (word_of initial (start_addr + 12)))
    → P ↔ (result ≡ 0)
    → P ↔ IsBootable initial crc asked high
decided initial crc asked high result P (f, g) (p, q) =
    let (there, back) = first_go-zero asked high (word_of initial start_addr) in
    (
      (λ x.
          let (z, sound) = f (p x) in
          let (u, r, s) = there z in
          record { unasked = u; released = r; stack = s; sound = sound }),
      λ b. q (g (back (b.unasked, b.released, b.stack), b.sound)),
    )

-- From reset, `main` comes to a jump. It jumps to the application exactly if neither the marker nor
-- the pin asks for the DFU mode, the image's first word points to RAM, and the image is below 256 kB
-- and has the checksum of its words (or the values that stand for no checksum); then the marker is
-- cleared. This is for memory that only writes to it change, a pin at rest and a checksum unit that
-- gives a function of the words it was fed.
pub main-boots :
    (env : Env) (initial : ℕ → ℕ) (crc : List ℕ → ℕ) (pins unset : ℕ) (payload : List ℕ)
    → Memory env initial
    → CrcUnit env crc
    → Level env pins
    → Returns
        (λ j h.
          ((j.base ≡ app_address) ↔ IsBootable initial crc (is_marked initial) (is_high pins))
          × (j.base ≡ app_address → IsCleared h))
        (main env unset payload [])
unfolding main
main-boots env initial crc pins unset payload memory unit level =
    Tells-then (Tells-load env initial memory start_addr (omega arith)) [] tt λ sig h0 e o0.
      Tells-then (Tells-load env initial memory (start_addr + 8) (omega arith)) h0 o0
        λ size h1 f o1.
          Tells-then (Tells-load env initial memory (start_addr + 12) (omega arith)) h1 o1
            λ sum h2 g o2. Tells-then (rebooted-Tells env initial memory) h2 o2 λ asked h3 a o3.
              Tells-then (enable-Tells env).0 h3 o3 λ _ h4 _ o4.
                Tells-then (enable-Tells env).1 h4 o4 λ _ h5 _ o5.
                  Tells-then (enable-Tells env).2 h5 o5 λ _ h6 _ o6.
                    Tells-then (exti-Tells env) h6 o6 λ _ h7 _ o7.
                      Tells-then (pin_mode-Tells env unset) h7 o7 λ _ h8 _ o8.
                        Tells-then (read-Tells env pins level) h8 o8 λ high h9 b o9.
                          Tells-then (or_into-Tells env 0x40021024 (2 ^ 24) (omega arith)) h9 o9
                            λ _ h10 _ o10.
                              Tells-then
                                (identify-Tells env
                                  (record { cpu_id = 0; flash_size = 0; gd = false }))
                                h10 o10
                                λ _ h11 _ o11.
                                  Tells-then
                                    (check_image-Tells env initial memory crc unit
                                      (first_go asked high sig) size sum)
                                    h11 o11
                                    λ result h12 c o12.
                                      Returns_mono (cleared-Ends env payload result h12)
                                        λ j t (d, clear). (
                                          decided initial crc (is_marked initial) (is_high pins)
                                              result (j.base ≡ app_address)
                                              (rw (sym a, sym b, sym e, sym f, sym g) c) d,
                                          clear,
                                        )
