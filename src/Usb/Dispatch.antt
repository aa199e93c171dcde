-- ===== src/Usb/Dispatch.antt =====
-- Every request that usb.cpp dispatches is served within the control buffer.
use swindle_bootloader_gd.Common.{
  ℕ, zero, suc, ◌+◌, ◌-◌, ◌*◌, ◌/◌, ◌%◌, ◌≤◌, ◌≡◌, refl, bit_and, true, not, ◌||◌, Option, none,
  some, List, [], ◌∷◌, leb, ◌==◌, if◌then◌else◌, u8, arith, All, length, sym, and_then, get_elem?,
  Returns, returns, Returns-if, Keeps, Keeps-pure, Keeps-bind, Keeps-if, Gives-pure, Gives-bind,
  Gives-if,
}
use swindle_bootloader_gd.Bus.{Done, Env}
use swindle_bootloader_gd.Device.{
  Config, Chip, SetupData, ReturnCode, notsupp, handled, next_callback, dfu_transfer_size, Dfu,
}
use swindle_bootloader_gd.Dfu.{Reply, usbdfu_control_request}
use swindle_bootloader_gd.Dfu.Sized.{IsSized, control_request-IsSized}
use swindle_bootloader_gd.Dfu.Answer.{control_request-len}
use swindle_bootloader_gd.Usb.Registers.{set_ep_tx_stat, set_ep_rx_stat, tx_disabled, rx_disabled}
use swindle_bootloader_gd.Usb.State.{Usb}
use swindle_bootloader_gd.Usb.Packets.{ep_stall_get}
use swindle_bootloader_gd.Usb.Descriptors.{
  max_packet_size, dev_desc, config_desc, configuration_value,
}
use swindle_bootloader_gd.Usb.Requests.{
  pm_top_start, langid_english_us, strlen, wide, answer, string_answer, string_at, get_string,
  standard_get_descriptor, disable_endpoints, standard_request_device, standard_request_interface,
  standard_request_endpoint, standard_request, is_class_interface, class_request, or_standard,
  control_request_dispatch,
}
use swindle_bootloader_gd.Usb.Hardware.{ep_stall_set-Done}
use swindle_bootloader_gd.Usb.Base.{Base, on_hw-Base, set_datasize-Base, put_buffer-Base}

-- A string whose descriptor the control buffer holds.
abbrev pub FitsString : List ℕ → Type 0
FitsString str = 2 * strlen str + 2 ≤ dfu_transfer_size

wide-length : (n : ℕ) (s : List ℕ) → length (wide n s) ≤ 2 * n
unfolding wide
wide-length zero s = omega arith
wide-length (suc n) [] = omega arith
wide-length (suc n) (c ∷ s) = omega (arith, wide-length n s)

FitsString-get_elem? :
    (strings : List (List ℕ)) (i : ℕ) (str : List ℕ)
    → All FitsString strings
    → get_elem? strings i ≡ some str
    → FitsString str
FitsString-get_elem? [] i str fits e = cc
FitsString-get_elem? (x ∷ xs) zero str fits e = ground (arith, fits.0)
FitsString-get_elem? (x ∷ xs) (suc i) str fits e = FitsString-get_elem? xs i str fits.1 e

set_stat-Done :
    (env : Env) (ep stat : ℕ)
    → Done (set_ep_tx_stat env ep stat) × Done (set_ep_rx_stat env ep stat)
unfolding set_ep_tx_stat set_ep_rx_stat
set_stat-Done env ep stat = (record { run = λ h. returns tt }, record { run = λ h. returns tt })

disable_endpoints-Done :
    (env : Env) (cfg : Config) (chip : Chip) (strings : List (List ℕ)) (n i : ℕ)
    → Done (disable_endpoints env cfg chip strings n i)
unfolding disable_endpoints
disable_endpoints-Done env cfg chip strings zero i = Gives-pure tt tt
disable_endpoints-Done env cfg chip strings (suc n) i =
    Gives-bind (set_stat-Done env i tx_disabled).0 λ _ _.
      Gives-bind (set_stat-Done env i rx_disabled).1
        λ _ _. disable_endpoints-Done env cfg chip strings n (i + 1)

ep_stall_get-Done : (env : Env) (addr : ℕ) → Done (ep_stall_get env addr)
unfolding ep_stall_get
ep_stall_get-Done env addr =
    Gives-if (not (bit_and addr 0x80 == 0)) (record { run = λ h. returns tt })
      (record { run = λ h. returns tt })

module _ {r : SetupData} {start : ℕ} where
  answer-Base :
      (bytes : List ℕ) (n : ℕ)
      → length bytes ≤ dfu_transfer_size
      → n ≤ dfu_transfer_size
      → Keeps (Base r start) (answer bytes n)
  answer-Base bytes n fits le =
      Keeps-bind (put_buffer-Base 0 bytes (omega arith))
        λ _. Keeps-bind (set_datasize-Base n le) λ _. Keeps-pure handled

  string_at-Base :
      (o : Option (List ℕ)) (index : ℕ)
      → ((str : List ℕ) → o ≡ some str → FitsString str)
      → Keeps (Base r start) (string_at o index)
  unfolding string_at string_answer
  string_at-Base none index fits = Keeps-pure notsupp
  string_at-Base (some str) index fits =
      let n = strlen str in
      let fit : 2 * n + 2 ≤ dfu_transfer_size = fits str refl in
      Keeps-if (index == langid_english_us)
        (Keeps-bind (put_buffer-Base 0 (u8 (n * 2 + 2) ∷ []) (omega arith)) λ _.
          Keeps-bind (set_datasize-Base (u8 (n * 2 + 2)) (omega arith)) λ _.
            Keeps-bind (put_buffer-Base 2 (wide n str) (omega (arith, wide-length n str)))
              λ _. Keeps-pure handled)
        (Keeps-pure notsupp)

  pm_top-Base :
      Keeps
        (Base r start)
        (λ t. some (tt, record t { pm_top = pm_top_start + 2 * max_packet_size }))
  pm_top-Base = record {
    run = λ s b. returns (record { sized = b.sized; cap = b.cap; same = b.same; off = b.off });
  }

  module _ (env : Env) (cfg : Config) (chip : Chip) (strings : List (List ℕ))
      (fits : All FitsString strings) where
    get_string-Base : (idx : ℕ) → Keeps (Base r start) (get_string env cfg chip strings idx)
    unfolding get_string
    get_string-Base idx = Keeps-bind (put_buffer-Base 1 (3 ∷ []) (omega arith)) λ _.
        Keeps-if (idx == 0)
          (Keeps-bind (put_buffer-Base 2 (9 ∷ 4 ∷ []) (omega arith)) λ _.
            Keeps-bind (put_buffer-Base 0 (4 ∷ []) (omega arith))
              λ _. Keeps-bind (set_datasize-Base 4 (omega arith)) λ _. Keeps-pure handled)
          (record {
            run = λ s b.
                Keeps.run
                  (string_at-Base (get_elem? strings (idx - 1)) s.req.index
                    λ str e. FitsString-get_elem? strings (idx - 1) str fits e)
                  s b;
          })

    descriptor-Base : Keeps (Base r start) (standard_get_descriptor env cfg chip strings)
    unfolding standard_get_descriptor
    descriptor-Base = record {
      run = λ s b.
          let idx = s.req.value % 256 in
          let type = s.req.value / 256 in
          Keeps.run
            (Keeps-if (type == 1)
              (answer-Base dev_desc (length dev_desc) (omega arith) (omega arith))
              (Keeps-if (type == 2) config-Base
                (Keeps-if (type == 3) (get_string-Base idx) (Keeps-pure notsupp))))
            s b;
    }
      where
        config-Base : Keeps (Base r start) (answer (config_desc cfg) (length (config_desc cfg)))
        config-Base =
            answer-Base (config_desc cfg) (length (config_desc cfg)) (omega arith) (omega arith)

    device-Base : Keeps (Base r start) (standard_request_device env cfg chip strings)
    unfolding standard_request_device
    device-Base = record {
      run = λ s b.
          let q = s.req.request in
          let refused = not (s.req.request_type == 0) || leb 128 s.req.value in
          Keeps.run
            (Keeps-if (q == 5) (Keeps-pure (if refused then notsupp else handled)) (
              Keeps-if (q == 9)
                (Keeps-if (s.req.value == configuration_value)
                  (Keeps-bind (on_hw-Base (disable_endpoints-Done env cfg chip strings 7 1))
                    λ _. Keeps-bind pm_top-Base λ _. Keeps-pure handled)
                  (Keeps-pure notsupp))
                (Keeps-if (q == 8) (answer-Base (1 ∷ []) 1 (omega arith) (omega arith)) (
                  Keeps-if (q == 6) descriptor-Base (
                    Keeps-if (q == 0) (answer-Base (0 ∷ 0 ∷ []) 2 (omega arith) (omega arith))
                      (Keeps-pure notsupp))))))
            s b;
    }

    interface-Base : Keeps (Base r start) (standard_request_interface env cfg chip strings)
    unfolding standard_request_interface
    interface-Base = record {
      run = λ s b.
          let q = s.req.request in
          Keeps.run
            (Keeps-if (q == 10) (answer-Base (1 ∷ []) 1 (omega arith) (omega arith)) (
              Keeps-if (q == 11)
                (Keeps-bind (set_datasize-Base 0 (omega arith)) λ _. Keeps-pure handled)
                (Keeps-if (q == 0)
                  (Keeps-bind (set_datasize-Base 2 (omega arith)) λ _.
                    Keeps-bind (put_buffer-Base 0 (0 ∷ 0 ∷ []) (omega arith))
                      λ _. Keeps-pure notsupp)
                  (Keeps-pure notsupp))))
            s b;
    }

    endpoint-Base : Keeps (Base r start) (standard_request_endpoint env cfg chip strings)
    unfolding standard_request_endpoint
    endpoint-Base = record {
      run = λ s b.
          let q = s.req.request in
          let ep = u8 s.req.index in
          Keeps.run
            (Keeps-if (q == 1 || q == 3)
              (Keeps-if (s.req.value == 0)
                (Keeps-bind (on_hw-Base (ep_stall_set-Done env ep (q == 3)))
                  λ _. Keeps-pure handled)
                (Keeps-pure notsupp))
              (Keeps-if (q == 0)
                (Keeps-bind (on_hw-Base (ep_stall_get-Done env ep)) λ st.
                  Keeps-bind (put_buffer-Base 0 ((if st then 1 else 0) ∷ 0 ∷ []) (omega arith))
                    λ _. Keeps-bind (set_datasize-Base 2 (omega arith)) λ _. Keeps-pure handled)
                (Keeps-pure notsupp)))
            s b;
    }

    pub standard_request-Base : Keeps (Base r start) (standard_request env cfg chip strings)
    unfolding standard_request
    standard_request-Base = record {
      run = λ s b.
          let t = s.req.request_type in
          let to = bit_and t 0x1F in
          Keeps.run
            (Keeps-if (not (bit_and t 0x60 == 0)) (Keeps-pure notsupp) (
              Keeps-if (to == 0) device-Base (
                Keeps-if (to == 1) interface-Base
                  (Keeps-if (to == 2) endpoint-Base (Keeps-pure notsupp)))))
            s b;
    }

    class_request-Base :
        r.length ≤ dfu_transfer_size → Keeps (Base r start) (class_request env cfg chip strings)
    unfolding class_request
    class_request-Base le = record {
      run = λ s b.
          let small : s.req.length ≤ dfu_transfer_size = rw b.same le in
          after s b (usbdfu_control_request env cfg chip s.req s.req.length s.dfu)
            ((control_request-IsSized env cfg chip s.req s.req.length).run s.dfu b.sized)
            ((control_request-len env cfg chip s.req s.req.length small).run s.dfu);
    }
      where
        after :
            (s : Usb)
            → Base r start s
            → (o : Option (Reply × Dfu)) → Returns (λ _ t. IsSized t) o
            → Returns (λ a _. a.len ≤ dfu_transfer_size) o
            → Returns
                (λ _ t. Base r start t)
                (and_then
                  (elim o [
                    | none ↦ none
                    | some (a, d) ↦ some (a, record s { datasize = s.req.length; dfu = d })
                  ])
                  (λ a t. some (
                    a.code,
                    record t {
                      datasize = a.len;
                      complete_cb = if a.complete then true else t.complete_cb;
                    },
                  )))
        after s b none z p = elim z [ ]
        after s b (some (a, d)) (returns z) (returns p) =
            returns (record { sized = z; cap = p; same = b.same; off = b.off })

    or_standard-Base :
        (code : ReturnCode) → Keeps (Base r start) (or_standard env cfg chip strings code)
    or_standard-Base next_callback = standard_request-Base
    or_standard-Base handled = Keeps-pure handled
    or_standard-Base notsupp = Keeps-pure notsupp

    -- The dispatch comes back and keeps the sizes, for a class request of at most a buffer.
    pub dispatch-Base :
        (is_class_interface r.request_type ≡ true → r.length ≤ dfu_transfer_size)
        → Keeps (Base r start) (control_request_dispatch env cfg chip strings)
    unfolding control_request_dispatch
    dispatch-Base bound = record {
      run = λ s b.
          Returns-if (is_class_interface s.req.request_type) _ _ _
            (λ e.
              let same : is_class_interface r.request_type ≡ true = rw (sym b.same) e in
              Keeps.run (Keeps-bind (class_request-Base (bound same)) λ code. or_standard-Base code)
                s b)
            (λ _. standard_request-Base.run s b);
    }
