-- ===== src/Usb/Spared/Requests.antt =====
-- The requests to usb.cpp leave the boot loader's flash as it is.
use swindle_bootloader_gd.Common.{
  ℕ, zero, suc, ◌+◌, ◌-◌, ◌*◌, ◌/◌, ◌%◌, ◌≤◌, bit_and, true, not, ◌||◌, Option, none, some, List,
  [], ◌∷◌, leb, ◌==◌, if◌then◌else◌, arith, u8, length, get_elem?,
}
use swindle_bootloader_gd.Common.Partial.{holds, Any, Safe, Safe-bind, Safe-if, Safe-change}
use swindle_bootloader_gd.Bus.{Env}
use swindle_bootloader_gd.Flash.Spared.{Spared}
use swindle_bootloader_gd.Device.{Config, Chip, ReturnCode, notsupp, handled, next_callback}
use swindle_bootloader_gd.Dfu.{Reply}
use swindle_bootloader_gd.Dfu.Spared.Requests.{control_request-Spares}
use swindle_bootloader_gd.Usb.Registers.{tx_disabled, rx_disabled}
use swindle_bootloader_gd.Usb.Descriptors.{
  max_packet_size, dev_desc, config_desc, configuration_value,
}
use swindle_bootloader_gd.Usb.Requests.{
  langid_english_us, pm_top_start, strlen, wide, is_class_interface, string_answer, string_at,
  get_string, standard_get_descriptor, disable_endpoints, standard_request_device,
  standard_request_interface, standard_request_endpoint, standard_request, class_request,
  or_standard, control_request_dispatch,
}
use swindle_bootloader_gd.Usb.Spared.{
  rx_stat-Spared, tx_stat-Spared, stall_set-Spared, stall_get-Spared,
}
use swindle_bootloader_gd.Usb.Spared.State.{
  Sparing, on_hw-Sparing, on_dfu-Sparing, set_datasize-Sparing, put_buffer-Sparing, code-Sparing,
  answer-Sparing,
}

string_at-Sparing : (str : Option (List ℕ)) (index : ℕ) → Safe Sparing Any (string_at str index)
unfolding string_at string_answer
string_at-Sparing none index = code-Sparing notsupp
string_at-Sparing (some str) index =
    let size = u8 (strlen str * 2 + 2) in
    Safe-if (index == langid_english_us)
      (Safe-bind (put_buffer-Sparing 0 (size ∷ [])) λ _ _.
        Safe-bind (set_datasize-Sparing size) λ _ _.
          Safe-bind (put_buffer-Sparing 2 (wide (strlen str) str)) λ _ _. code-Sparing handled)
      (code-Sparing notsupp)

module _ (env : Env) (cfg : Config) (chip : Chip) (strings : List (List ℕ)) where
  get_string-Sparing : (idx : ℕ) → Safe Sparing Any (get_string env cfg chip strings idx)
  unfolding get_string
  get_string-Sparing idx = Safe-bind (put_buffer-Sparing 1 (3 ∷ [])) λ _ _.
      Safe-if (idx == 0)
        (Safe-bind (put_buffer-Sparing 2 (langid_english_us % 256 ∷ langid_english_us / 256 ∷ []))
          λ _ _. answer-Sparing (4 ∷ []) 4)
        (record {
          run = λ s i. Safe.run (string_at-Sparing (get_elem? strings (idx - 1)) s.req.index) s i;
        })

  descriptor-Sparing : Safe Sparing Any (standard_get_descriptor env cfg chip strings)
  unfolding standard_get_descriptor
  descriptor-Sparing = record {
    run = λ s i.
        let idx = s.req.value % 256 in
        let type = s.req.value / 256 in
        Safe.run
          (Safe-if (type == 1) (answer-Sparing dev_desc (length dev_desc)) (
            Safe-if (type == 2) (answer-Sparing (config_desc cfg) (length (config_desc cfg)))
              (Safe-if (type == 3) (get_string-Sparing idx) (code-Sparing notsupp))))
          s i;
  }

  disable-Spared :
      (n i : ℕ) → i + n ≤ 256 → Safe Spared Any (disable_endpoints env cfg chip strings n i)
  unfolding disable_endpoints
  disable-Spared zero i h = record { run = λ l s. holds (tt, s) }
  disable-Spared (suc n) i h = record {
    run = λ l s.
        Safe.run
          (Safe-bind (tx_stat-Spared env i tx_disabled (omega arith)) λ _ _.
            Safe-bind (rx_stat-Spared env i rx_disabled (omega arith))
              λ _ _. disable-Spared n (i + 1) (omega arith))
          l s;
  }

  device-Sparing : Safe Sparing Any (standard_request_device env cfg chip strings)
  unfolding standard_request_device
  device-Sparing = record {
    run = λ s i.
        let r = s.req.request in
        Safe.run
          (Safe-if (r == 5)
            (code-Sparing
              (if not (s.req.request_type == 0) || leb 128 s.req.value then notsupp else handled))
            (Safe-if (r == 9)
              (Safe-if (s.req.value == configuration_value)
                (Safe-bind (on_hw-Sparing (disable-Spared 7 1 (omega arith))) λ _ _.
                  Safe-bind
                    (Safe-change (λ t. record t { pm_top = pm_top_start + 2 * max_packet_size })
                      λ t j. j)
                    λ _ _. code-Sparing handled)
                (code-Sparing notsupp))
              (Safe-if (r == 8) (answer-Sparing (1 ∷ []) 1) (
                Safe-if (r == 6) descriptor-Sparing
                  (Safe-if (r == 0) (answer-Sparing (0 ∷ 0 ∷ []) 2) (code-Sparing notsupp))))))
          s i;
  }

  interface-Sparing : Safe Sparing Any (standard_request_interface env cfg chip strings)
  unfolding standard_request_interface
  interface-Sparing = record {
    run = λ s i.
        let r = s.req.request in
        Safe.run
          (Safe-if (r == 10) (answer-Sparing (1 ∷ []) 1) (
            Safe-if (r == 11) (Safe-bind (set_datasize-Sparing 0) λ _ _. code-Sparing handled) (
              Safe-if (r == 0)
                (Safe-bind (set_datasize-Sparing 2)
                  λ _ _. Safe-bind (put_buffer-Sparing 0 (0 ∷ 0 ∷ [])) λ _ _. code-Sparing notsupp)
                (code-Sparing notsupp))))
          s i;
  }

  endpoint-Sparing : Safe Sparing Any (standard_request_endpoint env cfg chip strings)
  unfolding standard_request_endpoint
  endpoint-Sparing = record {
    run = λ s i.
        let r = s.req.request in
        Safe.run
          (Safe-if (r == 1 || r == 3)
            (Safe-if (s.req.value == 0)
              (Safe-bind
                (on_hw-Sparing (stall_set-Spared env (u8 s.req.index) (r == 3) (omega arith)))
                λ _ _. code-Sparing handled)
              (code-Sparing notsupp))
            (Safe-if (r == 0)
              (Safe-bind (on_hw-Sparing (stall_get-Spared env (u8 s.req.index))) λ st _.
                Safe-bind (put_buffer-Sparing 0 ((if st then 1 else 0) ∷ 0 ∷ []))
                  λ _ _. Safe-bind (set_datasize-Sparing 2) λ _ _. code-Sparing handled)
              (code-Sparing notsupp)))
          s i;
  }

  standard-Sparing : Safe Sparing Any (standard_request env cfg chip strings)
  unfolding standard_request
  standard-Sparing = record {
    run = λ s i.
        let t = s.req.request_type in
        Safe.run
          (Safe-if (not (bit_and t 0x60 == 0)) (code-Sparing notsupp) (
            Safe-if (bit_and t 0x1F == 0) device-Sparing (
              Safe-if (bit_and t 0x1F == 1) interface-Sparing
                (Safe-if (bit_and t 0x1F == 2) endpoint-Sparing (code-Sparing notsupp)))))
          s i;
  }

  class-Sparing : Safe Sparing Any (class_request env cfg chip strings)
  unfolding class_request
  class-Sparing = record {
    run = λ s i.
        Safe.run
          (Safe-bind (on_dfu-Sparing (control_request-Spares env cfg chip s.req s.req.length))
            λ r _. took r)
          (record s { datasize = s.req.length }) i;
  }
    where
      took :
          (r : Reply)
          → Safe Sparing Any (λ t. some (
            r.code,
            record t { datasize = r.len; complete_cb = if r.complete then true else t.complete_cb },
          ))
      took r = record { run = λ t j. holds (tt, j) }

  or_standard-Sparing :
      (code : ReturnCode) → Safe Sparing Any (or_standard env cfg chip strings code)
  or_standard-Sparing next_callback = standard-Sparing
  or_standard-Sparing handled = code-Sparing handled
  or_standard-Sparing notsupp = code-Sparing notsupp

  pub dispatch-Sparing : Safe Sparing Any (control_request_dispatch env cfg chip strings)
  unfolding control_request_dispatch
  dispatch-Sparing = record {
    run = λ s i.
        Safe.run
          (Safe-if (is_class_interface s.req.request_type)
            (Safe-bind class-Sparing λ code _. or_standard-Sparing code) standard-Sparing)
          s i;
  }
