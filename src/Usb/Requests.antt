-- ===== src/Usb/Requests.antt =====
-- The standard requests of src_stage2/usb.cpp and the dispatch of a request.
use swindle_bootloader_gd.Common.{
  ℕ, zero, suc, ◌+◌, ◌-◌, ◌*◌, ◌/◌, ◌%◌, bit_and, Bool, true, not, ◌||◌, Option, none, some, List,
  [], ◌∷◌, leb, ◌==◌, if◌then◌else◌, u8, length, get_elem?, M, pure, ◌>>=◌, ◌>>◌,
}
use swindle_bootloader_gd.Bus.{Log, Env}
use swindle_bootloader_gd.Device.{Config, Chip, ReturnCode, notsupp, handled, next_callback}
use swindle_bootloader_gd.Dfu.{usbdfu_control_request}
use swindle_bootloader_gd.Usb.Registers.{set_ep_tx_stat, set_ep_rx_stat, tx_disabled, rx_disabled}
use swindle_bootloader_gd.Usb.State.{Usb, on_hw, on_dfu, set_datasize, put_at, put_buffer}
use swindle_bootloader_gd.Usb.Packets.{ep_stall_set, ep_stall_get}
use swindle_bootloader_gd.Usb.Descriptors.{
  max_packet_size, dev_desc, config_desc, configuration_value,
}

abbrev pub langid_english_us : ℕ
langid_english_us = 0x409

abbrev pub pm_top_start : ℕ
pm_top_start = 0x40

-- `strlen` of usb.cpp, on the bytes from the pointer on
unfoldable pub strlen : List ℕ → ℕ
strlen [] = 0
strlen (c ∷ s) = if c == 0 then 0 else suc (strlen s)

-- the first `n` characters as UTF-16
unfoldable pub wide : ℕ → List ℕ → List ℕ
wide zero s = []
wide (suc n) [] = []
wide (suc n) (c ∷ s) = c ∷ 0 ∷ wide n s

-- The mask and the value of the test of `_usb_control_request_dispatch`
abbrev pub is_class_interface : ℕ → Bool
is_class_interface t = bit_and t 0x7F == 0x21

-- An answer in the control buffer.
abbrev pub answer : List ℕ → ℕ → M Usb ReturnCode
answer bytes n = do put_buffer 0 bytes; set_datasize n; pure handled

-- `_usb_strings[i]` for an index in range, then the rest of `case USB_DT_STRING`
unfoldable pub string_answer : List ℕ → M Usb ReturnCode
unfolding strlen wide put_at
string_answer str =
    let numchars = strlen str in
    let size = u8 (numchars * 2 + 2) in
    do put_buffer 0 (size ∷ []); set_datasize size; put_buffer 2 (wide numchars str); pure handled

-- The two range checks: of the index, and of the language.
unfoldable pub string_at : Option (List ℕ) → ℕ → M Usb ReturnCode
unfolding string_answer
string_at none index = pure notsupp
string_at (some str) index = if index == langid_english_us then string_answer str else pure notsupp

module _ (env : Env) (cfg : Config) (chip : Chip) (strings : List (List ℕ)) where
  unfoldable pub get_string : ℕ → M Usb ReturnCode
  unfolding string_at put_at
  get_string idx = do
    put_buffer 1 (3 ∷ [])
    if idx == 0
        then (do
          put_buffer 2 (langid_english_us % 256 ∷ langid_english_us / 256 ∷ [])
          put_buffer 0 (4 ∷ [])
          set_datasize 4
          pure handled)
        else (λ s. string_at (get_elem? strings (idx - 1)) s.req.index s)

  unfoldable pub standard_get_descriptor : M Usb ReturnCode
  unfolding get_string put_at
  standard_get_descriptor s =
      let idx = s.req.value % 256 in
      let type = s.req.value / 256 in
      (if type == 1
          then answer dev_desc (length dev_desc)
          else if type == 2
          then answer (config_desc cfg) (length (config_desc cfg))
          else if type == 3
          then get_string idx
          else pure notsupp)
        s

  -- `for (int i = 1; i < 8; i++)`, with the rounds left
  unfoldable pub disable_endpoints : ℕ → ℕ → M Log (Unit {0})
  unfolding set_ep_tx_stat set_ep_rx_stat
  disable_endpoints zero i h = pure tt h
  disable_endpoints (suc n) i h =
      (do
        set_ep_tx_stat env i tx_disabled
        set_ep_rx_stat env i rx_disabled
        disable_endpoints n (i + 1))
        h

  unfoldable pub standard_request_device : M Usb ReturnCode
  unfolding standard_get_descriptor disable_endpoints put_at
  standard_request_device s =
      let r = s.req.request in
      (if r == 5
          then pure
              (if not (s.req.request_type == 0) || leb 128 s.req.value then notsupp else handled)
          else if r == 9
          then (if s.req.value == configuration_value
              then (do
                on_hw (disable_endpoints 7 1)
                λ t. some (tt, record t { pm_top = pm_top_start + 2 * max_packet_size })
                pure handled)
              else pure notsupp)
          else if r == 8
          then answer (1 ∷ []) 1
          else if r == 6
          then standard_get_descriptor
          else if r == 0
          then answer (0 ∷ 0 ∷ []) 2
          else pure notsupp)
        s

  -- GET_STATUS prepares an answer and is then refused, as the `break` of the code has it.
  unfoldable pub standard_request_interface : M Usb ReturnCode
  unfolding put_at
  standard_request_interface s =
      let r = s.req.request in
      (if r == 10
          then answer (1 ∷ []) 1
          else if r == 11
          then (do set_datasize 0; pure handled)
          else if r == 0
          then (do set_datasize 2; put_buffer 0 (0 ∷ 0 ∷ []); pure notsupp)
          else pure notsupp)
        s

  -- The endpoint address is the low byte of `wIndex`, the parameter's type.
  unfoldable pub standard_request_endpoint : M Usb ReturnCode
  unfolding ep_stall_set ep_stall_get put_at
  standard_request_endpoint s =
      let r = s.req.request in
      (if r == 1 || r == 3
          then (if s.req.value == 0
              then (do on_hw (ep_stall_set env (u8 s.req.index) (r == 3)); pure handled)
              else pure notsupp)
          else if r == 0
          then (do
            st ← on_hw (ep_stall_get env (u8 s.req.index))
            put_buffer 0 ((if st then 1 else 0) ∷ 0 ∷ [])
            set_datasize 2
            pure handled)
          else pure notsupp)
        s

  unfoldable pub standard_request : M Usb ReturnCode
  unfolding standard_request_device standard_request_interface standard_request_endpoint
  standard_request s =
      let t = s.req.request_type in
      (if not (bit_and t 0x60 == 0)
          then pure notsupp
          else if bit_and t 0x1F == 0
          then standard_request_device
          else if bit_and t 0x1F == 1
          then standard_request_interface
          else if bit_and t 0x1F == 2
          then standard_request_endpoint
          else pure notsupp)
        s

  -- The DFU application's answer sets `datasize` and, if it names one, the callback.
  unfoldable pub class_request : M Usb ReturnCode
  unfolding usbdfu_control_request
  class_request s =
      (do
        r ← on_dfu (usbdfu_control_request env cfg chip s.req s.req.length)
        λ t. some (
          r.code,
          record t { datasize = r.len; complete_cb = if r.complete then true else t.complete_cb },
        ))
        (record s { datasize = s.req.length })

  abbrev pub or_standard : ReturnCode → M Usb ReturnCode
  or_standard next_callback = standard_request
  or_standard code = pure code

  unfoldable pub control_request_dispatch : M Usb ReturnCode
  unfolding class_request standard_request
  control_request_dispatch s =
      (if is_class_interface s.req.request_type
          then (do code ← class_request; or_standard code)
          else standard_request)
        s
