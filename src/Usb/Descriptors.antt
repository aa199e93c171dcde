-- ===== src/Usb/Descriptors.antt =====
-- The descriptors of src_stage2/usb.cpp, as the bytes that are sent (least significant first).
use swindle_bootloader_gd.Common.{ℕ, List, [], ◌∷◌, if◌then◌else◌}
use swindle_bootloader_gd.Device.{Config}

abbrev pub max_packet_size : ℕ
max_packet_size = 64

-- `dev_desc`, with the ids of usb_vid_pid.h
abbrev pub dev_desc : List ℕ
dev_desc =
    18 ∷ 1 ∷ 0x00 ∷ 0x02 ∷ 0 ∷ 0 ∷ 0 ∷ max_packet_size ∷ 0x50 ∷ 0x1d ∷ 0x31 ∷ 0x60 ∷ 0x00 ∷ 0x02 ∷ 1
    ∷ 2 ∷ 3 ∷ 1 ∷ []

-- `config_desc`: the configuration, the interface and the DFU function
abbrev pub configuration_value : ℕ
configuration_value = 1

abbrev pub config_desc : Config → List ℕ
config_desc cfg =
    9
    ∷ 2
    ∷ 27
    ∷ 0
    ∷ 1
    ∷ configuration_value
    ∷ 5
    ∷ 0xC0
    ∷ 0x32
    ∷ 9
    ∷ 4
    ∷ 0
    ∷ 0
    ∷ 0
    ∷ 0xFE
    ∷ 1
    ∷ 2
    ∷ 4
    ∷ 9
    ∷ 0x21
    ∷ (if cfg.dfu_upload then 11 else 9)
    ∷ 255
    ∷ 0
    ∷ 0x00
    ∷ 0x10
    ∷ 0x1A
    ∷ 0x01
    ∷ []
