-- ===== src/Examples/World.antt =====
-- A concrete world for the examples: a chip, a flash controller that is busy for one poll after each
-- write, and a flash of zeros.
use swindle_bootloader_gd.Common.{ℕ, refl, true, false, ◌∷◌, ◌==◌, if◌then◌else◌, arith}
use swindle_bootloader_gd.Bus.{write, Log, Env}
use swindle_bootloader_gd.Flash.{flash_sr}
use swindle_bootloader_gd.Flash.Settles.{Settles}
use swindle_bootloader_gd.Device.{Config, Chip, SetupData}

abbrev pub busy_after : Log → ℕ
busy_after (write w a v ∷ h) = 1
busy_after _ = 0

abbrev pub world : Env
world h w a = if a == flash_sr then busy_after h else 0

pub world-Settles : Settles world 3
world-Settles h = (1, omega arith, refl)

abbrev pub plain : Config
plain = record { safewrite = false; dfu_upload = false }

abbrev pub guarded : Config
guarded = record { safewrite = true; dfu_upload = true }

-- a GD32F303 with 256 kB
abbrev pub gd256 : Chip
gd256 = record { gd = true; flash_size = 256 }

abbrev pub class_request : ℕ → ℕ → ℕ → SetupData
class_request r value len = record {
  request_type = 0x21;
  request = r;
  value = value;
  index = 0;
  length = len;
}
