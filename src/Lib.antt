-- ===== src/Lib.antt =====
-- The swindle bootloader for GD32/STM32F1 chips: a DFU bootloader in two stages.
--
-- Stage 1 (src_stage1) decides at reset between the application and the DFU mode. Stage 2
-- (src_stage2) runs from RAM: usb.cpp is a polled USB stack for the control endpoint, dfu.cpp the
-- DFU application behind it, flash.h the flash driver under that. usb.cpp hands class requests to
-- `usbdfu_control_request`; the download it stores is carried out by the callback
-- `usbdfu_getstatus_complete`, which usb.cpp calls when the status stage of the poll is over.
--
-- Bus models what is not in the program's own variables: registers, packet memory and flash. A run
-- is the list of its accesses. What a read answers is a parameter (`Env`): any function of the
-- accesses so far, so that a theorem holds of every hardware that meets its hypotheses. A command
-- is a function from a state to `Option` of a result and a state (Common/State); it is `none` only
-- where a polling loop is out of fuel, a C array is left or an assertion fails. `Returns` states
-- that a run comes back, and with what; `Safe` what holds if it does.
--
-- Common: shared names, Boolean tests, arrays as lists, words with their wrap-around.
-- Ring: the ring buffer of esprit_mini/include/lnRingBuffer.h. Masks has the well-formed rings,
--   Pieces the slices, Fill, Put and Get the two ends of the queue, Observe the rest.
-- Flash: the routines of src_stage2/flash.h. A busy-wait polls at most `fuel` times; `Settles` says
--   of the controller that its busy flag is seen clear within that, from everywhere. Cells says
--   what the flash holds after a run, by the rules of its controller but for the lock, Erase that
--   the erasing leaves pages blank, Fill that the programming puts a buffer there. Spared has the
--   runs that leave the boot loader's flash; modules of that name follow it through Dfu, Usb and
--   Stage2.
-- Device: the types of usb.h and dfu.cpp, and the chip as esprit_mini/lnCpuID_arm_gd32fx.cpp sees
--   it.
-- Dfu: dfu.cpp's request handler and callback, and `check_do_erase`. The page loops have as many
--   rounds as there are bytes, which is enough since each round moves by a page. Write, Download
--   and Session follow a block and a whole firmware from the control buffer to what the flash
--   holds; the host's side, `session` in Host, is not the repository's code. Machine is the step
--   relation of the states, Runs the runs of the code against it.
-- Usb: usb.cpp. Registers has the macros of usb.h, State its variables, Packets the endpoints and
--   packet memory, Descriptors and Requests what is answered, Control the transfers and
--   `do_usb_poll`. The proofs are in Hardware (endpoints), Base and Dispatch (a request), Serving
--   (the invariant), Toggles (the endpoint registers), Transfers (the packets), Stages, Handlers
--   and Poll. `usb_complete_cb` is null or the one callback, a flag. The string table is a
--   parameter whose descriptors fit the buffer.
-- Board: the drivers that both stages call, of esprit_mini/lnGPIO.cpp, lnRCU.cpp and
--   lnCpuID_arm_gd32fx.cpp. A variable that the code reads before it is set is a parameter,
--   `unset`.
-- Clock: the set-ups of src_stage2/clocking.h and the system clock of
--   esprit_mini/lnRCU_systemClock_arm_gd32fx.cpp. `Rises` states of a clock that, from wherever it
--   is switched on, its status bit is seen set within `fuel` reads. Waits has the loops, Switch the
--   order of the steps, Prescalers the register that selects the clock, Pll the factor, System
--   `lnInitSystemClock` as a whole.
-- Strings: the strings that dfu.cpp builds and the table of dfu_name.h, with xstrlen, xstrcpy and
--   xstrcat of src_common/stubs.cpp.
-- Stage1: src_stage1/main.cpp and ch32_crc.c. The 64-bit marker is read and written as two words,
--   the loads that are not volatile come in the order of the text, and `memcpy` is a loop over
--   bytes. The proofs are in Memory (the memory and the checksum unit), Boots and Decision.
-- Stage2: from `stage2_entry` of src_stage2/dfu.cpp to the rounds of the main loop, with
--   `usb_init`. The tick counter, which an interrupt advances, is a parameter, and so is the
--   version that the build gives. `run_stage2` is stage 2 as a whole. The proofs are in Entry,
--   Loop, Spared and Whole.
-- System: critical sections (esprit_mini/lowlevel.cpp), the allocator (systemAlloc.cpp), the
--   interrupt controller (lnIRQ_arm_gd32fx.cpp), the vector table with its handlers and the crash
--   functions (Faults; systemHelper.cpp and src_common/stubs.cpp too) and `start_c`
--   (arm_gd32fx/start.cpp). An `int` is the word of its two's complement. The C library's
--   initializers are a parameter.
--
-- Not modelled: the start-up and the fault handlers' entry in assembler, and what the headers of
-- the framework declare for drivers that are not in the repository.
--
-- Bytes that do not overlap are joined by a sum where the code has `|`; `x & 3` is a remainder.
-- `get_flash_page_size` caches a value that does not change; the callers' model uses that value.
pub mod Common
pub mod Ring
pub mod Bus
pub mod Flash
pub mod Device
pub mod Dfu
pub mod Usb
pub mod Board
pub mod Clock
pub mod Strings
pub mod Stage1
pub mod Stage2
pub mod System
mod Examples
