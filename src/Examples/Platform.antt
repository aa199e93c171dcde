-- ===== src/Examples/Platform.antt =====
-- Critical sections, interrupts and the start-up on concrete inputs.
use swindle_bootloader_gd.Common.{
  ℕ, ◌*◌, ◌%◌, ◌^◌, ◌≤◌, ◌≡◌, inl, refl, Bool, true, false, some, [], ◌∷◌, ◌==◌, if◌then◌else◌,
  arith, M, Returns, returns, Gives,
}
use swindle_bootloader_gd.Bus.{byte, word, write, Log, Env, store}
use swindle_bootloader_gd.Common.{◌+◌, ◌<◌, digit}
use swindle_bootloader_gd.Bus.{modulus}
use swindle_bootloader_gd.Clock.{rcu_cfg0, flash_acr, wait_states, switch_to_pll}
use swindle_bootloader_gd.Clock.Waits.{latest}
use swindle_bootloader_gd.Clock.Prescalers.{prescaled, switch_to_pll-prescaled}
use swindle_bootloader_gd.System.Critical.{enter, leave, run_sections, at_depth, run_sections-depth}
use swindle_bootloader_gd.System.Interrupt.{
  ip, enable_disable, irq_set_priority, irq_sys_init, is_negative,
}
use swindle_bootloader_gd.System.Interrupt.Masks.{
  irq_enabled, enable_disable-one, irq_sys_init-disabled,
}
use swindle_bootloader_gd.System.Interrupt.Priority.{wanted, irq_set_priority-wanted}
use swindle_bootloader_gd.System.Heap.{Heap, alloc_all}
use swindle_bootloader_gd.System.Heap.Blocks.{last_byte, Stacked, alloc_all-Stacked}
use swindle_bootloader_gd.System.Startup.{Sections, ram, load_sections, start_c}
use swindle_bootloader_gd.System.Startup.Filled.{
  last_word, Stored, Placed, Loaded, load_sections-Loaded, start_c-kept,
}

run_sections-depth_example :
    run_sections (enter ∷ enter ∷ leave ∷ leave ∷ []) (at_depth 0) ≡ at_depth 0
run_sections-depth_example =
    run_sections-depth (enter ∷ enter ∷ leave ∷ leave ∷ []) 0 0 (omega arith) refl

abbrev every : ℕ → Bool
every i = true

abbrev zeros : Env
zeros h w a = 0

-- The interrupt of the USB unit is the twentieth.
enable_disable-one_example :
    Returns
      (λ _ t. irq_enabled every t 20 ≡ (if 20 == 20 then false else irq_enabled every [] 20))
      (enable_disable false 20 [])
enable_disable-one_example =
    enable_disable-one every false 20 20 [] (omega arith) (omega arith) (omega arith)

irq_sys_init-disabled_example :
    Returns (λ _ t. irq_enabled every t 20 ≡ false) (irq_sys_init zeros 0x0800_1000 [])
irq_sys_init-disabled_example = irq_sys_init-disabled every zeros 20 0x0800_1000 [] (omega arith)

irq_set_priority-wanted_example :
    irq_set_priority 20 7 []
    ≡ (if is_negative 20 then some (tt, []) else some (tt, write byte (ip 20) (16 * wanted 7) ∷ []))
irq_set_priority-wanted_example = irq_set_priority-wanted 20 7 [] (inl (omega arith)) (omega arith)

-- A memory that holds each address.
abbrev memory : Env
memory h w a = last_word (λ b. b) h a

memory-Stored : Stored memory (λ b. b)
memory-Stored h a = refl

abbrev sections : Sections
sections = record {
  image = 0x0800_0400;
  data_start = 0x2000_0000;
  data_end = 0x2000_0008;
  bss_start = 0x2000_0008;
  bss_end = 0x2000_0010;
}

sections-Placed : Placed sections
sections-Placed = record {
  data_fits = omega arith;
  image_fits = omega arith;
  bss_fits = omega arith;
  image_apart = inl (omega arith);
  bss_above = omega arith;
}

load_sections-Loaded_example :
    Returns (λ _ t. Loaded (λ b. b) memory sections [] t) (load_sections memory sections [])
load_sections-Loaded_example =
    load_sections-Loaded (λ b. b) memory sections [] memory-Stored sections-Placed

-- Initializers that overwrite the first word of the RAM.
abbrev init : M Log (Unit {0})
init = store word 0x2000_0000 7

init-Gives : Gives (λ _. Unit {0}) init
init-Gives = record { run = λ h. returns tt }

start_c-kept_example :
    Returns
      (λ _ t.
        (last_word (λ b. b) t (ram 0) ≡ last_word (λ b. b) [] (ram 0) % 2 ^ 32)
        × (last_word (λ b. b) t (ram 4) ≡ last_word (λ b. b) [] (ram 4) % 2 ^ 32))
      (start_c memory sections init [])
start_c-kept_example =
    start_c-kept (λ b. b) memory sections init [] memory-Stored sections-Placed init-Gives

-- The allocator as it starts.
abbrev heap : Heap
heap = record { fake_heap = 0x2000_2800; log = [] }

alloc_all-Stacked_example :
    Returns
      (λ ps t.
        Stacked (λ b. 255) 0x2000_2800 (5 ∷ 8 ∷ []) ps t.log
        × ((a : ℕ)
            → 0x2000_2800 ≤ a
            → last_byte (λ b. 255) t.log a ≡ last_byte (λ b. 255) heap.log a))
      (alloc_all (5 ∷ 8 ∷ []) heap)
alloc_all-Stacked_example =
    alloc_all-Stacked (λ b. 255) (5 ∷ 8 ∷ []) heap (omega arith) (omega arith) refl

switch_to_pll-prescaled_example :
    let v = zeros [] word rcu_cfg0 % modulus word in
    Returns
      (λ _ t.
        (new : ℕ) × (latest rcu_cfg0 t ≡ some new)
        × ((n : ℕ) → n < 32 → digit n new ≡ prescaled v n)
        × (latest flash_acr t
            ≡ (if false then latest flash_acr [] else some (0x30 + wait_states 72))))
      (switch_to_pll zeros 2 72 false [])
switch_to_pll-prescaled_example = switch_to_pll-prescaled zeros 2 72 false []
