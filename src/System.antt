-- ===== src/System.antt =====
-- What runs beside the two stages, of esprit_mini and arm_gd32fx: interrupts, critical
-- sections, the allocator and the start-up.
pub mod Interrupt
pub mod Critical
pub mod Startup
pub mod Heap
pub mod Faults
