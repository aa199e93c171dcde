-- ===== src/Examples.antt =====
-- Tests of the model on concrete inputs, and the theorems at such inputs.
mod World
mod Download
mod Controller
mod Traffic
mod Reset
mod Text
mod Rings
mod Blocks
mod Registers
mod Platform
mod Machine
