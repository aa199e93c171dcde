-- ===== src/Usb.antt =====
-- The polled USB stack of src_stage2/usb.cpp for the control endpoint.
pub mod Registers
pub mod Toggles
pub mod State
pub mod Packets
pub mod Descriptors
pub mod Requests
pub mod Control
pub mod Hardware
pub mod Base
pub mod Dispatch
pub mod Serving
pub mod Transfers
pub mod Stages
pub mod Handlers
pub mod Poll
pub mod Spared
