-- ===== src/Device.antt =====
-- The two programs that put the parts together: the firmware and the Linux gadget.
pub mod Firmware
pub mod Linux
pub mod Setup
pub mod Configure
pub mod Main
pub mod Toy
mod Examples
