-- ===== src/Usb.antt =====
-- usb/usb.go: the HID framing by which a host talks to the device.
pub mod Frame
pub mod Session
pub mod Format
mod Examples
