-- ===== src/Block.antt =====
-- kernel/block.c: block devices and their requests.
pub mod Devices
pub mod Drivers
pub mod Request
