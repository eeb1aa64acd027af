-- ===== src/Vfio.antt =====
-- The base addresses that tinymachine-fork/src/vfio/base.rs gives to the regions of a passed-through device.
-- `pread` and `pwrite` on the device's file are system calls: parameters, which may fail at any call.
pub mod Align
pub mod Bars
mod Tests
