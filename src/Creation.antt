-- ===== src/Creation.antt =====
-- vcd.go and vcd_create.go: how a vApp is created in vCD. Creation/Parts holds the functions that
-- `createInstance` calls, Creation/Run `createInstance` itself.
pub mod Parts
pub mod Run
pub mod Reads
pub mod Order
pub mod Ends
