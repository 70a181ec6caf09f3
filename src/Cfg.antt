-- ===== src/Cfg.antt =====
-- The configuration store: src/cfg/flash_backend.cc with include/cfg.hh, include/cfg/ids.hh and
-- include/cfg/types.hh.
--
-- Each parameter has a RAM cache, read and written under the reader-writer lock of `RwLock`, whose
-- exclusion makes each locked callback one step here. A heap block is the list of its bytes;
-- allocations succeed (the source asserts so). The flash data storage of the SDK is outside the
-- repository: a `FlashRecord` is what it answers about one record.
pub mod Ids
pub mod Cache
pub mod Store
pub mod Safe
pub mod ReadWrite
pub mod Subs
pub mod Param
