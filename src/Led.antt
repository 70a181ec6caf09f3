-- ===== src/Led.antt =====
-- `led::thread`: src/led/thread.cc and include/led/thread.hh.
--
-- A task handle is `none` for null. A read or write outside an array is `none`.
pub mod Threads
pub mod Values
pub mod Blank
pub mod Rounds
