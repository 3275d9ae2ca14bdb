-- ===== src/Hex.antt =====
-- ihex.c: the reader of Intel hex files.
pub mod Line
pub mod Section
mod Tests
