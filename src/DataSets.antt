-- ===== src/DataSets.antt =====
-- data_sets.c: what the packet decoder and the logger need to know of the data sets.
pub mod Offsets
pub mod Flip
pub mod Involution
pub mod Checksum
pub mod Satellites
mod Tests
