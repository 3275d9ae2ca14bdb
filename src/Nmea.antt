-- ===== src/Nmea.antt =====
-- protocol_nmea.cpp: satellites and signals in NMEA sentences, the sentence names, the streams of the
-- ports and the satellite sentence GSV. A character is its code.
pub mod Ids
pub mod Signals
pub mod Talkers
pub mod Sentence
pub mod Messages
pub mod Streams
mod Tests
