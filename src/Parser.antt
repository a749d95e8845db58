-- ===== src/Parser.antt =====
-- internal/parser/ix2106: the parsers of the two tables.
pub mod Numbers
pub mod Fields
pub mod Transcript
pub mod Lease
pub mod Arp
