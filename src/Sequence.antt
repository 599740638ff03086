-- ===== src/Sequence.antt =====
-- pkg/sequence: the generators of unique numbers for AUTO_INCREMENT columns.
pub mod Snowflake
pub mod Words
pub mod Group
