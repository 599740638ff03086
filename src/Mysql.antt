-- ===== src/Mysql.antt =====
-- pkg/mysql: the wire protocol.
pub mod Encoding
pub mod Packets
pub mod Ephemeral
