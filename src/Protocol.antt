-- ===== src/Protocol.antt =====
-- protocol/: the frames and what is done with them.
pub mod Packets
pub mod Session
pub mod Process
pub mod Covenant
