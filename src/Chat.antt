-- ===== src/Chat.antt =====
-- cli/: the chat server's parts.
pub mod Relay
pub mod Server
pub mod Client
