-- ===== src/Tests.antt =====
-- Each theorem of the results at a concrete input, and test vectors.
mod Primitives
mod Sessions
mod Frames
mod Exchange
mod Settings
mod Envelopes
mod Handshaking
mod Doubles
mod Serving
mod Upgrading
mod Listening
