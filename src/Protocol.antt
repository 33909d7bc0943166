-- ===== src/Protocol.antt =====
-- src/protocol: length-prefixed framing of a byte stream.
pub mod Ring
pub mod Framer
