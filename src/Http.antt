-- ===== src/Http.antt =====
-- What the HTTP layer decides: byte ranges, origins, client addresses, signatures.
pub mod ByteRange
