-- ===== src/Http.antt =====
-- The parts of the standard library's `net/http` and `net/url` that the client uses.
pub mod Status
pub mod Message
