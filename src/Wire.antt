-- ===== src/Wire.antt =====
-- internal/wire: the authenticated v0.1 packet format.
pub mod Types
pub mod Codec
pub mod Body
pub mod Envelope
pub mod RoundTrip
pub mod Messages
pub mod Authenticator
mod Tests
