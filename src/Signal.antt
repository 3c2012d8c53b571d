-- ===== src/Signal.antt =====
-- internal/signal/signal.go: the seam to the cryptographic library, dispatched on the protocol.
-- `Library` (below) is what the package calls and does not define.
pub mod Library
pub mod Keys
pub mod Session
pub mod Payload
pub mod Quiet
pub mod Roundtrip
pub mod Agreement
