-- ===== src/Manager/Delivery.antt =====
-- From one device to another: what `EncryptMessage` of a sender `a` made, `DecryptMessage` of a
-- receiver `b` reads. Both managers are over the same type of worlds, each with its own store; the
-- receiver reads in any valid world of its own.
pub mod Source
pub mod Body
pub mod FirstMessage
pub mod NextMessage
