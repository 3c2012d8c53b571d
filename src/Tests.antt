-- ===== src/Tests.antt =====
-- Runs at concrete inputs, in a small world with an in-memory store.
mod Toy
mod World
mod Stores
mod Sending
mod Receiving
mod Rotation
mod Exchange
mod Locking
mod Agreeing
mod Delivery
mod Concurrency
mod Texts
mod Starting
