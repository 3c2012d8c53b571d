-- ===== src/Manager.antt =====
-- manager.go: the protocol state machine, in the modules below. `Manager` is a fixed record, as the
-- code never assigns its fields after `NewManager`; all that changes is in the world `W`: what the
-- store, the transport and the random source hold, and the table of device locks.
pub mod Locks
pub mod Concurrent
pub mod State
pub mod Prekeys
pub mod Setup
pub mod Devices
pub mod Trust
pub mod Outgoing
pub mod Encrypt
pub mod Incoming
pub mod Sound
pub mod Delivery
