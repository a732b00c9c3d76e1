-- ===== src/Relay.antt =====
-- src/txoutbox/relay.py: the relay's configuration, its rounds and its lifecycle.
pub mod Group
pub mod Round
pub mod Config
pub mod Setup
pub mod Loop
pub mod Signals
pub mod Context
pub mod Conservation
pub mod Cancelled
pub mod Acks
pub mod Progress
pub mod Finish
pub mod Effects
pub mod Outcome
pub mod Delivery
pub mod EndToEnd
pub mod Transfer
pub mod Storages
pub mod Collected
mod Tests
