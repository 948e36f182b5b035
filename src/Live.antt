-- ===== src/Live.antt =====
-- execution/bitunix_broker.py: the live broker, with runs and the theorems at concrete inputs.
pub mod Types
pub mod Submit
pub mod Sync
pub mod Broker
pub mod Vetting
pub mod Ghosts
pub mod Books
pub mod Pending
mod Tests
