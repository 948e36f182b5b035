-- ===== src/Paper.antt =====
-- The paper broker: src/laptop_agents/paper.
pub mod Types
pub mod PositionEngine
pub mod Broker
pub mod Risk
pub mod Store
pub mod Pricing
pub mod Events
pub mod Fill
pub mod Orders
pub mod Exit
pub mod Soundness
pub mod Idempotence
pub mod Persistence
pub mod Placed
pub mod Filling
pub mod Lifetime
pub mod Termination
pub mod Sample
mod Tests
