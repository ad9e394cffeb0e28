-- ===== src/Network.antt =====
-- The issuer network: the transaction coordinator, routing and reversals, the transport boundary
-- with its fault injection, and the flow that composes them.
pub mod Coordinator
pub mod Routing
pub mod Transport
pub mod Faults
pub mod History
pub mod Attempt
pub mod Flow
