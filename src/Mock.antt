-- ===== src/Mock.antt =====
-- The Agamemnon stub, scripts/mock-agamemnon.py. The children hold its state, its requests, the
-- effects of the active faults, the handler, the choice of the port and the client that smoke-tests
-- it; the others prove.
pub mod State
pub mod Request
pub mod Faults
pub mod Send
pub mod Handler
pub mod Port
pub mod Replies
pub mod Routes
pub mod Changes
pub mod Invariant
pub mod Answers
pub mod Injection
pub mod Tasks
pub mod Records
pub mod Latency
pub mod Recovery
pub mod Sizes
pub mod Smoke
mod Tests
mod Witnesses
