-- ===== src/Client.antt =====
-- The HTTP client of the chaos tests: src/http_test_client.cpp and include/charybdis.
pub mod Errors
pub mod Breaker
pub mod Retry
pub mod Subject
pub mod Calls
pub mod Url
pub mod Helpers
pub mod Audit
pub mod SafeChaos
pub mod Stub
pub mod Tests
mod Witnesses
