-- ===== src/Service.antt =====
-- internal/service/service.go: the main loop of one node.
pub mod Users
pub mod Backoff
pub mod Reporting
pub mod Core
pub mod Runtime
