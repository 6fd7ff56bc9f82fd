-- ===== src/Daemon.antt =====
-- The service (linux-hello/src/daemon): confirmed and plain face verification.
pub mod Results
pub mod Manager
pub mod Confirmed
pub mod Verify
pub mod Enter
pub mod Access
pub mod Secrets
pub mod Integration
mod Tests
