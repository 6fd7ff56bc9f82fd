-- ===== src/Webauthn.antt =====
-- The passkey service (linux-hello/src/webauthn): the virtual security key.
pub mod Codes
pub mod Frames
pub mod Ctaphid
pub mod Store
pub mod Authenticator
mod CtaphidTests
