-- ===== src/Pam.antt =====
-- Face unlock in the PAM stacks (linux-hello/src/integration/pam.py).
pub mod Text
pub mod Lines
pub mod Blocks
pub mod OwnStack
pub mod Files
pub mod Ini
pub mod Enable
pub mod Revert
pub mod Targets
pub mod Reset
mod Tests
