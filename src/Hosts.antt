-- ===== src/Hosts.antt =====
-- services/hosts.py: `validate_domain`, `validate_port`, and `HostService`, with `_push` and
-- `_verify_or_rollback`, on the clients of Npm.
pub mod Names
pub mod Settings
pub mod Service
pub mod Edit
pub mod Resync
pub mod Rows
pub mod Progress
pub mod Attached
