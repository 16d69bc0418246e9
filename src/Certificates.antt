-- ===== src/Certificates.antt =====
-- services/certificates.py: what a certificate covers, and installing one in the proxy manager.
pub mod Names
pub mod Install
pub mod Flows
pub mod Kept
pub mod Pairs
pub mod Sound
pub mod Kinds
pub mod Direct
