-- ===== src/Cloudflare.antt =====
-- services/cloudflare.py: the client of the Cloudflare API.
pub mod Client
pub mod Records
pub mod Zone
pub mod Permissions
