-- ===== src/System.antt =====
-- The host that edgekit runs on: `Shell` (system/shell.py), `Docker` (system/dockerx.py),
-- `Wireguard` (system/wireguard.py), `Apply`, of both of the last, and `Packages`
-- (system/packages.py).
pub mod Shell
pub mod Docker
pub mod Wireguard
pub mod Apply
pub mod Packages
