-- ===== src/Tests.antt =====
-- Runs of the models at concrete inputs, and a proxy manager that satisfies the laws that the
-- clients rely on.
pub mod FakeNpm
pub mod FakeHost
mod Firewall
mod Ports
mod Certs
mod Machines
mod Verify
mod Steps
mod Addressing
mod Runs
mod Rows
mod Apply
mod Cloudflare
