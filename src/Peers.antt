-- ===== src/Peers.antt =====
-- services/peers.py: `validate_name`, `validate_extra_allowed_ips`, and `PeerService` with the
-- methods that change peers. The state is the database and the host, whose `wg` makes the keys.
pub mod Names
pub mod Service
pub mod Valid
pub mod Addresses
pub mod Create
pub mod Delete
pub mod Rotate
