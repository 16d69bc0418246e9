-- ===== src/Firewall.antt =====
-- system/firewall.py: the rules that let containers reach the peers, and the host's firewall.
pub mod Bridges
pub mod Rules
pub mod Iptables
pub mod Settled
pub mod Applied
pub mod Cleared
pub mod Undone
pub mod Safe
pub mod Order
pub mod Ufw
pub mod Enable
pub mod Remove
