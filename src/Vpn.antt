-- ===== src/Vpn.antt =====
-- src/coda_node/vpn: the tunnel that a node needs, its detection, its supervision and its start.
pub mod Interfaces
pub mod Guard
pub mod Profile
pub mod Service
pub mod Tests
