-- ===== src/Vpn/Service.antt =====
-- src/coda_node/vpn/service.py: provisioning of a node and the OpenVPN daemon.
pub mod State
pub mod Connect
pub mod Daemon
pub mod Bundle
pub mod Lifecycle
pub mod Tests
