-- ===== src/Devnet.antt =====
-- The parts of tempo/devnet.
pub mod Ports
pub mod Yaml
pub mod Config
pub mod DevnetConfig
pub mod Layout
pub mod Backends
pub mod Docker
pub mod Shell
pub mod Supervisor
pub mod Cluster
pub mod Cli
pub mod Enode
