-- ===== src/Adapters.antt =====
-- The sources below contrib/sources, and what they share.
pub mod Assign
pub mod Numbers
pub mod Kubernetes
pub mod Watch
pub mod Etcd
pub mod Nats
pub mod Directory
pub mod Env
pub mod Consul
pub mod Vault
pub mod Flags
pub mod Pflag
pub mod Yaml
pub mod EnvFile
