-- ===== src/Types.antt =====
-- The data of the program: its own resources, and those of Kubernetes and cert-manager as far as
-- the program reads or writes them.
pub mod Meta
pub mod Crd
pub mod Core
pub mod CertManager
pub mod Kinds
