-- ===== src/Platform.antt =====
-- What the operator runs on and does not implement: the client of the API server, controllerutil
-- and clientcmd. Each is a parameter, with its documented behaviour as a law.
pub mod Exec
pub mod Owned
pub mod Memory
pub mod Interface
pub mod Fetch
pub mod Gets
pub mod View
pub mod Settled
pub mod Advances
pub mod Healthy
pub mod Yields
pub mod Panics
pub mod Effects
