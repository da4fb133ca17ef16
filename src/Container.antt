-- ===== src/Container.antt =====
-- container: the host and the init process of a container, which speak over a socket pair.
pub mod Environment
pub mod Exchange
pub mod Status
pub mod Commands
