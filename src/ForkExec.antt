-- ===== src/ForkExec.antt =====
-- pkg/forkexec: how a sandboxed process is started. The child runs a fixed sequence of raw system
-- calls between clone and execve; the parent speaks with it over a socket pair.
pub mod IdMappings
pub mod Config
pub mod Calls
pub mod Fds
pub mod Child
pub mod Attributes
pub mod Prepared
pub mod LockedDown
pub mod Retried
pub mod Parent
