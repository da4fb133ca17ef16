-- ===== src/Examples.antt =====
-- The theorems at concrete inputs, and runs of the definitions.
mod FileAccess
mod Tracing
mod Starting
mod Exchanging
mod Commanding
mod Mounting
mod Grouping
mod Configured
mod Filtering
mod Connecting
mod Running
mod Sandboxing
