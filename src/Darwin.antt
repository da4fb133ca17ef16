-- ===== src/Darwin.antt =====
-- pkg/forkexec for Darwin: fork_child_darwin.go and fork_darwin.go. The sandbox is a profile instead of a
-- filter, there are no namespaces, and the socket pair speaks as under Linux.
pub mod Child
pub mod Parent
