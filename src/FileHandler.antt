-- ===== src/FileHandler.antt =====
-- runner/ptrace/filehandler: which files a traced program may touch, and how often it may make a
-- counted system call. `eval_symlinks` stands for filepath.EvalSymlinks on the file system at hand.
pub mod FileSet
pub mod FileSets
pub mod SyscallCounter
pub mod Handler
