-- ===== src/Lib.antt =====
-- go-sandbox runs untrusted programs under limits on time, memory and output, with restricted
-- system calls and file access. A program is started by a fork (pkg/forkexec) and watched by one of
-- three runners: the ptrace runner (runner/ptrace over ptracer), which asks a handler about each
-- trapped system call; the unshare runner (runner/unshare), which puts the program into its own
-- namespaces; and a container (container), whose init process starts programs at the command of the
-- host. All of them report a result of package runner.
--
-- Which file models which part:
-- - FilePaths and FileHandler: runner/ptrace/filehandler. `FileSet.is_in_set_smart` is IsInSetSmart
--   of fileset.go, `add_file_permission` is AddFilePermission, `SyscallCounter.check` is Check of
--   syscallcounter.go, and `check_read`, `check_write`, `check_stat` and `check_syscall` are the
--   methods of Handler in handle.go.
-- - PtraceRunner: `handle` is Handle of runner/ptrace/handle_linux.go, on the registers of
--   ptracer/context_linux_amd64.go, which are in Ptracer/Regs. Ptracer/Arm has those of the other two
--   architectures.
-- - Ptracer: `trace_run` of Ptracer/Trace is TraceRun of ptracer/tracer_track_linux.go. One round of
--   its loop is a function of what wait4 and the ptrace calls answer, and of the state that TraceRun
--   keeps in local variables; the calls that it makes are a list in that state.
-- - Runner: status.go, size.go, limit.go and result.go of runner.
-- - ForkExec: pkg/forkexec. `fork_and_exec_in_child` of ForkExec/Child is the code of
--   forkAndExecInChild in fork_child_linux.go behind the clone, with the descriptors in ForkExec/Fds;
--   `sync_with_child` of ForkExec/Parent is syncWithChild of fork_linux.go, and ForkExec/IdMappings
--   has the text of its ID mappings, of userns_linux.go. A stretch of the child's
--   code is a function of the calls made so far, and the kernel answers as it likes;
--   ForkExec/Attributes says what each call makes of a process, its capabilities and secure bits,
--   mounts and limits among it, as the manual pages have it.
-- - Container: `steps` of Container/Exchange are the steps of Execve in container/host_exec_linux.go
--   and of handleExecve in container/container_exec_linux.go, two parties with their goroutines and
--   queues. Container/Commands has the other commands, of host_cmd_linux.go and
--   container_cmd_linux.go; Container/Commands/Server has the loop of container_init_linux.go that
--   serves them all, in which the exchange of an execve is an argument, with the descriptors that come
--   with an execve. Container/Status has the reply of an execve.
-- - Unshare: trace of runner/unshare/run_linux.go.
-- - Rlimit and Mount: PrepareRLimit of pkg/rlimit/rlimit.go, and Build, ToSyscall and pathPrefix of
--   pkg/mount.
-- - Cgroup: Build and Destroy of pkg/cgroup/cgroup.go. Cgroup/Access has the reads and writes of its
--   files, and the scan of /proc/cgroups in pkg/cgroup/utils.go.
-- - Config: GetConf and cleanTrace of config/config_loader.go, with the tables of config/config.go.
-- - Memfd: New and DupToMemfd of pkg/memfd/memfd_linux.go.
-- - Seccomp: the actions of pkg/seccomp/action.go and the filter of pkg/seccomp/libseccomp.
-- - Ptracer/Strings: GetString of ptracer/context_linux.go.
-- - Descriptors, UnixSocket and Container/Environment: the sockets and messages of pkg/unixsocket,
--   and Build and Destroy of container/environment_linux.go, on the descriptors and children that the
--   host holds. Mount/Builder has the mounts that they ask for.
-- - Darwin: the child and the parent of pkg/forkexec/fork_child_darwin.go and fork_darwin.go.
-- - Launch: the processes that the three runners ask pkg/forkexec for.
-- - RunProg: cmd/runprog: its limits and its report, and in RunProg/Start the order in which start
--   acquires and releases what a run needs. RunProg/Darwin is start of cmd/runprog/main_darwin.go.
-- - Common: tests on numbers, lists, association lists and integers, and the search through the
--   states of a finite system (Common/Explore). Examples has runs of the definitions.
--
-- Numbers are natural numbers; a value of 64 bits wraps where the code lets it wrap (`unsigned`,
-- `signed`), as in the user time and the memory of a process. Paths are lists of bytes.
--
-- Loops: the loops over what wait4 answers recur on the list of the answers, so that a list that runs
-- out is a program that still runs. The skipping of taken descriptors has fuel for three rounds,
-- since only two numbers can be taken. The repeated execve has fuel, and with none left it counts as
-- failed with ETXTBSY. The states of an exchange are found by a search with fuel, and that all of
-- them are found is tested.
--
-- Not modelled: the kernel, the file systems and the name table of the system calls, which are
-- parameters with the laws that a theorem needs; a broken socket between host and container, and its
-- gob encoding; the goroutines that kill a process on cancellation, which show as a killed process;
-- the assembly of seccomp filters, which is third-party code; the formatting of results; the
-- contents of the files of a cgroup; the flags and the debug output of the command line program; and
-- pipes.
pub mod Common
pub mod FilePaths
pub mod FileHandler
pub mod Runner
pub mod Ptracer
pub mod PtraceRunner
pub mod ForkExec
pub mod Descriptors
pub mod UnixSocket
pub mod Darwin
pub mod Launch
pub mod Container
pub mod Unshare
pub mod Rlimit
pub mod Mount
pub mod Cgroup
pub mod RunProg
pub mod Config
pub mod Seccomp
pub mod Memfd
mod Examples
