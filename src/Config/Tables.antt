-- ===== src/Config/Tables.antt =====
-- The tables of config/config.go and config/config_amd64.go.
use go_sandbox.Common.{[], ◌∷◌, List, String, codes}
use go_sandbox.Config.Types.{ProgramConfig}
use go_sandbox.Common.Dict.{Dict}
use go_sandbox.FilePaths.{FilePath}
use go_sandbox.Common.Int.{pos}

abbrev pub default_readable_files : List FilePath
default_readable_files =
    codes "/etc/ld.so.nohwcap"
    ∷ codes "/etc/ld.so.preload"
    ∷ codes "/etc/ld.so.cache"
    ∷ codes "/usr/lib/locale/locale-archive"
    ∷ codes "/proc/self/exe"
    ∷ codes "/etc/timezone"
    ∷ codes "/usr/share/zoneinfo/"
    ∷ codes "/dev/random"
    ∷ codes "/dev/urandom"
    ∷ codes "/proc/meminfo"
    ∷ codes "/etc/localtime"
    ∷ []

abbrev pub default_writable_files : List FilePath
default_writable_files = codes "/dev/null" ∷ []

abbrev pub default_syscall_allows : List String
default_syscall_allows =
    "read" ∷ "write" ∷ "readv" ∷ "writev" ∷ "close" ∷ "fstat" ∷ "lseek" ∷ "dup" ∷ "dup2" ∷ "dup3"
    ∷ "ioctl" ∷ "fcntl" ∷ "fadvise64" ∷ "mmap" ∷ "mprotect" ∷ "munmap" ∷ "brk" ∷ "mremap" ∷ "msync"
    ∷ "mincore" ∷ "madvise" ∷ "rt_sigaction" ∷ "rt_sigprocmask" ∷ "rt_sigreturn" ∷ "rt_sigpending"
    ∷ "sigaltstack" ∷ "getcwd" ∷ "exit" ∷ "exit_group" ∷ "arch_prctl" ∷ "gettimeofday" ∷ "getrlimit"
    ∷ "getrusage" ∷ "times" ∷ "time" ∷ "clock_gettime" ∷ "restart_syscall" ∷ []

abbrev pub default_syscall_traces : List String
default_syscall_traces =
    "execve" ∷ "execveat" ∷ "open" ∷ "openat" ∷ "unlink" ∷ "unlinkat" ∷ "readlink" ∷ "readlinkat"
    ∷ "lstat" ∷ "stat" ∷ "access" ∷ "faccessat" ∷ []

abbrev pub default_proc_syscalls : List String
default_proc_syscalls = "clone" ∷ "fork" ∷ "vfork" ∷ "nanosleep" ∷ "execve" ∷ []

abbrev pub arch_readable_files : List FilePath
arch_readable_files = codes "/lib/x86_64-linux-gnu/" ∷ codes "/usr/lib/x86_64-linux-gnu/" ∷ []

abbrev pub arch_syscall_allows : List String
arch_syscall_allows = []

abbrev pub arch_syscall_traces : List String
arch_syscall_traces = []

abbrev pub python2_7_config : ProgramConfig
python2_7_config = record {
  syscall = record {
    extra_allow = "futex" ∷ "getdents" ∷ "getdents64" ∷ "prlimit64" ∷ "getpid" ∷ "sysinfo" ∷ [];
    extra_ban = [];
    extra_count = ("set_tid_address", pos 1) ∷ ("set_robust_list", pos 1) ∷ [];
  };
  file_access = record {
    extra_read =
        codes "/usr/bin/python2.7"
        ∷ codes "/usr/lib/python2.7/"
        ∷ codes "/usr/bin/lib/python2.7/"
        ∷ codes "/usr/local/lib/python2.7/"
        ∷ codes "/usr/lib/pymodules/python2.7/"
        ∷ codes "/usr/bin/Modules/"
        ∷ codes "/usr/bin/pybuilddir.txt"
        ∷ codes "/usr/lib/locale/"
        ∷ codes "./answer.code"
        ∷ [];
    extra_write = [];
    extra_stat = codes "/usr" ∷ codes "/usr/bin" ∷ [];
    extra_ban = [];
  };
  run_command = codes "/usr/bin/python2.7" ∷ codes "-E" ∷ codes "-s" ∷ codes "-B" ∷ [];
}

abbrev pub python3_config : ProgramConfig
python3_config = record {
  syscall = record {
    extra_allow =
        "futex" ∷ "getdents" ∷ "getdents64" ∷ "prlimit64" ∷ "getpid" ∷ "sysinfo" ∷ "getrandom" ∷ [];
    extra_ban = [];
    extra_count = ("set_tid_address", pos 1) ∷ ("set_robust_list", pos 1) ∷ [];
  };
  file_access = record {
    extra_read =
        codes "/usr/bin/python3"
        ∷ codes "/usr/lib/python3/"
        ∷ codes "/usr/bin/python3.6"
        ∷ codes "/usr/lib/python3.6/"
        ∷ codes "/usr/bin/lib/python3.6/"
        ∷ codes "/usr/local/lib/python3.6/"
        ∷ codes "/usr/bin/pyvenv.cfg"
        ∷ codes "/usr/pyvenv.cfg"
        ∷ codes "/usr/bin/Modules"
        ∷ codes "/usr/bin/pybuilddir.txt"
        ∷ codes "/usr/lib/dist-python"
        ∷ codes "/usr/lib/locale/"
        ∷ codes "./answer.code"
        ∷ [];
    extra_write = [];
    extra_stat =
        codes "/usr" ∷ codes "/usr/bin" ∷ codes "/usr/lib" ∷ codes "/usr/lib/python36.zip" ∷ [];
    extra_ban = [];
  };
  run_command = codes "/usr/bin/python3" ∷ codes "-I" ∷ codes "-B" ∷ [];
}

abbrev pub compiler_config : ProgramConfig
compiler_config = record {
  syscall = record {
    extra_allow =
        "gettid" ∷ "set_tid_address" ∷ "set_robust_list" ∷ "futex" ∷ "getpid" ∷ "vfork" ∷ "fork"
        ∷ "clone" ∷ "execve" ∷ "wait4" ∷ "clock_gettime" ∷ "clock_getres" ∷ "setrlimit" ∷ "pipe"
        ∷ "getdents64" ∷ "getdents" ∷ "umask" ∷ "rename" ∷ "chmod" ∷ "mkdir" ∷ "chdir" ∷ "fchdir"
        ∷ "ftruncate" ∷ "sched_getaffinity" ∷ "sched_yield" ∷ "uname" ∷ "sysinfo" ∷ "prlimit64"
        ∷ "getrandom" ∷ "fchmodat" ∷ [];
    extra_ban = "socket" ∷ "connect" ∷ "geteuid" ∷ "getuid" ∷ [];
    extra_count = [];
  };
  file_access = record {
    extra_read =
        codes "./"
        ∷ codes "../runtime/"
        ∷ codes "/etc/oracle/java/usagetracker.properties"
        ∷ codes "/usr/"
        ∷ codes "/lib/"
        ∷ codes "/lib64/"
        ∷ codes "/bin/"
        ∷ codes "/sbin/"
        ∷ codes "/sys/devices/system/cpu/"
        ∷ codes "/proc/"
        ∷ codes "/etc/timezone"
        ∷ codes "/etc/fpc-2.6.2.cfg.d/"
        ∷ codes "/etc/fpc.cfg"
        ∷ codes "/*"
        ∷ codes "/"
        ∷ [];
    extra_write = codes "/tmp/" ∷ codes "./" ∷ [];
    extra_stat = [];
    extra_ban = codes "/etc/nsswitch.conf" ∷ codes "/etc/passwd" ∷ [];
  };
  run_command = [];
}

abbrev pub runptrace_config : Dict String ProgramConfig
runptrace_config =
    ("python2.7", python2_7_config)
    ∷ ("python3", python3_config)
    ∷ ("compiler", compiler_config)
    ∷ []
