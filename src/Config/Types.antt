-- ===== src/Config/Types.antt =====
-- The types of config/config_type.go.
use go_sandbox.Common.{List, String}
use go_sandbox.FilePaths.{FilePath}
use go_sandbox.Common.Dict.{Dict}
use go_sandbox.Common.Int.{ℤ}

pub record SyscallConfig : Type 0 where
  pub extra_allow : List String
  pub extra_ban : List String
  pub extra_count : Dict String ℤ

pub record FileAccessConfig : Type 0 where
  pub extra_read : List FilePath
  pub extra_write : List FilePath
  pub extra_stat : List FilePath
  pub extra_ban : List FilePath

pub record ProgramConfig : Type 0 where
  pub syscall : SyscallConfig
  pub file_access : FileAccessConfig
  pub run_command : List FilePath
