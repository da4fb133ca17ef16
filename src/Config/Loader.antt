-- ===== src/Config/Loader.antt =====
-- GetConf of config/config_loader.go. Go visits the keys of a map in no fixed order: `arrange`
-- stands for the order of a visit.
pub mod Cleaned
pub mod Confined
use go_sandbox.FileHandler.SyscallCounter.{add_range as add_counts}
use go_sandbox.Common.{
  [], ◌∷◌, none, some, true, false, List, Bool, String, Option, if◌then◌else◌, ◌++◌, string_eq,
}
use go_sandbox.Common.Dict.{Dict, insert, lookup}
use go_sandbox.FileHandler.FileSets.{FileSets, new_file_sets, add_file_permission, FilePerm}
use go_sandbox.FilePaths.{FilePath}
use go_sandbox.FileHandler.SyscallCounter.{SyscallCounter, new_syscall_counter}
use go_sandbox.FileHandler.FileSet.{present, add_range}
use go_sandbox.FileHandler.Handler.{Handler}
use go_sandbox.Config.Tables.{
  default_syscall_allows, default_readable_files, arch_syscall_allows, default_proc_syscalls,
  runptrace_config, arch_readable_files, default_syscall_traces, default_writable_files,
  arch_syscall_traces,
}
use go_sandbox.Config.Types.{ProgramConfig}

-- allow, trace
abbrev pub Calls : Type 0
Calls = List String × List String

abbrev pub keys : Dict String Bool → List String
keys [] = []
keys ((k, _) ∷ m) = k ∷ keys m

-- for _, s := range names { m[s] = true }
unfoldable pub mark : Dict String Bool → List String → Dict String Bool
mark m [] = m
mark m (s ∷ names) = mark (insert s true m) names

-- for _, s := range names { if !banned[s] { m[s] = true } }
unfoldable pub mark_others : Dict String Bool → Dict String Bool → List String → Dict String Bool
mark_others banned m [] = m
mark_others banned m (s ∷ names) =
    mark_others banned (if present (lookup s banned) then m else insert s true m) names

-- What GetConf has built before cleanTrace.
pub record Draft : Type 0 where
  pub file_set : FileSets
  pub counter : SyscallCounter
  pub allow : List String
  pub trace : List String
  pub args : List FilePath

pub record Conf : Type 0 where
  pub args : List FilePath
  pub allow : List String
  pub trace : List String
  pub handler : Handler

module _ (work_path : FilePath) where
  -- The sets that do not depend on the type of the program.
  unfoldable pub base_files : FilePath → List FilePath → List FilePath → FileSets
  base_files arg₀ add_read add_write =
      let s = new_file_sets in
      let readable =
        add_range (add_range s.readable default_readable_files work_path) arch_readable_files
          work_path in
      let writable = add_range s.writable default_writable_files work_path in
      let t = record s { readable = readable; writable = writable } in
      let u = add_file_permission t arg₀ FilePerm.read in
      let v = add_file_permission u work_path FilePerm.read in
      record v {
        readable = add_range v.readable add_read work_path;
        writable = add_range v.writable add_write work_path;
      }

  unfoldable pub base_draft : List FilePath → FilePath → List FilePath → List FilePath → Draft
  base_draft args arg₀ add_read add_write = record {
    file_set = base_files arg₀ add_read add_write;
    counter = new_syscall_counter;
    allow = default_syscall_allows ++ arch_syscall_allows;
    trace = default_syscall_traces ++ arch_syscall_traces;
    args = args;
  }

  -- if c, o := runptraceConfig[pType]; o { … }
  unfoldable pub with_program : Option ProgramConfig → Draft → Draft
  with_program none d = d
  with_program (some c) d =
      let s = d.file_set in
      let t : FileSets = record {
        readable = add_range s.readable c.file_access.extra_read work_path;
        writable = add_range s.writable c.file_access.extra_write work_path;
        statable = add_range s.statable c.file_access.extra_stat work_path;
        soft_ban = add_range s.soft_ban c.file_access.extra_ban work_path;
      } in
      record {
        file_set = t;
        counter = add_counts d.counter c.syscall.extra_count;
        allow = d.allow ++ c.syscall.extra_allow;
        trace = d.trace ++ c.syscall.extra_ban;
        args = c.run_command ++ d.args;
      }

unfoldable pub with_proc : Bool → Draft → Draft
with_proc allow_proc d =
    if allow_proc then record d { allow = d.allow ++ default_proc_syscalls } else d

module _ (arrange : List String → List String) where
  unfoldable pub key_set_to_slice : Dict String Bool → List String
  key_set_to_slice m = arrange (keys m)

  unfoldable pub clean_trace : List String → List String → Calls
  unfolding key_set_to_slice mark mark_others
  clean_trace allow trace =
      let trace_map = mark [] trace in
      let allow_map = mark_others trace_map [] allow in
      (key_set_to_slice allow_map, key_set_to_slice trace_map)

  unfoldable pub finish : Draft → Conf
  unfolding clean_trace
  finish d =
      let calls = clean_trace d.allow d.trace in
      record {
        args = d.args;
        allow = calls.0;
        trace = calls.1;
        handler = record { file_set = d.file_set; syscall_counter = d.counter };
      }

  -- args[0] of an empty slice panics: `none`.
  unfoldable pub get_conf :
      String → FilePath → List FilePath → List FilePath → List FilePath → Bool → Option Conf
  unfolding base_draft with_program with_proc finish
  get_conf p_type work_path [] add_read add_write allow_proc = none
  get_conf p_type work_path (arg₀ ∷ args) add_read add_write allow_proc =
      let base = base_draft work_path (arg₀ ∷ args) arg₀ add_read add_write in
      let with_type = with_program work_path (lookup p_type runptrace_config) base in
      some (finish (with_proc allow_proc with_type))
