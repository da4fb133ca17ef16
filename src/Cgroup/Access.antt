-- ===== src/Cgroup/Access.antt =====
-- The files of a cgroup, and which cgroups the system has: subcgroup.go, utils.go, builder.go and cgroup.go
-- of pkg/cgroup. Texts are lists of bytes; what the files hold and answer is given.
pub mod Enabled
use go_sandbox.Common.{
  zero, suc, [], ◌∷◌, none, some, true, false, String, List, Option, ℕ, Bool, ◌++◌, if◌then◌else◌,
  ◌==◌, nat_eq, bytes_eq, ◌||◌, ◌&&◌, ltb, codes,
}
use go_sandbox.FilePaths.{FilePath}
use go_sandbox.Common.Dict.{Dict, insert, lookup}
use go_sandbox.Ptracer.Events.{OrError, value, error}
use go_sandbox.Cgroup.{Paths, Builder}
use go_sandbox.FileHandler.FileSet.{present}

-- What an operation on a file answers: done, EINTR, or another error.
pub data Io (A : Type 0) : Type 0 where
  io_done : A → Io A
  io_interrupted : Io A
  io_failed : String → Io A

-- for err != nil && errors.Is(err, syscall.EINTR): over what the tries answer. `none` is a run that still
-- tries.
unfoldable pub retry : {A : Type 0} → List (Io A) → Option (OrError A)
retry [] = none
retry (io_done a ∷ rest) = some (value a)
retry (io_interrupted ∷ rest) = retry rest
retry (io_failed e ∷ rest) = some (error e)

-- A sub-cgroup with an empty path writes nothing, and its reads fail.
unfoldable pub write_uint : (FilePath → ℕ → Option String) → FilePath → ℕ → Option String
write_uint write [] i = none
write_uint write (c ∷ cs) i = write (c ∷ cs) i

unfoldable pub read_uint : (FilePath → OrError ℕ) → FilePath → OrError ℕ
read_uint read [] = error "cgroup was not initialized"
read_uint read (c ∷ cs) = read (c ∷ cs)

-- AddProc: the three files in their order, up to the first error
abbrev pub or_next : Option String → Option String → Option String
or_next (some e) rest = some e
or_next none rest = rest

unfoldable pub add_proc : (FilePath → ℕ → Option String) → Paths → ℕ → Option String
unfolding write_uint
add_proc write p pid =
    or_next (write_uint write p.cpuacct_path pid)
      (or_next (write_uint write p.memory_path pid) (write_uint write p.pids_path pid))

-- The rows of memory.stat that Fscanln reads, up to its first error
unfoldable pub find_property : FilePath → List (OrError (FilePath × ℕ)) → OrError ℕ
find_property prop [] = error "EOF"
find_property prop (error e ∷ rows) = error e
find_property prop (value (p, i) ∷ rows) =
    let rest = find_property prop rows in if p == prop then value i else rest

unfoldable pub find_memory_stat_property :
    FilePath → OrError (List (OrError (FilePath × ℕ))) → OrError ℕ
unfolding find_property
find_memory_stat_property prop (error e) = error e
find_memory_stat_property prop (value rows) = find_property prop rows

-- unicode.IsSpace, for ASCII
abbrev is_space : ℕ → Bool
is_space c = (c == 32) || (ltb 8 c && ltb c 14)

abbrev close_field : List ℕ → List (List ℕ) → List (List ℕ)
close_field [] fields = fields
close_field (c ∷ cs) fields = (c ∷ cs) ∷ fields

-- strings.Fields, with the bytes of the field that is read
unfoldable pub fields_from : List ℕ → List ℕ → List (List ℕ)
fields_from word [] = close_field word []
fields_from word (c ∷ cs) =
    let cut = fields_from [] cs in
    let longer = fields_from (word ++ c ∷ []) cs in
    if is_space c then close_field word cut else longer

-- len(parts) >= 4 && parts[3] != "0", and then parts[0]
unfoldable pub enabled_name : List (List ℕ) → Option (List ℕ)
enabled_name (name ∷ hierarchy ∷ num ∷ enabled ∷ more) =
    if enabled == (48 ∷ []) then none else some name
enabled_name _ = none

abbrev pub with_name : Option (List ℕ) → Dict (List ℕ) Bool → Dict (List ℕ) Bool
with_name none m = m
with_name (some name) m = insert name true m

-- The loop over the lines of /proc/cgroups; `none` is the panic of text[0] on an empty line.
unfoldable pub scan_lines : Dict (List ℕ) Bool → List (List ℕ) → Option (Dict (List ℕ) Bool)
unfolding fields_from enabled_name
scan_lines m [] = some m
scan_lines m ([] ∷ lines) = none
scan_lines m ((c ∷ cs) ∷ lines) =
    let skipped = scan_lines m lines in
    let read = scan_lines (with_name (enabled_name (fields_from [] (c ∷ cs))) m) lines in
    if c == 35 then skipped else read

-- what s.Err() answers once the lines are read
abbrev or_scan_error :
    Option String → Option (Dict (List ℕ) Bool) → Option (OrError (Dict (List ℕ) Bool))
or_scan_error e none = none
or_scan_error none (some m) = some (value m)
or_scan_error (some e) (some m) = some (error e)

-- The lines of /proc/cgroups, or the error of os.Open, and then s.Err().
unfoldable pub get_all_sub_cgroup :
    OrError (List (List ℕ)) → Option String → Option (OrError (Dict (List ℕ) Bool))
unfolding scan_lines
get_all_sub_cgroup (error e) scan_error = some (error e)
get_all_sub_cgroup (value lines) scan_error = or_scan_error scan_error (scan_lines [] lines)

abbrev pub is_set : List ℕ → Dict (List ℕ) Bool → Bool
is_set name m = present (lookup name m)

unfoldable pub filter_by_env : OrError (Dict (List ℕ) Bool) → Builder → OrError Builder
filter_by_env (error e) b = error e
filter_by_env (value m) b = value (record {
  with_cpuacct = b.with_cpuacct && is_set (codes "cpuacct") m;
  with_memory = b.with_memory && is_set (codes "memory") m;
  with_pids = b.with_pids && is_set (codes "pids") m;
})
