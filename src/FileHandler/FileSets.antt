-- ===== src/FileHandler/FileSets.antt =====
-- FileSets of runner/ptrace/filehandler/fileset.go. `eval_symlinks` stands for
-- filepath.EvalSymlinks: the path behind the symbolic links of a path, or `none` for an error.
pub mod Hierarchy
use go_sandbox.Common.{
  ℕ, zero, suc, Bool, ◌||◌, Option, none, some, List, [], ◌∷◌, ◌++◌, if◌then◌else◌, map, length,
  not,
}
use go_sandbox.FilePaths.{FilePath, dirname, is_empty}
use go_sandbox.FileHandler.FileSet.{FileSet, new_file_set, is_in_set_smart, add}

-- The permission codes; `other` is any number that names none.
pub data FilePerm : Type 0 where
  write read stat : FilePerm
  other : ℕ → FilePerm

pub record FileSets : Type 0 where
  pub writable : FileSet
  pub readable : FileSet
  pub statable : FileSet
  pub soft_ban : FileSet

abbrev pub new_file_sets : FileSets
new_file_sets = record {
  writable = new_file_set;
  readable = new_file_set;
  statable = new_file_set;
  soft_ban = new_file_set;
}

-- for name = dirname(name); name != ""; name = dirname(name) { s.Statable.Add(name) }
unfoldable pub add_parents : ℕ → FilePath → FileSet → FileSet
add_parents zero name s = s
add_parents (suc fuel) name s =
    let up = dirname name in
    let rest = add_parents fuel up (add s up) in if is_empty up then s else rest

unfoldable pub add_mode : FilePath → FilePerm → FileSets → FileSets
add_mode name write s = record s { writable = add s.writable name }
add_mode name read s = record s { readable = add s.readable name }
add_mode name stat s = record s { statable = add s.statable name }
add_mode name (other _) s = s

-- Each round shortens the path, so its length is fuel enough.
unfoldable pub add_file_permission : FileSets → FilePath → FilePerm → FileSets
unfolding add_mode
add_file_permission s name mode =
    let t = add_mode name mode s in
    record t { statable = add_parents (suc (length name)) name t.statable }

module _ (eval_symlinks : FilePath → Option FilePath) where
  abbrev or_empty : Option FilePath → FilePath
  or_empty none = []
  or_empty (some f) = f

  unfoldable pub real_path : FilePath → FilePath
  real_path p = or_empty (eval_symlinks p)

  unfoldable pub is_writable_file : FileSets → FilePath → Bool
  is_writable_file s name =
      is_in_set_smart s.writable name || is_in_set_smart s.writable (real_path name)

  unfoldable pub is_readable_file : FileSets → FilePath → Bool
  is_readable_file s name =
      is_writable_file s name
      || (is_in_set_smart s.readable name || is_in_set_smart s.readable (real_path name))

  unfoldable pub is_statable_file : FileSets → FilePath → Bool
  is_statable_file s name =
      is_readable_file s name
      || (is_in_set_smart s.statable name || is_in_set_smart s.statable (real_path name))

  unfoldable pub is_soft_ban_file : FileSets → FilePath → Bool
  is_soft_ban_file s name =
      is_in_set_smart s.soft_ban name || is_in_set_smart s.soft_ban (real_path name)

  unfoldable pub get_extra_set : List FilePath → List FilePath → List FilePath
  get_extra_set extra raw = raw ++ map real_path extra
