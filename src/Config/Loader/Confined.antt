-- ===== src/Config/Loader/Confined.antt =====
-- What the settings of every type of program guarantee: the calls that stay traced, and the files
-- that may be read and written.
use mathlib.Core.Logic.Iff
use go_sandbox.Common.{
  [], ◌∷◌, none, some, true, false, String, List, Option, Bool, ◌≡◌, ◌++◌, refl, string_eq, arith,
  ap, ◌∙◌, ◌⊎◌, ◌↔◌, ◌||◌, or_cases, inl, inr, or_left, or_right, ◌&&◌, not,
}
use go_sandbox.FilePaths.{FilePath}
use go_sandbox.Config.Loader.{
  with_proc, Draft, with_program, base_draft, base_files, get_conf, finish, Conf,
}
use go_sandbox.Config.Types.{FileAccessConfig, ProgramConfig}
use go_sandbox.Common.Explore.{is_member}
use go_sandbox.FileHandler.FileSet.Union.{Addition, range, one, run, Granted, is_in_set_smart-run}
use go_sandbox.Common.Dict.{lookup}
use go_sandbox.FileHandler.FileSet.{add_range, new_file_set, FileSet, is_in_set_smart}
use go_sandbox.Config.Tables.{
  runptrace_config, default_writable_files, default_readable_files, arch_readable_files,
  default_syscall_traces, arch_syscall_traces,
}
use go_sandbox.FileHandler.FileSets.{
  add_file_permission, add_mode, FileSets, real_path, is_writable_file, is_readable_file,
}
use go_sandbox.FileHandler.Handler.{
  Handler, check_write, check_read, on_dgs_file_detect, trace_allow,
}
use go_sandbox.Config.Loader.Cleaned.{IsArranged, count, clean_trace-count, once}

is_member-append_left :
    (x : String) (xs ys : List String) → is_member x xs ≡ true → is_member x (xs ++ ys) ≡ true
is_member-append_left x [] ys h = cc
is_member-append_left x (z ∷ xs) ys h = ground (arith, is_member-append_left x xs ys)

once-and_not : (b : Bool) → once (b && not true) ≡ 0
once-and_not true = refl
once-and_not false = refl

-- The files that the type of the program adds.
abbrev pub extra : (FileAccessConfig → List FilePath) → Option ProgramConfig → List FilePath
extra f none = []
extra f (some c) = f c.file_access

module _ (work_path : FilePath) (d : Draft) where
  trace-with_program :
      (c : Option ProgramConfig) (x : String)
      → is_member x d.trace ≡ true
      → is_member x (with_program work_path c d).trace ≡ true
  unfolding with_program
  trace-with_program none x h = h
  trace-with_program (some c) x h = is_member-append_left x d.trace _ h

  abbrev ProgramFiles : Option ProgramConfig → FileSets → Type 0
  ProgramFiles c s =
      (s.writable ≡ add_range d.file_set.writable (extra (λ f. f.extra_write) c) work_path)
      × (s.readable ≡ add_range d.file_set.readable (extra (λ f. f.extra_read) c) work_path)

  with_program-files :
      (c : Option ProgramConfig) → ProgramFiles c (with_program work_path c d).file_set
  unfolding with_program add_range
  with_program-files none = (refl, refl)
  with_program-files (some c) = (refl, refl)

trace-with_proc : (allow_proc : Bool) (d : Draft) → (with_proc allow_proc d).trace ≡ d.trace
unfolding with_proc
trace-with_proc true d = refl
trace-with_proc false d = refl

file_set-with_proc :
    (allow_proc : Bool) (d : Draft) → (with_proc allow_proc d).file_set ≡ d.file_set
unfolding with_proc
file_set-with_proc true d = refl
file_set-with_proc false d = refl

-- The path, or the path behind its symbolic links, is granted by one of the additions.
abbrev pub Reaches : (FilePath → Option FilePath) → List Addition → FilePath → Type 0
Reaches eval_symlinks ops p = Granted ops p ⊎ Granted ops (real_path eval_symlinks p)

or_iff : (a b : Bool) {P Q : Type 0} → (a ≡ true) ↔ P → (b ≡ true) ↔ Q → ((a || b) ≡ true) ↔ (P ⊎ Q)
or_iff a b f g = (
  λ h. elim (or_cases a b h) [ inl x ↦ inl (f.0 x) | inr y ↦ inr (g.0 y) ],
  elim [ inl p ↦ or_left a b (f.1 p) | inr q ↦ or_right a b (g.1 q) ],
)

module _ (eval_symlinks : FilePath → Option FilePath) (p : FilePath) where
  set-Reaches :
      (s : FileSet) (ops : List Addition)
      → s ≡ run ops new_file_set
      → ((is_in_set_smart s p || is_in_set_smart s (real_path eval_symlinks p)) ≡ true)
        ↔ Reaches eval_symlinks ops p
  set-Reaches s ops e =
      rw e (
        or_iff _ _ (is_in_set_smart-run ops p)
          (is_in_set_smart-run ops (real_path eval_symlinks p)))

  check_write_iff :
      (h : Handler)
      → (check_write eval_symlinks h p ≡ trace_allow)
        ↔ (is_writable_file eval_symlinks h.file_set p ≡ true)
  unfolding check_write on_dgs_file_detect
  check_write_iff h = ground arith

  check_read_iff :
      (h : Handler)
      → (check_read eval_symlinks h p ≡ trace_allow)
        ↔ (is_readable_file eval_symlinks h.file_set p ≡ true)
  unfolding check_read on_dgs_file_detect
  check_read_iff h = ground arith

  module _ (h : Handler) (writes reads : List Addition)
      (w : h.file_set.writable ≡ run writes new_file_set)
      (r : h.file_set.readable ≡ run reads new_file_set) where
    check_write-Reaches :
        (check_write eval_symlinks h p ≡ trace_allow) ↔ Reaches eval_symlinks writes p
    unfolding is_writable_file
    check_write-Reaches = Iff.trans (check_write_iff h) (set-Reaches h.file_set.writable writes w)

    check_read-Reaches :
        (check_read eval_symlinks h p ≡ trace_allow)
        ↔ (Reaches eval_symlinks writes p ⊎ Reaches eval_symlinks reads p)
    unfolding is_readable_file is_writable_file
    check_read-Reaches = Iff.trans (check_read_iff h) (
        or_iff _ _ (set-Reaches h.file_set.writable writes w)
          (set-Reaches h.file_set.readable reads r))

module _ (arrange : List String → List String) (p_type : String) (work_path arg₀ : FilePath)
    (args add_read add_write : List FilePath) (allow_proc : Bool) where
  abbrev program : Option ProgramConfig
  program = lookup p_type runptrace_config

  abbrev base : Draft
  base = base_draft work_path (arg₀ ∷ args) arg₀ add_read add_write

  abbrev draft : Draft
  draft = with_proc allow_proc (with_program work_path program base)

  abbrev pub writable_additions : List Addition
  writable_additions =
      range default_writable_files work_path
      ∷ range add_write work_path
      ∷ range (extra (λ f. f.extra_write) program) work_path
      ∷ []

  abbrev pub readable_additions : List Addition
  readable_additions =
      range default_readable_files work_path
      ∷ range arch_readable_files work_path
      ∷ one arg₀
      ∷ one work_path
      ∷ range add_read work_path
      ∷ range (extra (λ f. f.extra_read) program) work_path
      ∷ []

  draft-files :
      (draft.file_set.writable ≡ run writable_additions new_file_set)
      × (draft.file_set.readable ≡ run readable_additions new_file_set)
  unfolding base_draft base_files add_file_permission add_mode
  draft-files =
      let (w, r) = with_program-files work_path base program in
      (
        ap (λ s. s.writable) (file_set-with_proc allow_proc (with_program work_path program base))
            ∙ w,
        ap (λ s. s.readable) (file_set-with_proc allow_proc (with_program work_path program base))
            ∙ r,
      )

  -- The settings of any type of program trace every call of the list of traced calls, and let none
  -- of them pass untraced, also for a compiler, whose own list allows execve. There are settings
  -- for every nonempty list of arguments.
  pub get_conf-Traced :
      (arranges : (xs : List String) → IsArranged xs (arrange xs)) (x : String)
      → is_member x default_syscall_traces ≡ true
      → (conf : Conf) × (get_conf arrange p_type work_path
            (arg₀ ∷ args)
            add_read
            add_write
            allow_proc
          ≡ some conf)
        × (count x conf.trace ≡ 1)
        × (count x conf.allow ≡ 0)
  unfolding get_conf finish base_draft
  get_conf-Traced arranges x h =
      let base_traces = is_member-append_left x default_syscall_traces arch_syscall_traces h in
      let traced : is_member x draft.trace ≡ true =
        rw (trace-with_proc allow_proc (with_program work_path program base))
          (trace-with_program work_path base program x base_traces) in
      let (a, t) = clean_trace-count arrange arranges draft.allow draft.trace x in
      (
        finish arrange draft,
        refl,
        rw (t, traced) refl,
        rw (a, traced) (once-and_not (is_member x draft.allow)),
      )

  -- With the settings of any type of program the handler lets a file be written exactly if
  -- /dev/null, the caller's list or the type's own list grants the path or what its links lead to,
  -- and read exactly if it may be written or the read lists, the first argument or the work path
  -- grant it.
  pub get_conf-Files :
      (eval_symlinks : FilePath → Option FilePath) (p : FilePath)
      → (conf : Conf) × (get_conf arrange p_type work_path
            (arg₀ ∷ args)
            add_read
            add_write
            allow_proc
          ≡ some conf)
        × ((check_write eval_symlinks conf.handler p ≡ trace_allow)
            ↔ Reaches eval_symlinks writable_additions p)
        × ((check_read eval_symlinks conf.handler p ≡ trace_allow) ↔ (
            Reaches eval_symlinks writable_additions p
            ⊎ Reaches eval_symlinks readable_additions p))
  unfolding get_conf finish
  get_conf-Files eval_symlinks p =
      let (w, r) = draft-files in
      let h = (finish arrange draft).handler in
      (
        finish arrange draft,
        refl,
        check_write-Reaches eval_symlinks p h writable_additions readable_additions w r,
        check_read-Reaches eval_symlinks p h writable_additions readable_additions w r,
      )
