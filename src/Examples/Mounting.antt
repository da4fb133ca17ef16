-- ===== src/Examples/Mounting.antt =====
-- Limits and mounts that meet the conditions of their theorems.
use go_sandbox.Mount.{
  Mount, Stat, build, path_prefix, not_exist, is_bind_mount_file_or_not_exists, params_of,
  to_syscall, is_dir, is_file,
}
use go_sandbox.Rlimit.{RLimits, prepare_rlimit}
use go_sandbox.Common.{
  [], ◌∷◌, ℕ, List, ◌↔◌, false, ◌≡◌, true, ◌⊎◌, how_many, ◌==◌, nat_eq, refl, if◌then◌else◌, ltb,
}
use go_sandbox.Common.Explore.{each, Among}
use go_sandbox.ForkExec.Config.{CString, ms_bind, SyscallParams, has_flags}
use go_sandbox.Rlimit.Prepared.{is_fit, asked, prepare_rlimit-Fit}
use go_sandbox.Mount.Built.{params_list, present_mounts, build-present}
use go_sandbox.Mount.Prefixes.{Above, path_prefix-Above}

abbrev some_rlimits : RLimits
some_rlimits = record {
  cpu = 5;
  cpu_hard = 1;
  data_size = 0;
  file_size = 100;
  stack = 0;
  address_space = 7;
}

prepare_rlimit-Fit_example :
    (each (is_fit some_rlimits) (prepare_rlimit some_rlimits) ≡ true)
    × ((res : ℕ)
        → how_many (λ l. l.res == res) (prepare_rlimit some_rlimits)
          ≡ (if ltb 0 (asked some_rlimits res) then 1 else 0))
prepare_rlimit-Fit_example = prepare_rlimit-Fit some_rlimits

-- a/b/c
abbrev abc : CString
abc = 97 ∷ 47 ∷ 98 ∷ 47 ∷ 99 ∷ []

abbrev ab : CString
ab = 97 ∷ 47 ∷ 98 ∷ []

path_prefix-Above_example : Among ab (path_prefix abc) ↔ ((ab ≡ abc) ⊎ Above abc ab)
path_prefix-Above_example = path_prefix-Above 97 (47 ∷ 98 ∷ 47 ∷ 99 ∷ []) ab

abbrev sources : CString → Stat
sources [] = not_exist
sources (c ∷ _) = if c == 97 then is_dir else is_file

abbrev bind_of : ℕ → Mount
bind_of c = record {
  source = c ∷ [];
  target = c ∷ [];
  fs_type = [];
  data_text = [];
  flags = ms_bind;
}

abbrev lost_mount : Mount
lost_mount = record (bind_of 97) { source = [] }

abbrev three_mounts : List Mount
three_mounts = bind_of 97 ∷ lost_mount ∷ bind_of 98 ∷ []

abbrev two_params : List SyscallParams
two_params = params_of (bind_of 97) false ∷ params_of (bind_of 98) true ∷ []

build-present_example :
    (two_params ≡ params_list sources (present_mounts sources three_mounts))
    × (true ≡ false → present_mounts sources three_mounts ≡ three_mounts)
unfolding build is_bind_mount_file_or_not_exists to_syscall has_flags
build-present_example = build-present sources true three_mounts two_params refl
