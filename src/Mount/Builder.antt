-- ===== src/Mount/Builder.antt =====
-- The mounts that the methods of the builder append: pkg/mount/builder_linux.go.
use Prim.Native.Nat.{bit_or}
use go_sandbox.Common.{[], ◌∷◌, true, ℕ, List, Bool, ◌++◌, codes, if◌then◌else◌}
use go_sandbox.ForkExec.Config.{CString, ms_bind, ms_nosuid, ms_private, ms_noatime, ms_rdonly}
use go_sandbox.Mount.{Mount}

-- MS_BIND | MS_NOSUID | MS_PRIVATE
abbrev pub bind : ℕ
bind = bit_or (bit_or ms_bind ms_nosuid) ms_private

-- MS_NOSUID | MS_NOATIME | MS_NODEV
abbrev pub m_flag : ℕ
m_flag = bit_or (bit_or ms_nosuid ms_noatime) 4

unfoldable pub with_bind : CString → CString → Bool → List Mount → List Mount
with_bind source target readonly ms =
    ms
    ++ record {
      source = source;
      target = target;
      fs_type = [];
      data_text = [];
      flags = if readonly then bit_or bind ms_rdonly else bind;
    }
      ∷ []

unfoldable pub with_tmpfs : CString → CString → List Mount → List Mount
with_tmpfs target text ms =
    ms
    ++ record {
      source = codes "tmpfs";
      target = target;
      fs_type = codes "tmpfs";
      data_text = text;
      flags = m_flag;
    }
      ∷ []

unfoldable pub with_proc : List Mount → List Mount
with_proc ms =
    ms
    ++ record {
      source = codes "proc";
      target = codes "proc";
      fs_type = codes "proc";
      data_text = [];
      flags = bit_or ms_nosuid ms_rdonly;
    }
      ∷ []

abbrev pub with_mounts : List Mount → List Mount → List Mount
with_mounts more ms = ms ++ more

abbrev pub with_mount : Mount → List Mount → List Mount
with_mount m ms = ms ++ m ∷ []

abbrev pub new_default_builder : List Mount
unfolding with_bind
new_default_builder = with_bind (codes "/bin") (codes "bin") true (
    with_bind (codes "/lib64") (codes "lib64") true (
      with_bind (codes "/lib") (codes "lib") true (with_bind (codes "/usr") (codes "usr") true [])))
