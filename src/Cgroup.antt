-- ===== src/Cgroup.antt =====
-- Build and Destroy of pkg/cgroup/cgroup.go: the directories of the three sub-cgroups. The file
-- system is a parameter; an empty path stands for a sub-cgroup that is not there.
pub mod Cleanup
pub mod Access
use go_sandbox.Common.{none, some, [], ◌∷◌, Bool, String, Option, if◌then◌else◌}
use go_sandbox.FilePaths.{FilePath}
use go_sandbox.Ptracer.Events.{OrError, error, value}

pub data Group : Type 0 where
  cpuacct memory pids : Group

pub record Builder : Type 0 where
  pub with_cpuacct : Bool
  pub with_memory : Bool
  pub with_pids : Bool

pub record Paths : Type 0 where
  pub cpuacct_path : FilePath
  pub memory_path : FilePath
  pub pids_path : FilePath

abbrev pub no_paths : Paths
no_paths = record { cpuacct_path = []; memory_path = []; pids_path = [] }

-- The file system: EnsureDirExists, whose error is not looked at, ioutil.TempDir and os.Remove.
pub record Directories (W : Type 0) : Type 0 where
  pub ensure_dir : FilePath → W → W
  pub temp_dir : FilePath → W → OrError FilePath × W
  pub remove_dir : FilePath → W → Option String × W

abbrev pub last_error : Option String → Option String → Option String
last_error before none = before
last_error before (some e) = some e

module _ {W : Type 0} (fs : Directories W) where
  -- remove: nothing is done for an empty path
  unfoldable pub remove_path : FilePath → W → Option String × W
  remove_path [] w = (none, w)
  remove_path (c ∷ cs) w = fs.remove_dir (c ∷ cs) w

  -- the deferred removals of a failed build
  unfoldable pub clean_up : Paths → W → W
  unfolding remove_path
  clean_up p w =
      (remove_path p.pids_path (remove_path p.memory_path (remove_path p.cpuacct_path w).1).1).1

  abbrev pub given_up : String → Paths → W → OrError Paths × W
  given_up e p w = (error e, clean_up p w)

  abbrev pub then_pids : Paths → OrError FilePath × W → OrError Paths × W
  then_pids p (error e, w) = given_up e p w
  then_pids p (value q, w) = (value (record p { pids_path = q }), w)

  -- Destroy: all three are removed, and the last error is returned
  unfoldable pub destroy : Paths → W → Option String × W
  unfolding remove_path
  destroy p w =
      let (e1, w1) = remove_path p.cpuacct_path w in
      let (e2, w2) = remove_path p.memory_path w1 in
      let (e3, w3) = remove_path p.pids_path w2 in (last_error (last_error e1 e2) e3, w3)

-- `base g` is path.Join(basePath, group, prefix).
module _ {W : Type 0} (fs : Directories W) (base : Group → FilePath) where
  unfoldable pub create_sub_cgroup_path : Group → W → OrError FilePath × W
  create_sub_cgroup_path g w = fs.temp_dir (base g) (fs.ensure_dir (base g) w)

  -- if b.X { xPath, err = CreateSubCgroupPath(...) }
  unfoldable pub create_if : Bool → Group → W → OrError FilePath × W
  unfolding create_sub_cgroup_path
  create_if b g w = if b then create_sub_cgroup_path g w else (value [], w)

  abbrev pub then_memory : Builder → Paths → OrError FilePath × W → OrError Paths × W
  then_memory b p (error e, w) = given_up fs e p w
  then_memory b p (value q, w) =
      then_pids fs (record p { memory_path = q }) (create_if b.with_pids pids w)

  abbrev pub then_cpuacct : Builder → OrError FilePath × W → OrError Paths × W
  then_cpuacct b (error e, w) = given_up fs e no_paths w
  then_cpuacct b (value q, w) =
      then_memory b (record no_paths { cpuacct_path = q }) (create_if b.with_memory memory w)

  unfoldable pub build_cgroup : Builder → W → OrError Paths × W
  build_cgroup b w = then_cpuacct b (create_if b.with_cpuacct cpuacct w)
