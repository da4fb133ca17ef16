-- ===== src/Descriptors.antt =====
-- What a process of the host holds of the kernel: its open descriptors and its children. A descriptor is
-- numbered by the order of its opening, so no number is used twice; the kernel may give the number
-- of a closed one to another file, so that a second close of it is counted as a bad one.
pub mod Tables
use go_sandbox.Common.{[], ◌∷◌, none, some, true, false, List, ℕ, suc, if◌then◌else◌, ◌==◌, nat_eq}
use go_sandbox.Common.Explore.{is_member}

pub record HostProcess : Type 0 where
  pub opened : List ℕ
  pub next_fd : ℕ
  pub children : List ℕ
  pub bad_closes : ℕ

abbrev pub without : ℕ → List ℕ → List ℕ
without k [] = []
without k (j ∷ js) = let rest = without k js in if j == k then rest else j ∷ rest

-- The new descriptor is `h.next_fd`.
abbrev pub open_fd : HostProcess → HostProcess
open_fd h = record h { opened = h.next_fd ∷ h.opened; next_fd = suc h.next_fd }

abbrev pub close_fd : ℕ → HostProcess → HostProcess
close_fd fd h = record h {
  opened = without fd h.opened;
  bad_closes = if is_member fd h.opened then h.bad_closes else suc h.bad_closes;
}

-- `defer f.Close()`, at the return with a result
abbrev pub deferred : {A : Type 0} → ℕ → A × HostProcess → A × HostProcess
deferred fd (r, h) = (r, close_fd fd h)
