-- ===== src/Container/Environment/Settled.antt =====
-- What a build of a container leaves behind: its socket and its process, or nothing.
use go_sandbox.Common.{◌∷◌, none, ℕ, ◌≡◌, suc, ◌∙◌, arith, refl, sym, String, List, subst, zero}
use go_sandbox.Descriptors.{HostProcess, without, open_fd, close_fd}
use go_sandbox.Container.Environment.{
  BuildAnswers, EnvironmentBuilder, at_start, at_conf, destroy_environment, build_environment,
  at_dev_null, at_file, at_exec, mounts_of, root_of, runner_of, at_socket, wait_exit,
}
use go_sandbox.Ptracer.Events.{OrError, error, value}
use go_sandbox.Descriptors.Tables.{
  IsTable, Later, Later-close, Later-trans, Later-refl, Later-open, without_self, Below-without,
  open_fd-IsTable,
}
use go_sandbox.UnixSocket.Pairs.{Paired}
use go_sandbox.ForkExec.Config.{Runner, SyscallParams}
use go_sandbox.FilePaths.{FilePath}
use go_sandbox.Container.Environment.Deferred.{
  Settled, Used, deferred-Paired, deferred-Settled, deferred-Used, new_pass_cred_socket_pair-Paired,
  unless_failed-any, with_value-any,
}

wait_exit-reaped :
    (n pid : ℕ) (h : HostProcess)
    → (wait_exit n none pid h).1 ≡ record h { children = without pid h.children }
wait_exit-reaped zero pid h = refl
wait_exit-reaped (suc n) pid h = wait_exit-reaped n pid h

-- Destroy, where wait4 answers at last
destroyed-Used :
    (a : BuildAnswers) (ins pid : ℕ) (h : HostProcess)
    → a.wait_error ≡ none
    → IsTable h
    → without pid h.children ≡ h.children
    → (e : String)
    → Used ins h (
      error e,
      (destroy_environment a
          (record { pid = pid; socket = ins })
          (record h { children = pid ∷ h.children })).1,
    )
unfolding destroy_environment
destroyed-Used a ins pid h ends t fresh e =
    subst
      (λ w. Used ins h (
        error e,
        (wait_exit a.interruptions w pid
            (close_fd ins (record h { children = pid ∷ h.children }))).1,
      ))
      (sym ends)
      (rw
        (wait_exit-reaped a.interruptions pid
          (close_fd ins (record h { children = pid ∷ h.children })))
        (
          record {
            table = record { older = Below-without _ ins h.opened t.older };
            grown = omega arith;
            same_children = without_self pid h.children ∙ fresh;
          },
          refl,
        ))

module _ (a : BuildAnswers) (b : EnvironmentBuilder) (ends : a.wait_error ≡ none) where
  at_start-Used :
      (ins : ℕ) (answer : OrError ℕ) (h : HostProcess)
      → IsTable h
      → ((pid : ℕ) → answer ≡ value pid → without pid h.children ≡ h.children)
      → Used ins h (at_start a b ins answer h)
  unfolding at_start at_conf
  at_start-Used ins (error e) h t fresh = (Later-close ins (Later-refl h t), refl)
  at_start-Used ins (value pid) h t fresh =
      unless_failed-any (Used ins h) a.conf_error _ _
        (destroyed-Used a ins pid h ends t (fresh pid refl))
        (record { older = t.older }, omega arith, refl, refl, refl)

  module _ (h₀ : HostProcess)
      (news : (r : Runner) (root : FilePath) (pid : ℕ)
        → a.start r root ≡ value pid
        → without pid h₀.children ≡ h₀.children) where
    at_file-Used :
        (ms : List SyscallParams) (root : FilePath) (dev_null exec ins : ℕ) (h : HostProcess)
        → Later h₀ h
        → Used ins h (at_file a b ms root dev_null exec ins h)
    unfolding at_file
    at_file-Used ms root dev_null exec ins h l =
        unless_failed-any (Used ins h) a.dup_error _ _
          (λ e. (Later-close ins (Later-refl h l.table), refl))
          (deferred-Used ins h _ l.table (
            at_start-Used ins (a.start (runner_of a b ms dev_null exec h.next_fd) root) (open_fd h)
              (open_fd-IsTable h l.table) (λ pid e. rw l.same_children (news _ root pid e))))

    at_socket-Settled :
        (ms : List SyscallParams) (root : FilePath) (dev_null exec : ℕ) (h : HostProcess)
        (r : OrError (ℕ × ℕ) × HostProcess)
        → Later h₀ h
        → Paired h r
        → Settled h (at_socket a b ms root dev_null exec r)
    at_socket-Settled ms root dev_null exec h (error e, h₂) l p = p
    at_socket-Settled ms root dev_null exec h (value (i, o), h₂) l p =
        deferred-Paired h h₂ i o _ l.table p
          (at_file-Used ms root dev_null exec i h₂ (Later-trans l p.0))

    at_exec-Settled :
        (ms : List SyscallParams) (root : FilePath) (dev_null : ℕ) (h : HostProcess)
        → Later h₀ h
        → Settled h (at_exec a b ms root dev_null h)
    unfolding at_exec
    at_exec-Settled ms root dev_null h l =
        unless_failed-any (Settled h) a.exec_error _ _ (λ e. (Later-refl h l.table, refl))
          (deferred-Settled h _ l.table (
            at_socket-Settled ms root dev_null h.next_fd (open_fd h) _ (Later-open l)
              (new_pass_cred_socket_pair-Paired a (open_fd h) (open_fd-IsTable h l.table))))

    at_dev_null-Settled :
        (ms : List SyscallParams) (root : FilePath) (h : HostProcess)
        → Later h₀ h
        → Settled h (at_dev_null a b ms root h)
    unfolding at_dev_null
    at_dev_null-Settled ms root h l =
        unless_failed-any (Settled h) a.dev_null_error _ _ (λ e. (Later-refl h l.table, refl))
          (deferred-Settled h _ l.table
            (at_exec-Settled ms root h.next_fd (open_fd h) (Later-open l)))

-- Whatever fails in a build, if wait4 ends without an error after its interruptions and a started
-- process has a pid that no child of the host has: a failed build leaves the descriptors and the
-- children of the host as they were, and a successful one adds exactly the socket and the process
-- of the container.
pub build_environment-Settled :
    (a : BuildAnswers) (b : EnvironmentBuilder) (h : HostProcess)
    → IsTable h
    → a.wait_error ≡ none
    → ((r : Runner) (root : FilePath) (pid : ℕ)
        → a.start r root ≡ value pid
        → without pid h.children ≡ h.children)
    → Settled h (build_environment a b h)
unfolding build_environment
build_environment-Settled a b h t ends news =
    with_value-any (Settled h) (mounts_of a b) h _ (λ e. (Later-refl h t, refl))
      (λ ms.
        with_value-any (Settled h) (root_of a b) h _ (λ e. (Later-refl h t, refl))
          (λ root. at_dev_null-Settled a b ends h news ms root h (Later-refl h t)))
