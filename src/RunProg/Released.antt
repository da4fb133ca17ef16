-- ===== src/RunProg/Released.antt =====
-- What `start` still holds when it returns.
use go_sandbox.Common.{
  ◌∷◌, none, some, true, false, Bool, Option, String, ◌≡◌, same_refl, refl, ap, ◌∙◌, ◌==◌, nat_eq,
  if◌then◌else◌,
}
use go_sandbox.RunProg.Start.{
  Held, StartAnswers, close_named, StartOptions, error_file, Resource, with_runner, close_files,
  at_files, at_memfile, output, open_named, or_fail, release, RunnerKind, behind_files,
  prepare_files, input, releasing, temp_root, source_file, environment, unknown_runner,
  container_runner, ns_runner, ptrace_runner, resource_code, finish_run, at_cgroup, memory_file,
  cgroup_dirs, start_program,
}
use go_sandbox.Ptracer.Events.{OrError, error, value}
use go_sandbox.Runner.{Result}

-- Every file that was opened is closed: at once if a later one fails, or by closeFiles.
abbrev Filed : (Held → Held) → Held → OrError Unit × Held → Type 0
Filed closes h (error e, h') = h' ≡ h
Filed closes h (value u, h') = closes h' ≡ h

module _ (i o e : Bool) where
  abbrev closing : Held → Held
  closing h = close_named e error_file (close_named o output (close_named i input h))

  abbrev opening : Option String → Option String → Option String → Held → OrError Unit × Held
  opening ei eo ee =
      open_named i ei input (λ h. h)
        (open_named o eo output (close_named i input) (
          open_named e ee error_file (λ h. close_named o output (close_named i input h))
            (λ h. (value tt, h))))

opening-Filed :
    (i o e : Bool) (ei eo ee : Option String) (h : Held)
    → Filed (closing i o e) h (opening i o e ei eo ee h)
opening-Filed true o e (some x) eo ee h = refl
opening-Filed true true e none (some x) ee h = refl
opening-Filed true true true none none (some x) h = refl
opening-Filed true true true none none none h = refl
opening-Filed true true false none none ee h = refl
opening-Filed true false true none eo (some x) h = refl
opening-Filed true false true none eo none h = refl
opening-Filed true false false none eo ee h = refl
opening-Filed false true e ei (some x) ee h = refl
opening-Filed false true true ei none (some x) h = refl
opening-Filed false true true ei none none h = refl
opening-Filed false true false ei none ee h = refl
opening-Filed false false true ei eo (some x) h = refl
opening-Filed false false true ei eo none h = refl
opening-Filed false false false ei eo ee h = refl

module _ (failed_copy : Option String) where
  -- All is released, or the source of a memory file that could not be made is left.
  pub data Released (h : Held) (r : OrError Result × Held) : Type 0 where
    all_released : r.1 ≡ h → Released h r
    source_left :
        (e : String) → failed_copy ≡ some e → r ≡ (error e, source_file ∷ h) → Released h r

  or_fail-Released :
      (err : Option String) (h : Held) (r : OrError Result × Held)
      → Released h r
      → Released h (or_fail err h r)
  or_fail-Released (some e) h r p = all_released refl
  or_fail-Released none h r p = p

  release_self : (q : Resource) (h : Held) → release q (q ∷ h) ≡ h
  release_self q h = rw same_refl refl

  releasing-Released :
      (q : Resource) (h : Held) (r : OrError Result × Held)
      → (resource_code source_file == resource_code q) ≡ false
      → Released (q ∷ h) r
      → Released h (releasing q r)
  releasing-Released q h (x, h') other (all_released same) =
      all_released (ap (release q) same ∙ release_self q h)
  releasing-Released q h r other (source_left e m eq) =
      source_left e m (ap (releasing q) eq ∙ ap (λ k. (error e, k)) (rw (other, same_refl) refl))

  memfd-Released :
      (err : Option String) (h : Held) (r : OrError Result × Held)
      → failed_copy ≡ err
      → Released h r
      → Released h (or_fail err (source_file ∷ h) r)
  memfd-Released (some e) h r eq p = source_left e eq refl
  memfd-Released none h r eq p = p

  if-Released :
      (b : Bool) (h : Held) (r q : OrError Result × Held)
      → Released h r
      → Released h q
      → Released h (if b then r else q)
  if-Released true h r q p p' = p
  if-Released false h r q p p' = p'

module _ (a : StartAnswers) (o : StartOptions) (failed_copy : Option String) where
  held_at_end : (h : Held) → Released failed_copy h (finish_run a o, h)
  held_at_end h = all_released refl

  with_runner-Released : (k : RunnerKind) (h : Held) → Released failed_copy h (with_runner a o k h)
  unfolding with_runner
  with_runner-Released container_runner h = or_fail-Released failed_copy a.temp_dir_error h _ (
      releasing-Released failed_copy temp_root h _ refl (
        or_fail-Released failed_copy a.build_error (temp_root ∷ h) _ (
          releasing-Released failed_copy environment (temp_root ∷ h) _ refl (
            or_fail-Released failed_copy a.ping_error (environment ∷ temp_root ∷ h) _
              (held_at_end _)))))
  with_runner-Released ns_runner h = or_fail-Released failed_copy a.filter_error h _ (
      or_fail-Released failed_copy a.temp_dir_error h _
        (releasing-Released failed_copy temp_root h _ refl (held_at_end (temp_root ∷ h))))
  with_runner-Released ptrace_runner h =
      or_fail-Released failed_copy a.filter_error h _ (held_at_end h)
  with_runner-Released (unknown_runner name) h = all_released refl

module _ (a : StartAnswers) (o : StartOptions) (failed_copy : Option String) where
  behind_files-Released :
      (h : Held) (r : OrError Unit × Held)
      → Filed (close_files a o) h r
      → Released failed_copy h (behind_files a o r)
  behind_files-Released h (error e, h') p = all_released p
  behind_files-Released h (value u, h') p = elim (with_runner-Released a o none o.runner h') [
    | all_released same ↦ all_released (ap (close_files a o) same ∙ p)
    | source_left e m eq ↦ cc
  ]

  at_files-Released : (h : Held) → Released failed_copy h (at_files a o h)
  unfolding at_files prepare_files close_files
  at_files-Released h = behind_files-Released h (prepare_files a o h) (
      opening-Filed o.named_input o.named_output o.named_error a.input_error a.output_error
        a.error_file_error h)

module _ (a : StartAnswers) (o : StartOptions) where
  at_memfile-Released : (h : Held) → Released a.memfd_error h (at_memfile a o h)
  unfolding at_memfile
  at_memfile-Released h =
      if-Released a.memfd_error o.memfile h _ _
        (or_fail-Released a.memfd_error a.open_error h _ (
          memfd-Released a.memfd_error a.memfd_error h _ refl (
            releasing-Released a.memfd_error memory_file h _ refl
              (at_files-Released a o a.memfd_error (memory_file ∷ h)))))
        (at_files-Released a o a.memfd_error h)

  at_cgroup-Released : (h : Held) → Released a.memfd_error h (at_cgroup a o h)
  unfolding at_cgroup
  at_cgroup-Released h =
      if-Released a.memfd_error o.use_cgroup h _ _
        (or_fail-Released a.memfd_error a.filter_env_error h _ (
          or_fail-Released a.memfd_error a.cgroup_error h _ (
            releasing-Released a.memfd_error cgroup_dirs h _ refl (
              or_fail-Released a.memfd_error a.memory_limit_error (cgroup_dirs ∷ h) _
                (at_memfile-Released (cgroup_dirs ∷ h))))))
        (at_memfile-Released h)

  -- Whatever fails, start returns with everything released that it acquired: cgroups, memory file,
  -- named files, temporary root and container. The order is not stated. The one exception is the
  -- executable opened for a memory file that cannot be made; then start returns that error.
  pub start_program-Released : (h : Held) → Released a.memfd_error h (start_program a o h)
  unfolding start_program
  start_program-Released h =
      or_fail-Released a.memfd_error a.mounts_error h _ (at_cgroup-Released h)
