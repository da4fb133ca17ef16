-- ===== src/Examples/Configured.antt =====
-- The settings of a compiler and of an unknown program, a sequence of additions, and a text that is read.
use go_sandbox.Common.{
  [], ◌∷◌, none, some, true, false, List, ℕ, String, Option, codes, if◌then◌else◌, ◌++◌, ◌≡◌, ◌==◌,
  nat_eq, how_many-append, ◌↔◌, Bool-cases, refl, arith, inl, inr, string_eq, ◌⊎◌,
}
use go_sandbox.FilePaths.{FilePath}
use go_sandbox.Config.Loader.Cleaned.{count, IsArranged, clean_trace-count}
use go_sandbox.Config.Loader.{Conf, clean_trace, get_conf}
use go_sandbox.FileHandler.FileSet.{is_in_set_smart, new_file_set}
use go_sandbox.Ptracer.Strings.Read.{span, get_string_with-text}
use go_sandbox.FileHandler.FileSet.Union.{Addition, run, one, range, Granted, is_in_set_smart-run}
use go_sandbox.Ptracer.Strings.{has_null, get_string_with, bytes_read}
use go_sandbox.Config.Loader.Confined.{
  get_conf-Traced, Reaches, writable_additions, readable_additions, get_conf-Files,
}
use go_sandbox.FileHandler.Handler.{check_write, trace_allow, check_read}

abbrev reversed : List String → List String
reversed [] = []
reversed (x ∷ xs) = reversed xs ++ (x ∷ [])

reversed-IsArranged : (xs : List String) → IsArranged xs (reversed xs)
reversed-IsArranged [] x = refl
reversed-IsArranged (y ∷ xs) x =
    rw (how_many-append, reversed-IsArranged xs x)
      (elim (Bool-cases (y == x)) [ inl b ↦ rw b (omega arith) | inr b ↦ rw b (omega arith) ])

abbrev no_links : FilePath → Option FilePath
no_links p = none

abbrev solution : FilePath
solution = codes "/w/a.out"

clean_trace-count_example :
    (count "fork" (clean_trace reversed ("fork" ∷ "read" ∷ "fork" ∷ []) ("read" ∷ [])).0 ≡ 1)
    × (count "fork" (clean_trace reversed ("fork" ∷ "read" ∷ "fork" ∷ []) ("read" ∷ [])).1 ≡ 0)
clean_trace-count_example =
    clean_trace-count reversed reversed-IsArranged ("fork" ∷ "read" ∷ "fork" ∷ []) ("read" ∷ [])
      "fork"

get_conf-Traced_example :
    (conf : Conf) × (get_conf reversed "compiler" (codes "/w") (solution ∷ []) [] [] true
      ≡ some conf)
    × (count "execve" conf.trace ≡ 1)
    × (count "execve" conf.allow ≡ 0)
get_conf-Traced_example =
    get_conf-Traced reversed "compiler" (codes "/w") solution [] [] [] true reversed-IsArranged
      "execve" refl

get_conf-Files_example :
    (conf : Conf) × (get_conf reversed "c" (codes "/w") (solution ∷ []) [] (codes "out" ∷ []) false
      ≡ some conf)
    × ((check_write no_links conf.handler (codes "/w/out") ≡ trace_allow)
        ↔ Reaches no_links
            (writable_additions reversed "c" (codes "/w") solution [] [] (codes "out" ∷ []) false)
            (codes "/w/out"))
    × ((check_read no_links conf.handler (codes "/w/out") ≡ trace_allow) ↔ (
        Reaches no_links
          (writable_additions reversed "c" (codes "/w") solution [] [] (codes "out" ∷ []) false)
          (codes "/w/out")
        ⊎ Reaches no_links
            (readable_additions reversed "c" (codes "/w") solution [] [] (codes "out" ∷ []) false)
            (codes "/w/out")))
get_conf-Files_example =
    get_conf-Files reversed "c" (codes "/w") solution [] [] (codes "out" ∷ []) false no_links
      (codes "/w/out")

abbrev two_additions : List Addition
two_additions = one (codes "/etc/passwd") ∷ range (codes "data" ∷ []) (codes "/w") ∷ []

is_in_set_smart-run_example :
    (is_in_set_smart (run two_additions new_file_set) (codes "/w/data/x") ≡ true)
    ↔ Granted two_additions (codes "/w/data/x")
is_in_set_smart-run_example = is_in_set_smart-run two_additions (codes "/w/data/x")

abbrev hi_memory : ℕ → ℕ
hi_memory a = if a == 16 then 104 else if a == 17 then 105 else 0

get_string_with-text_example :
    (get_string_with 4096
      (λ a l. bytes_read (span hi_memory a l))
      (λ a. span hi_memory a 8)
      1
      true
      16).0
    ≡ some (104 ∷ 105 ∷ [])
unfolding span has_null
get_string_with-text_example =
    get_string_with-text hi_memory (λ a l. bytes_read (span hi_memory a l)) (λ a l bs e. cc)
      (λ a. span hi_memory a 8) 16 2 8 refl (ground arith) (ground arith) (ground arith) refl refl 0
      true
