-- ===== src/Memfd/Sealed.antt =====
-- What DupToMemfd returns and leaves open.
use go_sandbox.Common.{none, some, true, ◌≡◌}
use go_sandbox.Ptracer.Events.{value, error}
use go_sandbox.Memfd.{MemAnswers, Left}

-- Either an error and no open file, or the open file itself, sealed and at its start, with all the
-- bytes of the reader.
abbrev pub Settles : MemAnswers → Left → Type 0
Settles a (error e, left) = left ≡ none
Settles a (value f, left) =
    (left ≡ some f)
    × (f.sealed ≡ true)
    × (f.offset ≡ 0)
    × (f.content ≡ a.copied)
    × (a.copy_error ≡ none)
