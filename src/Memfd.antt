-- ===== src/Memfd.antt =====
-- Files in memory: New and DupToMemfd of pkg/memfd/memfd_linux.go. What the calls answer is a record.
pub mod Sealed
use go_sandbox.Common.{
  [], ◌∷◌, none, some, true, false, ℕ, List, Option, String, Bool, length, if◌then◌else◌,
}
use go_sandbox.Ptracer.Events.{OrError, value, error}

pub record MemFile : Type 0 where
  pub content : List ℕ
  -- no write, no growth, no shrinking, no further seal
  pub sealed : Bool
  pub offset : ℕ

-- The bytes that are copied until the end or an error.
pub record MemAnswers : Type 0 where
  pub create_error : Option String
  pub new_file_fails : Bool
  pub copied : List ℕ
  pub copy_error : Option String
  pub seal_error : Option String
  pub seek_error : Option String

-- What is returned, and the file that is left open.
abbrev pub Left : Type 0
Left = OrError MemFile × Option MemFile

-- file.Close() and the error
abbrev pub closing : Option String → Left → Left
closing (some e) rest = (error e, none)
closing none rest = rest

abbrev pub empty_file : MemFile
empty_file = record { content = []; sealed = false; offset = 0 }

-- New, and what is done with its file
abbrev pub on_file : (MemFile → Left) → Left → Left
on_file k (error e, open_file) = (error e, open_file)
on_file k (value f, open_file) = k f

-- the errors of memfd_create and of os.NewFile
abbrev pub made : Option String → Bool → Left
made (some e) fails = (error e, none)
made none true = (error "memfd: NewFile failed", none)
made none false = (value empty_file, some empty_file)

unfoldable pub new_memfd : MemAnswers → Left
new_memfd a = made a.create_error a.new_file_fails

-- The copy moves the offset; the seek moves it back.
unfoldable pub copy_into : MemAnswers → MemFile → Left
copy_into a f =
    let copy = record f { content = a.copied; offset = length a.copied } in
    let closed = record copy { sealed = true } in
    let rewound = record closed { offset = 0 } in
    closing a.copy_error (closing a.seal_error (closing a.seek_error (value rewound, some rewound)))

unfoldable pub dup_to_memfd : MemAnswers → Left
unfolding new_memfd copy_into
dup_to_memfd a = on_file (copy_into a) (new_memfd a)
