-- ===== src/Ptracer/Strings.antt =====
-- How a path is read from the memory of a traced process: GetString of ptracer/context_linux.go, and
-- vmReadStr with its helpers of ptracer/context_helper_linux.go. The two system calls are parameters.
pub mod Read
use go_sandbox.Common.{
  [], ◌∷◌, zero, suc, none, some, true, false, ℕ, List, Bool, Option, if◌then◌else◌, ◌++◌, ◌-◌,
  length, ltb, ◌==◌, ◌%◌, nat_eq, ◌||◌, ◌+◌, ◌^◌,
}
use go_sandbox.FilePaths.{take}

-- syscall.PathMax
abbrev pub path_max : ℕ
path_max = 4096

abbrev pub enosys : ℕ
enosys = 38

unfoldable pub has_null : List ℕ → Bool
has_null [] = false
has_null (b ∷ bs) = (b == 0) || has_null bs

-- the index of the first zero byte, or one more than the length
unfoldable pub clen : List ℕ → ℕ
clen [] = 1
clen (b ∷ bs) = if b == 0 then 0 else suc (clen bs)

abbrev pub zeros : ℕ → List ℕ
zeros zero = []
zeros (suc n) = 0 ∷ zeros n

-- a buffer of path_max bytes, of which the first have been written
abbrev pub buffer_of : List ℕ → List ℕ
buffer_of got = got ++ zeros (path_max - length got)

-- string(buff[:clen(buff)]), where `none` is the panic of a slice that is too long
unfoldable pub string_of : List ℕ → Option (List ℕ)
string_of buff = if ltb (length buff) (clen buff) then none else some (take (clen buff) buff)

-- process_vm_readv from an address: the bytes that are read, or an error number
pub data VmRead : Type 0 where
  bytes_read : List ℕ → VmRead
  vm_error : ℕ → VmRead

-- The bytes in the buffer at the return. `unfinished` is no result of the code: the fuel has run out.
pub data ReadStr : Type 0 where
  read_ok : List ℕ → ReadStr
  read_error : ℕ → List ℕ → ReadStr
  read_panics : ReadStr
  unfinished : ReadStr

-- if l := len(buff); r < l { r = l }
unfoldable pub chunk : ℕ → ℕ → ℕ
chunk r left = if ltb r left then left else r

-- What syscall.PtracePeekData writes over the buffer, and the bytes that are then known.
abbrev pub overlay : List ℕ → List ℕ → List ℕ
overlay [] got = got
overlay (b ∷ bs) [] = b ∷ bs
overlay (b ∷ bs) (_ ∷ got) = b ∷ overlay bs got

module _ (page_size : ℕ) (read : ℕ → ℕ → VmRead) where
  -- The loop of vmReadStr, with the bytes that have been read and the length `r` of the next read. A
  -- slice buff[:r] beyond the rest of the buffer panics.
  unfoldable pub vm_read_str_loop : ℕ → ℕ → List ℕ → ℕ → ReadStr
  unfolding chunk
  vm_read_str_loop zero addr got r = unfinished
  vm_read_str_loop (suc fuel) addr got r =
      let left = path_max - length got in
      let rest = λ (bs : List ℕ). vm_read_str_loop fuel addr (got ++ bs) page_size in
      let next : ReadStr = elim (read ((addr + length got) % 2 ^ 64) (chunk r left)) [
        | vm_error e ↦ read_error e got
        | bytes_read bs ↦ elim (has_null bs) [ true ↦ read_ok (got ++ bs) | false ↦ rest bs ]
      ] in
      if left == 0 then read_ok got else if ltb left (chunk r left) then read_panics else next

  unfoldable pub vm_read_str : ℕ → ℕ → ReadStr
  unfolding vm_read_str_loop
  vm_read_str fuel addr =
      let r = page_size - addr % page_size in
      vm_read_str_loop fuel addr [] (if r == 0 then page_size else r)

  -- syscall.PtracePeekData: the bytes that it reads from an address
  module _ (peek : ℕ → List ℕ) where
    abbrev pub by_peek : ℕ → List ℕ → Option (List ℕ)
    by_peek addr got = string_of (buffer_of (overlay (peek addr) got))

    -- the text, or `none` for a panic, and whether UseVMReadv is still set
    unfoldable pub get_string_with : ℕ → Bool → ℕ → Option (List ℕ) × Bool
    unfolding vm_read_str string_of
    get_string_with fuel false addr = (by_peek addr [], false)
    get_string_with fuel true addr = elim (vm_read_str fuel addr) [
      | read_ok got ↦ (string_of (buffer_of got), true)
      | read_error e got ↦ (by_peek addr got, if e == enosys then false else true)
      | read_panics ↦ (none, true)
      | unfinished ↦ (none, true)
    ]
