-- ===== src/PtraceRunner/Handle.antt =====
-- What an allowed system call has been checked for.
use go_sandbox.Common.{
  ℕ, String, Bool, true, Option, none, some, ◌≡◌, ◌⊎◌, refl, arith, some-inj, subst, Option-cases,
  Bool-cases, inl, inr, List, ◌%◌, ◌/◌, ◌∷◌, [], nat_eq, ◌*◌,
}
use go_sandbox.Common.Bits.{bit_and-3, bit_and-bit}
use go_sandbox.FilePaths.{FilePath}
use go_sandbox.FileHandler.FileSets.{is_writable_file, is_readable_file, is_statable_file, FileSets}
use go_sandbox.FileHandler.Handler.{
  TraceAction, trace_allow, trace_ban, trace_kill, Handler, check_read, check_write, check_stat,
  check_syscall,
}
use go_sandbox.Ptracer.Regs.{Amd64, syscall_no, set_return_value, arg0, arg1, arg2}
use go_sandbox.PtraceRunner.{
  Check, open_file, read_path, write_path, stat_path, by_name, check_of, is_read_only, abs_path,
  Handled, conclude, check_open, run_check, handle_named, with_path, handle, ban_ret,
}
use Prim.Native.Nat.{bit_and}

infixr 3 ◌also◌
abbrev ◌also◌ : {A B : Type 0} → A → B → A × B
a also b = (a, b)

-- What a system call does to the path behind an argument.
pub data Access : Type 0 where
  writes reads looks_up : Access

pub record PathCall : Type 0 where
  pub name : String
  pub address : Amd64 → ℕ
  pub access : Access

-- The calls that take a path beside the two that open, with the place of the path, as the manual
-- pages have them. A call at a directory has its path behind the descriptor.
abbrev pub path_calls : List PathCall
path_calls =
    (record { name = "readlink"; address = arg0; access = reads })
    ∷ (record { name = "readlinkat"; address = arg1; access = reads })
    ∷ (record { name = "execve"; address = arg0; access = reads })
    ∷ (record { name = "execveat"; address = arg1; access = reads })
    ∷ (record { name = "unlink"; address = arg0; access = writes })
    ∷ (record { name = "unlinkat"; address = arg1; access = writes })
    ∷ (record { name = "chmod"; address = arg0; access = writes })
    ∷ (record { name = "rename"; address = arg0; access = writes })
    ∷ (record { name = "access"; address = arg0; access = looks_up })
    ∷ (record { name = "faccessat"; address = arg1; access = looks_up })
    ∷ (record { name = "newfstatat"; address = arg1; access = looks_up })
    ∷ (record { name = "stat"; address = arg0; access = looks_up })
    ∷ (record { name = "stat64"; address = arg0; access = looks_up })
    ∷ (record { name = "lstat"; address = arg0; access = looks_up })
    ∷ (record { name = "lstat64"; address = arg0; access = looks_up })
    ∷ []

abbrev pub permitted : (FilePath → Option FilePath) → Access → FileSets → FilePath → Bool
permitted eval_symlinks writes = is_writable_file eval_symlinks
permitted eval_symlinks reads = is_readable_file eval_symlinks
permitted eval_symlinks looks_up = is_statable_file eval_symlinks

-- The flags of an open that only reads: the access mode of the two lowest bits is O_RDONLY, and the
-- bits 6, 7 and 9, of O_CREAT, O_EXCL and O_TRUNC, are clear.
abbrev pub OnlyReads : ℕ → Type 0
OnlyReads flags =
    (flags % 4 ≡ 0) × (flags / 64 % 2 ≡ 0) × (flags / 128 % 2 ≡ 0) × (flags / 512 % 2 ≡ 0)

is_read_only-OnlyReads : (flags : ℕ) → is_read_only flags ≡ true → OnlyReads flags
unfolding is_read_only
is_read_only-OnlyReads flags h =
    let mode : bit_and flags 3 ≡ flags % 4 = bit_and-3 flags in
    let creat : bit_and flags 64 ≡ flags / 64 % 2 * 64 = bit_and-bit 6 flags in
    let excl : bit_and flags 128 ≡ flags / 128 % 2 * 128 = bit_and-bit 7 flags in
    let trunc : bit_and flags 512 ≡ flags / 512 % 2 * 512 = bit_and-bit 9 flags in
    (ground arith, ground arith, ground arith, ground arith)

module _ (eval_symlinks : FilePath → Option FilePath) (cwd : FilePath)
    (get_string : ℕ → Option FilePath) where
  -- The path behind an address has the permission.
  abbrev pub PathHas : ((FilePath → Bool) → ℕ → Type 0)
  PathHas permitted addr =
      (p : FilePath) × (get_string addr ≡ some p) × (permitted (abs_path cwd p) ≡ true)

  abbrev pub Cleared : Handler → String → Check → Type 0
  Cleared h name (open_file addr flags) =
      (PathHas (is_writable_file eval_symlinks h.file_set) addr)
      ⊎ ((is_read_only flags ≡ true) × PathHas (is_readable_file eval_symlinks h.file_set) addr)
  Cleared h name (read_path addr) = PathHas (is_readable_file eval_symlinks h.file_set) addr
  Cleared h name (write_path addr) = PathHas (is_writable_file eval_symlinks h.file_set) addr
  Cleared h name (stat_path addr) = PathHas (is_statable_file eval_symlinks h.file_set) addr
  Cleared h name by_name = (check_syscall h name).1 ≡ trace_allow

  run_check-Cleared :
      (h : Handler) (ctx : Amd64) (name : String) (c : Check) (r : Handled)
      → run_check eval_symlinks cwd get_string h ctx name c ≡ some r
      → r.action ≡ trace_allow
      → Cleared h name c
  unfolding run_check check_read check_write check_stat
  run_check-Cleared h ctx name (open_file addr flags) r e a =
      elim (Option-cases (get_string addr)) [
        | inl n ↦ absurd (ground arith)
        | inr (p, q) ↦ elim (Bool-cases (is_read_only flags)) [
          | inl ro ↦ inr (ro, (p, q, ground arith))
          | inr rw_mode ↦ inl (p, q, ground arith)
        ]
      ]
  run_check-Cleared h ctx name (read_path addr) r e a = elim (Option-cases (get_string addr)) [
    | inl n ↦ absurd (ground arith)
    | inr (p, q) ↦ (p, q, ground arith)
  ]
  run_check-Cleared h ctx name (write_path addr) r e a = elim (Option-cases (get_string addr)) [
    | inl n ↦ absurd (ground arith)
    | inr (p, q) ↦ (p, q, ground arith)
  ]
  run_check-Cleared h ctx name (stat_path addr) r e a = elim (Option-cases (get_string addr)) [
    | inl n ↦ absurd (ground arith)
    | inr (p, q) ↦ (p, q, ground arith)
  ]
  run_check-Cleared h ctx name by_name r e a = ground arith

  -- The path behind an address may be written, or it may be read and the flags only read.
  abbrev pub OpenHas : Handler → ℕ → ℕ → Type 0
  OpenHas h addr flags =
      PathHas (is_writable_file eval_symlinks h.file_set) addr
      ⊎ (OnlyReads flags × PathHas (is_readable_file eval_symlinks h.file_set) addr)

  abbrev pub Needs : Handler → String → Amd64 → List PathCall → Type 0
  Needs h name ctx [] = Unit
  Needs h name ctx (call ∷ calls) =
      (name ≡ call.name
        → PathHas (permitted eval_symlinks call.access h.file_set) (call.address ctx))
      × Needs h name ctx calls

  -- What a call that passes has been approved for: its number has a name, and where the call is one
  -- of those that take a path, the path has the permission that the call needs.
  pub record Passed (name : Option String) (h : Handler) (ctx : Amd64) : Type 0 where
    pub known : String
    pub named : name ≡ some known
    pub opens : known ≡ "open" → OpenHas h (arg0 ctx) (arg1 ctx)
    pub opens_at : known ≡ "openat" → OpenHas h (arg1 ctx) (arg2 ctx)
    pub needs : Needs h known ctx path_calls

  Cleared-at :
      (h : Handler) (ctx : Amd64) (known name : String)
      → Cleared h known (check_of known ctx)
      → known ≡ name
      → Cleared h name (check_of name ctx)
  Cleared-at h ctx known name c e = subst (λ n. Cleared h n (check_of n ctx)) e c

  open-OpenHas :
      (h : Handler) (name : String) (addr flags : ℕ)
      → Cleared h name (open_file addr flags)
      → OpenHas h addr flags
  open-OpenHas h name addr flags (inl w) = inl w
  open-OpenHas h name addr flags (inr (ro, r)) = inr (is_read_only-OnlyReads flags ro, r)

  Cleared-Needs :
      (h : Handler) (ctx : Amd64) (known : String)
      → Cleared h known (check_of known ctx)
      → Needs h known ctx path_calls
  unfolding check_of
  Cleared-Needs h ctx known c =
      let at = Cleared-at h ctx known in
      at "readlink" c
      also at "readlinkat" c
      also at "execve" c
      also at "execveat" c
      also at "unlink" c
      also at "unlinkat" c
      also at "chmod" c
      also at "rename" c
      also at "access" c
      also at "faccessat" c
      also at "newfstatat" c
      also at "stat" c
      also at "stat64" c
      also at "lstat" c
      also at "lstat64" c
      also tt

  Cleared-Passed :
      (h : Handler) (ctx : Amd64) (known : String)
      → Cleared h known (check_of known ctx)
      → Passed (some known) h ctx
  unfolding check_of
  Cleared-Passed h ctx known c = record {
    known = known;
    named = refl;
    opens = λ e. open-OpenHas h "open" (arg0 ctx) (arg1 ctx) (Cleared-at h ctx known "open" c e);
    opens_at =
        λ e. open-OpenHas h "openat" (arg1 ctx) (arg2 ctx) (Cleared-at h ctx known "openat" c e);
    needs = Cleared-Needs h ctx known c;
  }

  -- The registers behind an action: only a ban writes one, the return value -EACCES.
  abbrev pub Registers : Amd64 → TraceAction → Amd64 → Type 0
  Registers before trace_ban after = after ≡ set_return_value ban_ret before
  Registers before _ after = after ≡ before

  conclude-Registers :
      (h : Handler) (ctx : Amd64) (a : TraceAction)
      → Registers ctx (conclude h ctx a).action (conclude h ctx a).ctx
  unfolding conclude
  conclude-Registers h ctx trace_allow = refl
  conclude-Registers h ctx trace_ban = refl
  conclude-Registers h ctx trace_kill = refl

  some-conclude-Registers :
      (h : Handler) (ctx : Amd64) (a : TraceAction) (r : Handled)
      → some (conclude h ctx a) ≡ some r
      → Registers ctx r.action r.ctx
  some-conclude-Registers h ctx a r e =
      subst (λ x. Registers ctx x.action x.ctx) (some-inj e) (conclude-Registers h ctx a)

  with_path-Registers :
      (h : Handler) (ctx : Amd64) (addr : ℕ) (f : FilePath → TraceAction) (r : Handled)
      → with_path eval_symlinks cwd get_string addr (λ fn. conclude h ctx (f fn)) ≡ some r
      → Registers ctx r.action r.ctx
  with_path-Registers h ctx addr f r e = elim (Option-cases (get_string addr)) [
    | inl n ↦ absurd (ground arith)
    | inr (p, q) ↦ some-conclude-Registers h ctx (f (abs_path cwd p)) r (rw (q, with_path) at e)
  ]

  run_check-Registers :
      (h : Handler) (ctx : Amd64) (name : String) (c : Check) (r : Handled)
      → run_check eval_symlinks cwd get_string h ctx name c ≡ some r
      → Registers ctx r.action r.ctx
  unfolding run_check
  run_check-Registers h ctx name (open_file addr flags) r e =
      with_path-Registers h ctx addr (λ fn. check_open eval_symlinks cwd get_string h fn flags) r e
  run_check-Registers h ctx name (read_path addr) r e =
      with_path-Registers h ctx addr (check_read eval_symlinks h) r e
  run_check-Registers h ctx name (write_path addr) r e =
      with_path-Registers h ctx addr (check_write eval_symlinks h) r e
  run_check-Registers h ctx name (stat_path addr) r e =
      with_path-Registers h ctx addr (check_stat eval_symlinks h) r e
  run_check-Registers h ctx name by_name r e =
      some-conclude-Registers (check_syscall h name).0 ctx (check_syscall h name).1 r e

  handle_named-Passed :
      (h : Handler) (ctx : Amd64) (name : Option String) (r : Handled)
      → handle_named eval_symlinks cwd get_string h ctx name ≡ some r
      → Registers ctx r.action r.ctx × (r.action ≡ trace_allow → Passed name h ctx)
  handle_named-Passed h ctx none r e =
      (subst (λ x. Registers ctx x.action x.ctx) (some-inj e) refl, λ a. absurd (ground arith))
  handle_named-Passed h ctx (some name) r e = (
    run_check-Registers h ctx name (check_of name ctx) r e,
    λ a. Cleared-Passed h ctx name (run_check-Cleared h ctx name (check_of name ctx) r e a),
  )

  -- Whatever the call, only a ban changes a register, the return value. A call that passes has a
  -- known name. If it opens a file, the file may be written, or it may be read and the flags are of an
  -- open that only reads; if it is another call of `path_calls`, its path there has the permission to
  -- be written, read or looked up that the list names.
  pub handle-Passed :
      (to_syscall_name : ℕ → Option String) (h : Handler) (ctx : Amd64) (r : Handled)
      → handle eval_symlinks cwd get_string to_syscall_name h ctx ≡ some r
      → Registers ctx r.action r.ctx
        × (r.action ≡ trace_allow → Passed (to_syscall_name (syscall_no ctx)) h ctx)
  unfolding handle
  handle-Passed to_syscall_name h ctx r e =
      handle_named-Passed h ctx (to_syscall_name (syscall_no ctx)) r e
