-- ===== src/Ptracer/Arm.antt =====
-- Context of ptracer/context_linux_arm.go and context_linux_arm64.go, and what the contexts of the three
-- architectures have in common. An array of registers is a function of the index.
use go_sandbox.Common.{
  none, some, List, [], ◌∷◌, ℕ, Option, String, if◌then◌else◌, ◌==◌, nat_eq, ◌≡◌, arith, refl, zero,
  suc,
}
use go_sandbox.Common.Int.{ℤ, unsigned, negsuc}
use go_sandbox.Ptracer.Regs.{
  Amd64, syscall_no, arg0, arg1, arg2, arg3, arg4, arg5, set_return_value,
}

pub record Uregs : Type 0 where
  pub uregs : ℕ → ℕ

abbrev put : ℕ → ℕ → Uregs → Uregs
put i v c = record { uregs = λ j. if j == i then v else c.uregs j }

-- arm64: the arguments stand in the registers 0 to 5, the first below the returned value
abbrev pub arm64_number : Uregs → ℕ
arm64_number c = c.uregs 8

abbrev pub arm64_argument : ℕ → Uregs → ℕ
arm64_argument i c = c.uregs i

abbrev pub arm64_write_return : ℤ → Uregs → Uregs
arm64_write_return v c = put 0 (unsigned 64 v) c

-- arm: the first argument is Orig_R0
abbrev pub arm_number : Uregs → ℕ
arm_number c = c.uregs 7

abbrev pub arm_argument : ℕ → Uregs → ℕ
arm_argument zero c = c.uregs 17
arm_argument (suc i) c = c.uregs (suc i)

abbrev pub arm_write_return : ℤ → Uregs → Uregs
arm_write_return v c = put 0 (unsigned 32 v) c

-- skipSyscall: the registers are written back, and then the number of the call, to -1
pub data RegsCall : Type 0 where
  set_regs : Uregs → RegsCall
  set_syscall : ℤ → RegsCall

unfoldable pub skip_arm : (RegsCall → Option String) → Uregs → Option String × List RegsCall
skip_arm answer c = elim (answer (set_regs c)) [
  | some e ↦ (some e, set_regs c ∷ [])
  | none ↦ (answer (set_syscall (negsuc 0)), set_regs c ∷ set_syscall (negsuc 0) ∷ [])
]

-- What the tracer does with a context: read the number of the call and its arguments, and write the
-- value that a skipped call returns.
pub record ContextOps (R : Type 0) : Type 0 where
  pub number : R → ℕ
  pub argument : ℕ → R → ℕ
  pub write_return : ℤ → R → R
  pub returned : R → ℕ
  -- the width of a register
  pub width : ℕ
  pub write_return-returned : (v : ℤ) (c : R) → returned (write_return v c) ≡ unsigned width v
  pub write_return-number : (v : ℤ) (c : R) → number (write_return v c) ≡ number c
  pub write_return-argument :
      (i : ℕ) (v : ℤ) (c : R) → argument (suc i) (write_return v c) ≡ argument (suc i) c

abbrev amd64_argument : ℕ → Amd64 → ℕ
amd64_argument zero c = arg0 c
amd64_argument (suc zero) c = arg1 c
amd64_argument (suc (suc zero)) c = arg2 c
amd64_argument (suc (suc (suc zero))) c = arg3 c
amd64_argument (suc (suc (suc (suc zero)))) c = arg4 c
amd64_argument _ c = arg5 c

pub amd64_kept :
    (i : ℕ) (v : ℤ) (c : Amd64)
    → amd64_argument (suc i) (set_return_value v c) ≡ amd64_argument (suc i) c
amd64_kept zero v c = refl
amd64_kept (suc zero) v c = refl
amd64_kept (suc (suc zero)) v c = refl
amd64_kept (suc (suc (suc zero))) v c = refl
amd64_kept (suc (suc (suc (suc i)))) v c = refl

pub put_other : (i n : ℕ) (c : Uregs) → (put 0 n c).uregs (suc i) ≡ c.uregs (suc i)
put_other i n c = ground arith

abbrev pub amd64 : ContextOps Amd64
amd64 = record {
  number = syscall_no;
  argument = amd64_argument;
  write_return = set_return_value;
  returned = λ c. c.rax;
  width = 64;
  write_return-returned = λ v c. refl;
  write_return-number = λ v c. refl;
  write_return-argument = amd64_kept;
}

abbrev pub arm64 : ContextOps Uregs
arm64 = record {
  number = arm64_number;
  argument = arm64_argument;
  write_return = arm64_write_return;
  returned = λ c. c.uregs 0;
  width = 64;
  write_return-returned = λ v c. refl;
  write_return-number = λ v c. refl;
  write_return-argument = λ i v c. put_other i (unsigned 64 v) c;
}

abbrev pub arm : ContextOps Uregs
arm = record {
  number = arm_number;
  argument = arm_argument;
  write_return = arm_write_return;
  returned = λ c. c.uregs 0;
  width = 32;
  write_return-returned = λ v c. refl;
  write_return-number = λ v c. refl;
  write_return-argument = λ i v c. put_other i (unsigned 32 v) c;
}
