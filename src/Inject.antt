-- ===== src/Inject.antt =====
-- groundhog_origin/src/syscall_injector.c: running a system call in the stopped tracee.
pub mod Calls
pub mod Clean
mod Tests
use faasafe.Prelude.{
  refl, zero, suc, [], ◌∷◌, none, some, inl, inr, true, false, arith, ◌≡◌, ℕ, List, Bool, Option,
  if◌then◌else◌, ◌+◌, ◌||◌, leb, ltb, not, ◌&&◌, ◌==◌, ◌^◌, ◌*◌, ◌-◌, ◌%◌,
}
use faasafe.Word.{u64_mod, of_int}
use faasafe.Outcome.{Outcome, returned, aborted, out_of_fuel, ◌>>=◌}

-- `struct user_regs_struct`: the registers that the injection sets, and the others as one number.
pub record Regs : Type 0 where
  pub rax : ℕ
  pub orig_rax : ℕ
  pub rdi : ℕ
  pub rsi : ℕ
  pub rdx : ℕ
  pub r10 : ℕ
  pub r8 : ℕ
  pub r9 : ℕ
  pub rip : ℕ
  pub others : ℕ

-- The calls of `ptrace` and `waitpid` on a tracee in the state `S`. A call that fails leaves the
-- state, and what it would have stored, as they were.
pub record Ptrace (S : Type 0) : Type 0 where
  pub get_regs : S → Option Regs
  pub set_regs : S → Regs → Option S
  pub peek_text : S → ℕ → Option ℕ
  pub poke_text : S → ℕ → ℕ → Option S
  pub single_step : S → Option S
  -- The state and the status, 0 if the call fails.
  pub wait : S → S × ℕ

-- The instruction `syscall`.
abbrev pub syscall_word : ℕ
syscall_word = 1295

-- `WIFEXITED(status) || WIFSIGNALED(status) || WIFCONTINUED(status)`, of a status that is not 0.
abbrev pub is_gone : ℕ → Bool
is_gone status = not (status == 0) && (not (status % 128 == 127) || status == 65535)

abbrev pub or_same : {S : Type 0} → Option S → S → S
or_same none s = s
or_same (some s') s = s'

-- The arguments of the system call `rax`.
unfoldable pub with_call : ℕ → ℕ → ℕ → ℕ → ℕ → ℕ → ℕ → Regs → Regs
with_call rax rdi rsi rdx r10 r8 r9 original = record original {
  rax = rax;
  orig_rax = rax;
  rdi = rdi;
  rsi = rsi;
  rdx = rdx;
  r10 = r10;
  r8 = r8;
  r9 = r9;
}

module _ {S : Type 0} (k : Ptrace S) where
  -- The loop that steps until the call has happened: the state and the registers that it leaves.
  -- `aborted` stands for killing the tracee and leaving the program.
  unfoldable pub step_loop : ℕ → ℕ → Regs → S → Outcome (S × Regs)
  step_loop zero rax syscall_regs s = out_of_fuel
  step_loop (suc fuel) rax syscall_regs s =
      let (s', status) = k.wait (or_same (k.single_step s) s) in
      let regs = or_same (k.get_regs s') syscall_regs in
      let again = step_loop fuel rax regs s' in
      if is_gone status then aborted else elim (k.get_regs s') [
        | none ↦ returned (s', syscall_regs)
        | some r ↦
            if ltb (u64_mod - 4096) r.rax
            then aborted
            else if r.rax == rax
            then again
            else returned (s', r)
      ]

  -- `do_clean_syscall`, with the number of steps that the loop is given and what the variable
  -- `original_regs` holds before it is set.
  unfoldable pub do_clean_syscall : ℕ → Regs → ℕ → ℕ → ℕ → ℕ → ℕ → ℕ → ℕ → S → Outcome (S × ℕ)
  do_clean_syscall fuel unset rax rdi rsi rdx r10 r8 r9 s =
      let original_regs = or_same (k.get_regs s) unset in
      let syscall_address = original_regs.rip in
      let syscall_regs = with_call rax rdi rsi rdx r10 r8 r9 original_regs in
      elim (k.peek_text s syscall_address) [
        | none ↦ aborted
        | some peekdata ↦
            let s1 = or_same (k.poke_text s syscall_address syscall_word) s in
            let s2 = or_same (k.set_regs s1 syscall_regs) s1 in
            (step_loop fuel rax syscall_regs s2 >>= λ t.
            let s3 = or_same (k.poke_text t.0 syscall_address peekdata) t.0 in
            returned (or_same (k.set_regs s3 original_regs) s3, t.1.rax))
      ]
