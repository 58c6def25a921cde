-- ===== src/Inject/Clean.antt =====
-- An injected system call leaves no trace of the injection.
use faasafe.Prelude.{refl, suc, some, false, arith, ◌≡◌, ℕ, ◌≤◌, ◌-◌, ltb, ◌==◌, ◌∙◌, ap, sym}
use faasafe.Word.{u64_mod}
use faasafe.Outcome.{returned}
use faasafe.Inject.{
  Ptrace, Regs, syscall_word, is_gone, with_call, step_loop, do_clean_syscall, or_same,
}

-- The documented `ptrace` on a stopped tracee: its registers and the words of its text can be read
-- and written, independently of each other.
pub record IsTracee {S : Type 0} (k : Ptrace S) : Type 0 where
  pub regs_of : S → Regs
  pub with_regs : S → Regs → S
  pub word_at : S → ℕ → ℕ
  pub with_word : S → ℕ → ℕ → S
  pub get : (s : S) → k.get_regs s ≡ some (regs_of s)
  pub set : (s : S) (r : Regs) → k.set_regs s r ≡ some (with_regs s r)
  pub peek : (s : S) (a : ℕ) → k.peek_text s a ≡ some (word_at s a)
  pub poke : (s : S) (a v : ℕ) → k.poke_text s a v ≡ some (with_word s a v)
  pub regs_with : (s : S) (r : Regs) → regs_of (with_regs s r) ≡ r
  pub with_with : (s : S) (r r' : Regs) → with_regs (with_regs s r) r' ≡ with_regs s r'
  pub with_own : (s : S) → with_regs s (regs_of s) ≡ s
  pub word_twice : (s : S) (a v v' : ℕ) → with_word (with_word s a v) a v' ≡ with_word s a v'
  pub word_own : (s : S) (a : ℕ) → with_word s a (word_at s a) ≡ s
  pub word_regs :
      (s : S) (a v : ℕ) (r : Regs) → with_word (with_regs s r) a v ≡ with_regs (with_word s a v) r

module _ {S : Type 0} (k : Ptrace S) (t : IsTracee k) (rax rdi rsi rdx r10 r8 r9 : ℕ) (s : S) where
  -- The tracee with the call in its registers, and the instruction at its instruction pointer.
  abbrev pub prepared : S
  prepared =
      t.with_regs (t.with_word s (t.regs_of s).rip syscall_word)
        (with_call rax rdi rsi rdx r10 r8 r9 (t.regs_of s))

  -- In the state `s`, a single step performs the call: apart from the registers it does to the
  -- tracee what `after` says, and it stops with `ret` in `rax`. The call changes neither the
  -- registers that the tracee had nor the word at its instruction pointer.
  pub record Performs (after : S) (ret : ℕ) : Type 0 where
    pub stepped : S
    pub regs : Regs
    pub status : ℕ
    pub steps : k.single_step prepared ≡ some stepped
    pub stops :
        k.wait stepped
        ≡ (t.with_regs (t.with_word after (t.regs_of s).rip syscall_word) regs, status)
    pub stopped : is_gone status ≡ false
    pub returns : regs.rax ≡ ret
    pub same_regs : t.regs_of after ≡ t.regs_of s
    pub same_word : t.word_at after (t.regs_of s).rip ≡ t.word_at s (t.regs_of s).rip

  module _ (after : S) (ret : ℕ) (p : Performs after ret) (ok : ret ≤ u64_mod - 4096)
      (new : ¬ (ret ≡ rax)) where
    abbrev done : S
    done = t.with_regs (t.with_word after (t.regs_of s).rip syscall_word) p.regs

    step_loop-done :
        (fuel : ℕ) (r : Regs) → step_loop k (suc fuel) rax r prepared ≡ returned (done, p.regs)
    unfolding step_loop
    step_loop-done fuel r =
        let waits : k.wait (or_same (k.single_step prepared) prepared) ≡ (done, p.status) =
          rw p.steps p.stops in
        let small : ltb (u64_mod - 4096) p.regs.rax ≡ false = ground (arith, p.returns) in
        let fresh : (p.regs.rax == rax) ≡ false = ground (arith, p.returns) in
        rw (p.steps, p.stops, p.stopped, t.get, t.regs_with, small, fresh)
          (ap (λ (x : S × ℕ). returned (x.0, p.regs)) waits)

    -- Putting back the word and the registers undoes the preparation.
    cleaned :
        t.with_regs
          (t.with_word done (t.regs_of s).rip (t.word_at s (t.regs_of s).rip))
          (t.regs_of s)
        ≡ after
    cleaned =
        let a = (t.regs_of s).rip in
        let w = t.word_at s a in
        ap (λ x. t.with_regs x (t.regs_of s))
          (t.word_regs (t.with_word after a syscall_word) a w p.regs)
        ∙ t.with_with (t.with_word (t.with_word after a syscall_word) a w) p.regs (t.regs_of s)
        ∙ ap (λ x. t.with_regs x (t.regs_of s))
            (t.word_twice after a syscall_word w
              ∙ ap (t.with_word after a) (sym p.same_word)
              ∙ t.word_own after a)
        ∙ ap (t.with_regs after) (sym p.same_regs)
        ∙ t.with_own after

    -- On a traced process, if a step performs the system call with a result that is no error and
    -- not the number of the call itself, then `do_clean_syscall` returns that result, and the
    -- tracee is as the call leaves it: its registers and its text are as they were before.
    pub do_clean_syscall-clean :
        (fuel : ℕ) (unset : Regs)
        → do_clean_syscall k (suc fuel) unset rax rdi rsi rdx r10 r8 r9 s ≡ returned (after, ret)
    unfolding do_clean_syscall
    do_clean_syscall-clean fuel unset =
        rw
          (
            do_clean_syscall,
            t.get s,
            t.peek s (t.regs_of s).rip,
            t.get s,
            t.poke,
            t.set,
            step_loop-done fuel,
            t.poke,
            t.set,
            cleaned,
            p.returns,
          )
          refl
