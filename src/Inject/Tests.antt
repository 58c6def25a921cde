-- ===== src/Inject/Tests.antt =====
-- A `brk` injected into a tracee with one word of text.
use faasafe.Prelude.{refl, some, arith, ◌≡◌, ℕ, ◌+◌, ◌==◌, if◌then◌else◌}
use faasafe.Outcome.{returned}
use faasafe.Inject.{Ptrace, Regs, syscall_word, do_clean_syscall, with_call}
use faasafe.Inject.Clean.{IsTracee, Performs, do_clean_syscall-clean, prepared}

-- The registers, the word and the program break.
abbrev pub Machine : Type 0
Machine = Regs × ℕ × ℕ

-- A step on the instruction `syscall` sets the program break and returns it.
abbrev stepped : Machine → Machine
stepped (r, word, brk) =
    if word == syscall_word
    then (record r { rax = r.rdi; rip = r.rip + 2 }, word, r.rdi)
    else (record r { rip = r.rip + 1 }, word, brk)

-- The status 1407 is a stop by the signal SIGTRAP.
abbrev machine : Ptrace Machine
machine = record {
  get_regs = λ s. some s.0;
  set_regs = λ s r. some (r, s.1, s.2);
  peek_text = λ s a. some s.1;
  poke_text = λ s a v. some (s.0, v, s.2);
  single_step = λ s. some (stepped s);
  wait = λ s. (s, 1407);
}

machine-IsTracee : IsTracee machine
machine-IsTracee = record {
  regs_of = λ s. s.0;
  with_regs = λ s r. (r, s.1, s.2);
  word_at = λ s a. s.1;
  with_word = λ s a v. (s.0, v, s.2);
  get = λ s. refl;
  set = λ s r. refl;
  peek = λ s a. refl;
  poke = λ s a v. refl;
  regs_with = λ s r. refl;
  with_with = λ s r r'. refl;
  with_own = λ s. refl;
  word_twice = λ s a v v'. refl;
  word_own = λ s a. refl;
  word_regs = λ s a v r. refl;
}

abbrev regs : Regs
regs = record {
  rax = 1;
  orig_rax = 2;
  rdi = 3;
  rsi = 4;
  rdx = 5;
  r10 = 6;
  r8 = 7;
  r9 = 8;
  rip = 4096;
  others = 9;
}

brk-Performs :
    Performs machine machine-IsTracee 12 81920 0 0 0 0 0 (regs, 77, 8192) (regs, 77, 81920) 81920
unfolding machine-IsTracee with_call
brk-Performs = record {
  stepped = stepped (prepared machine machine-IsTracee 12 81920 0 0 0 0 0 (regs, 77, 8192));
  regs = record regs {
    rax = 81920;
    orig_rax = 12;
    rdi = 81920;
    rsi = 0;
    rdx = 0;
    r10 = 0;
    r8 = 0;
    r9 = 0;
    rip = 4098;
  };
  status = 1407;
  steps = refl;
  stops = refl;
  stopped = refl;
  returns = refl;
  same_regs = refl;
  same_word = refl;
}

do_clean_syscall-clean_example :
    do_clean_syscall machine 1 regs 12 81920 0 0 0 0 0 (regs, 77, 8192)
    ≡ returned ((regs, 77, 81920), 81920)
do_clean_syscall-clean_example =
    do_clean_syscall-clean machine machine-IsTracee 12 81920 0 0 0 0 0 (regs, 77, 8192)
      (regs, 77, 81920) 81920 brk-Performs (omega arith) (omega arith) 0 regs
