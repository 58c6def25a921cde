-- ===== src/Inject/Calls.antt =====
-- groundhog_origin/src/syscall_injector.c: the wrappers of the single system calls, and the interface
-- that the restoration of the mappings uses.
use faasafe.Prelude.{ℕ, if◌then◌else◌, ◌+◌, ◌==◌, ◌/◌, ◌%◌, ◌^◌, ◌-◌}
use faasafe.Word.{of_int}
use faasafe.Outcome.{Outcome, returned, aborted, ◌>>=◌}
use faasafe.Inject.{Ptrace, Regs, do_clean_syscall}

-- `n | b`, for a single bit `b`.
abbrev pub or_bit : ℕ → ℕ → ℕ
or_bit n b = if n / b % 2 == 1 then n else n + b

-- What the restoration of the mappings asks of a tracee: the addresses and sizes, then the flags,
-- each as the wrapper takes it.
pub record Calls (S : Type 0) : Type 0 where
  pub brk : S → ℕ → Outcome S
  pub mprotect : S → ℕ → ℕ → ℕ → Outcome S
  pub mmap : S → ℕ → ℕ → ℕ → ℕ → ℕ → Outcome S
  pub munmap : S → ℕ → ℕ → Outcome S
  pub reset_rlimit_stack : S → S

module _ {S : Type 0} (k : Ptrace S) (fuel : ℕ) (unset : Regs) where
  -- The assertion that a call has returned `expected`.
  abbrev asserting : Outcome (S × ℕ) → ℕ → Outcome S
  asserting o expected = o >>= λ t. if t.1 == expected then returned t.0 else aborted

  unfoldable pub do_brk : S → ℕ → Outcome S
  do_brk s end_addr = asserting (do_clean_syscall k fuel unset 12 end_addr 0 0 0 0 0 s) end_addr

  unfoldable pub do_mprotect : S → ℕ → ℕ → ℕ → Outcome S
  do_mprotect s start_addr size prot_flags =
      asserting (do_clean_syscall k fuel unset 10 start_addr size (of_int prot_flags) 0 0 0 s) 0

  -- 32 is `MAP_ANONYMOUS`.
  unfoldable pub do_mmap : S → ℕ → ℕ → ℕ → ℕ → ℕ → Outcome S
  do_mmap s start_addr size prot_flags map_flags fd =
      let flags = if fd == 2 ^ 32 - 1 then or_bit map_flags 32 else map_flags in
      asserting
        (do_clean_syscall k fuel unset 9 start_addr size (of_int prot_flags) (of_int flags)
          (of_int fd) 0 s)
        start_addr

  unfoldable pub do_munmap : S → ℕ → ℕ → Outcome S
  do_munmap s start_addr size =
      asserting (do_clean_syscall k fuel unset 11 start_addr size 0 0 0 0 s) 0

  -- 4 is `MADV_DONTNEED`.
  unfoldable pub do_madvise_dontneed : S → ℕ → ℕ → Outcome S
  do_madvise_dontneed s start_addr size =
      asserting (do_clean_syscall k fuel unset 28 start_addr size 4 0 0 0 s) 0

  -- 1 is `MREMAP_MAYMOVE` and 2 `MREMAP_FIXED`.
  unfoldable pub do_mremap : S → ℕ → ℕ → ℕ → ℕ → ℕ → Outcome S
  do_mremap s old_start_addr old_size start_addr size map_flags =
      asserting
        (do_clean_syscall k fuel unset 25 old_start_addr old_size size
          (of_int (or_bit (or_bit map_flags 2) 1)) start_addr 0 s)
        start_addr

  unfoldable pub do_fork : S → Outcome (S × ℕ)
  do_fork s = do_clean_syscall k fuel unset 57 0 0 0 0 0 0 s

  -- The interface, filled by the injection. `prlimit` runs in this program; its effect on the
  -- tracee is the parameter.
  abbrev pub injected : (S → S) → Calls S
  injected reset = record {
    brk = do_brk;
    mprotect = do_mprotect;
    mmap = do_mmap;
    munmap = do_munmap;
    reset_rlimit_stack = reset;
  }
