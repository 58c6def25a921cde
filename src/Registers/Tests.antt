-- ===== src/Registers/Tests.antt =====
-- A tracee with the thread 7, whose context is the state.
use faasafe.Prelude.{
  refl, zero, suc, none, some, arith, ◌≡◌, ◌≢◌, ℕ, Bool, true, false, List, [], ◌∷◌, if◌then◌else◌,
  ◌==◌, ◌<◌, get_or, replicate, ==-refl, true≢false,
}
use faasafe.Outcome.{returned, aborted}
use faasafe.Inject.{Regs}
use faasafe.Threads.{Threads, Distinct, is_negative}
use faasafe.Registers.{Contexts, Saved, store_threads_registers, restore_threads_registers}
use faasafe.Registers.Laws.{Context, Put, IsContexts}
use faasafe.Registers.RoundTrip.{restore_threads_registers-store, Held}
use faasafe.Registers.Failure.{store_threads_registers-aborts}

abbrev World : Type 0
World = ℕ → Context

abbrev put : World → ℕ → Context → World
put s tid v u = if u == tid then v else s u

abbrev no_regs : Regs
no_regs = record {
  rax = 0;
  orig_rax = 0;
  rdi = 0;
  rsi = 0;
  rdx = 0;
  r10 = 0;
  r8 = 0;
  r9 = 0;
  rip = 4;
  others = 0;
}

abbrev world_0 : World
world_0 tid = record { xstate = tid; regs = no_regs; siginfo = 0; sigmask = 1 }

abbrev unset : Saved
unset = record { txsave = λ i. 0; tregs = no_regs; si = 0; tmask = 0 }

-- The first byte of the buffer holds the state.
abbrev contexts : Contexts World
contexts = record {
  get_fpregs = λ s tid b. some b;
  get_xstate = λ s tid b. some (λ i. (s tid).xstate);
  get_regs = λ s tid. some (s tid).regs;
  get_siginfo = λ s tid. some (s tid).siginfo;
  get_sigmask = λ s tid. some (s tid).sigmask;
  set_fpregs = λ s tid b. some (put s tid (record (s tid) { xstate = 0 }));
  set_xstate = λ s tid b. some (put s tid (record (s tid) { xstate = b 0 }));
  set_regs = λ s tid r. some (put s tid (record (s tid) { regs = r }));
  set_siginfo = λ s tid n. some (put s tid (record (s tid) { siginfo = n }));
  set_sigmask = λ s tid n. some (put s tid (record (s tid) { sigmask = n }));
}

abbrev context_in : World → ℕ → Context
context_in s tid = s tid

abbrev always_held : World → ℕ → Bool
always_held s tid = true

put-Put : (s : World) (tid : ℕ) (v : Context) → Put context_in always_held s (put s tid v) tid v
put-Put s tid v = record {
  here = rw (==-refl tid) refl;
  others = λ u ne. let h : (u == tid) ≡ false = ground (arith, ne) in rw h refl;
  held = λ u. refl;
}

contexts-IsContexts : IsContexts contexts
contexts-IsContexts = record {
  context = context_in;
  is_held = always_held;
  image = λ b. b 0;
  gets_fpregs = λ s tid b h. (b, refl);
  gets_xstate = λ s tid b h. (λ i. (s tid).xstate, refl, refl);
  gets_regs = λ s tid h. refl;
  gets_siginfo = λ s tid h. refl;
  gets_sigmask = λ s tid h. refl;
  sets_fpregs = λ s tid b h. (put s tid (record (s tid) { xstate = 0 }), 0, refl, put-Put s tid _);
  sets_xstate = λ s tid b h. (put s tid (record (s tid) { xstate = b 0 }), refl, put-Put s tid _);
  sets_regs = λ s tid r h. (put s tid (record (s tid) { regs = r }), refl, put-Put s tid _);
  sets_siginfo = λ s tid n h. (put s tid (record (s tid) { siginfo = n }), refl, put-Put s tid _);
  sets_sigmask = λ s tid n h. (put s tid (record (s tid) { sigmask = n }), refl, put-Put s tid _);
}

-- Thread 7, a slot that is given up, and thread 9.
abbrev threads : Threads
threads = record { tids = 7 ∷ 4294967295 ∷ 9 ∷ []; tid_count = 3 }

threads-Distinct : Distinct 0 3 threads
threads-Distinct zero zero la lta lb ltb ne live e = ne refl
threads-Distinct zero (suc zero) la lta lb ltb ne live e = absurd (omega (arith, e))
threads-Distinct zero (suc (suc zero)) la lta lb ltb ne live e = absurd (omega (arith, e))
threads-Distinct (suc zero) b la lta lb ltb ne live e = absurd (true≢false live)
threads-Distinct (suc (suc zero)) zero la lta lb ltb ne live e = absurd (omega (arith, e))
threads-Distinct (suc (suc zero)) (suc zero) la lta lb ltb ne live e = absurd (omega (arith, e))
threads-Distinct (suc (suc zero)) (suc (suc zero)) la lta lb ltb ne live e = ne refl
threads-Distinct (suc (suc (suc a))) b la lta lb ltb ne live e = absurd (omega arith)
threads-Distinct a (suc (suc (suc b))) la lta lb ltb ne live e = absurd (omega arith)

restore_threads_registers-store_example :
    (saved' : List Saved) × (s1 : World) × (store_threads_registers contexts unset threads
        (replicate 3 unset)
        world_0
      ≡ returned (saved', s1))
    × ((u : ℕ) → contexts-IsContexts.context s1 u ≡ contexts-IsContexts.context world_0 u)
    × ((s2 : World)
        → Held contexts contexts-IsContexts unset 0 3 threads s2
        → (s3 : World) × (restore_threads_registers contexts unset threads saved' s2 ≡ returned s3)
          × ((i : ℕ)
              → i < 3
              → is_negative (get_or threads.tids i 0) ≡ false
              → contexts-IsContexts.context s3 (get_or threads.tids i 0)
                ≡ contexts-IsContexts.context world_0 (get_or threads.tids i 0))
          × ((u : ℕ)
              → ((i : ℕ) → i < 3 → u ≢ get_or threads.tids i 0)
              → contexts-IsContexts.context s3 u ≡ contexts-IsContexts.context s2 u))
unfolding contexts-IsContexts
restore_threads_registers-store_example =
    restore_threads_registers-store contexts contexts-IsContexts unset threads (replicate 3 unset)
      world_0 (omega arith) threads-Distinct (λ a le lt live. refl)

-- Thread 9 runs.
abbrev failing : Contexts World
failing = record contexts { get_fpregs = λ s tid b. if tid == 9 then none else some b }

store_threads_registers-aborts_example :
    store_threads_registers failing unset threads (replicate 3 unset) world_0 ≡ aborted
store_threads_registers-aborts_example =
    store_threads_registers-aborts failing unset 2 threads (replicate 3 unset) world_0 (omega arith)
      refl (λ s b. refl)
