-- ===== src/Cycle/Tests.antt =====
-- A checkpoint of a process with one thread and one map of two pages, one of them resident.
use faasafe.Prelude.{
  refl, none, some, true, false, arith, ◌≡◌, ◌≢◌, ℕ, [], ◌∷◌, Option, ◌+◌, ◌^◌, ◌==◌, if◌then◌else◌,
  replicate, ==-refl, Bool, ap, true≢false, ℕ_discrete, ◌⊎◌, sym, inl,
}
use faasafe.Types.{zero_map}
use faasafe.Outcome.{returned}
use faasafe.Maps.{init_process_mem_info}
use faasafe.Inject.{Regs, or_same}
use faasafe.Inject.Calls.{Calls}
use faasafe.Threads.{Kernel}
use faasafe.Threads.Waits.{
  TraceState, untraced, running, stopped, exited, Waited, failed, stops, IsKernel, stopping,
}
use faasafe.Registers.{Contexts, Saved}
use faasafe.Registers.Laws.{Context, Put, IsContexts}
use faasafe.Parse.Sample.{chunk, entry, chunk-IsWhole, entry-IsFresh}
use faasafe.Cycle.{Host, Unset, Tracked}
use faasafe.Cycle.Checkpoint.{IsQuiet}

-- The state of each thread, and its context.
abbrev World : Type 0
World = ℕ → TraceState × Context

abbrev put : World → ℕ → TraceState × Context → World
put s tid v u = if u == tid then v else s u

put_here : (s : World) (tid : ℕ) (v : TraceState × Context) → put s tid v tid ≡ v
put_here s tid v = rw (==-refl tid) refl

put_other : (s : World) (tid u : ℕ) (v : TraceState × Context) → u ≢ tid → put s tid v u ≡ s u
put_other s tid u v ne = let h : (u == tid) ≡ false = ground (arith, ne) in rw h refl

abbrev seized_world : TraceState → World → ℕ → Option World
seized_world untraced s tid = some (put s tid (running, (s tid).1))
seized_world _ s tid = none

abbrev released_world : TraceState → World → ℕ → Option World
released_world stopped s tid = some (put s tid (untraced, (s tid).1))
released_world _ s tid = none

abbrev interrupted_world : TraceState → World → ℕ → Option World
interrupted_world running s tid = some (put s tid (stopping, (s tid).1))
interrupted_world untraced s tid = none
interrupted_world exited s tid = none
interrupted_world _ s tid = some s

abbrev waited_world : TraceState → World → ℕ → World × ℕ × ℕ
waited_world stopping s tid = (put s tid (stopped, (s tid).1), tid, 8390015)
waited_world _ s tid = (s, tid + 1, 0)

abbrev kernel : Kernel World
kernel = record {
  tasks = λ s pid. some ((b'.' ∷ []) ∷ (b'7' ∷ []) ∷ []);
  seize = λ s tid. seized_world (s tid).0 s tid;
  interrupt = λ s tid. interrupted_world (s tid).0 s tid;
  wait4 = λ s tid. waited_world (s tid).0 s tid;
  detach = λ s tid. released_world (s tid).0 s tid;
  cont = λ s tid. none;
}

abbrev state_of : World → ℕ → TraceState
state_of s tid = (s tid).0

seize_other :
    (v : TraceState) (s : World) (tid u : ℕ)
    → u ≢ tid
    → state_of (or_same (seized_world v s tid) s) u ≡ state_of s u
seize_other untraced s tid u ne = ap (λ (x : TraceState × Context). x.0) (put_other s tid u _ ne)
seize_other running s tid u ne = refl
seize_other stopped s tid u ne = refl
seize_other stopping s tid u ne = refl
seize_other exited s tid u ne = refl

release_other :
    (v : TraceState) (s : World) (tid u : ℕ)
    → u ≢ tid
    → state_of (or_same (released_world v s tid) s) u ≡ state_of s u
release_other stopped s tid u ne = ap (λ (x : TraceState × Context). x.0) (put_other s tid u _ ne)
release_other running s tid u ne = refl
release_other stopping s tid u ne = refl
release_other untraced s tid u ne = refl
release_other exited s tid u ne = refl

interrupt_other :
    (v : TraceState) (s : World) (tid u : ℕ)
    → u ≢ tid
    → state_of (or_same (interrupted_world v s tid) s) u ≡ state_of s u
interrupt_other running s tid u ne = ap (λ (x : TraceState × Context). x.0) (put_other s tid u _ ne)
interrupt_other stopping s tid u ne = refl
interrupt_other stopped s tid u ne = refl
interrupt_other untraced s tid u ne = refl
interrupt_other exited s tid u ne = refl

wait_other :
    (v : TraceState) (s : World) (tid u : ℕ)
    → u ≢ tid
    → state_of (waited_world v s tid).0 u ≡ state_of s u
wait_other stopping s tid u ne = ap (λ (x : TraceState × Context). x.0) (put_other s tid u _ ne)
wait_other running s tid u ne = refl
wait_other untraced s tid u ne = refl
wait_other stopped s tid u ne = refl
wait_other exited s tid u ne = refl

wait_world :
    (v : TraceState) (s : World) (tid : ℕ)
    → state_of s tid ≡ v
    → (v ≡ stopping) ⊎ (v ≡ exited)
    → Waited state_of s tid (waited_world v s tid)
wait_world stopping s tid e h =
    stops e refl refl (ap (λ (x : TraceState × Context). x.0) (put_here s tid _))
wait_world exited s tid e h = failed e (λ e'. absurd (omega (arith, e'))) e
wait_world running s tid e h = absurd (ground arith)
wait_world untraced s tid e h = absurd (ground arith)
wait_world stopped s tid e h = absurd (ground arith)

abbrev state_put :
    (s : World) (tid : ℕ) (v : TraceState × Context) → state_of (put s tid v) tid ≡ v.0
state_put s tid v = ap (λ (x : TraceState × Context). x.0) (put_here s tid v)

abbrev kernel_laws : IsKernel kernel
kernel_laws = record {
  state_of = state_of;
  seizes = λ s tid e. (put s tid (running, (s tid).1), rw e refl, state_put s tid _);
  seize_other = λ s tid u ne. seize_other (s tid).0 s tid u ne;
  interrupts = λ s tid e. inl (rw e (state_put s tid _));
  interrupt_other = λ s tid u ne. interrupt_other (s tid).0 s tid u ne;
  waits = λ s tid h. wait_world (s tid).0 s tid refl h;
  wait_other = λ s tid u ne. wait_other (s tid).0 s tid u ne;
  detaches = λ s tid e. (put s tid (untraced, (s tid).1), rw e refl, state_put s tid _);
  detach_other = λ s tid u ne. release_other (s tid).0 s tid u ne;
}

abbrev is_stop : TraceState → Bool
is_stop stopped = true
is_stop _ = false

abbrev with_context : World → ℕ → Context → World
with_context s tid c = put s tid ((s tid).0, c)

abbrev contexts : Contexts World
contexts = record {
  get_fpregs = λ s tid b. some b;
  get_xstate = λ s tid b. some (λ i. (s tid).1.xstate);
  get_regs = λ s tid. some (s tid).1.regs;
  get_siginfo = λ s tid. some (s tid).1.siginfo;
  get_sigmask = λ s tid. some (s tid).1.sigmask;
  set_fpregs = λ s tid b. some (with_context s tid (record (s tid).1 { xstate = 0 }));
  set_xstate = λ s tid b. some (with_context s tid (record (s tid).1 { xstate = b 0 }));
  set_regs = λ s tid r. some (with_context s tid (record (s tid).1 { regs = r }));
  set_siginfo = λ s tid n. some (with_context s tid (record (s tid).1 { siginfo = n }));
  set_sigmask = λ s tid n. some (with_context s tid (record (s tid).1 { sigmask = n }));
}

abbrev context_in : World → ℕ → Context
context_in s tid = (s tid).1

abbrev is_held : World → ℕ → Bool
is_held s tid = is_stop (s tid).0

put_state : (s : World) (tid u : ℕ) (c : Context) → is_held (with_context s tid c) u ≡ is_held s u
put_state s tid u c = elim (ℕ_discrete u tid) [
  | yes e ↦ rw (e, put_here s tid ((s tid).0, c)) refl
  | no ne ↦ rw (put_other s tid u ((s tid).0, c) ne) refl
]

with_context-Put :
    (s : World) (tid : ℕ) (c : Context) → Put context_in is_held s (with_context s tid c) tid c
with_context-Put s tid c = record {
  here = ap (λ (x : TraceState × Context). x.1) (put_here s tid _);
  others = λ u ne. ap (λ (x : TraceState × Context). x.1) (put_other s tid u _ ne);
  held = λ u. put_state s tid u c;
}

abbrev context_laws : IsContexts contexts
context_laws = record {
  context = context_in;
  is_held = is_held;
  image = λ b. b 0;
  gets_fpregs = λ s tid b h. (b, refl);
  gets_xstate = λ s tid b h. (λ i. (s tid).1.xstate, refl, refl);
  gets_regs = λ s tid h. refl;
  gets_siginfo = λ s tid h. refl;
  gets_sigmask = λ s tid h. refl;
  sets_fpregs = λ s tid b h.
      (with_context s tid (record (s tid).1 { xstate = 0 }), 0, refl, with_context-Put s tid _);
  sets_xstate = λ s tid b h.
      (with_context s tid (record (s tid).1 { xstate = b 0 }), refl, with_context-Put s tid _);
  sets_regs = λ s tid r h.
      (with_context s tid (record (s tid).1 { regs = r }), refl, with_context-Put s tid _);
  sets_siginfo = λ s tid n h.
      (with_context s tid (record (s tid).1 { siginfo = n }), refl, with_context-Put s tid _);
  sets_sigmask = λ s tid n h.
      (with_context s tid (record (s tid).1 { sigmask = n }), refl, with_context-Put s tid _);
}

abbrev calls : Calls World
calls = record {
  brk = λ s a. returned s;
  mprotect = λ s a n p. returned s;
  mmap = λ s a n p f d. returned s;
  munmap = λ s a n. returned s;
  reset_rlimit_stack = λ s. s;
}

abbrev host : Host World
host = record {
  kernel = kernel;
  contexts = contexts;
  calls = calls;
  madvise = λ m a n. returned m;
  maps_text = λ s. chunk ∷ [];
  pagemap = λ s. record {
    pread_count = λ off n. some n;
    entry = λ i. if i == 2 then 0 else 2 ^ 63 + 2 ^ 55 + 9;
    unread = λ i. 0;
  };
  mem_file = record { pread_count = λ m a n. some n; pwrite_count = λ m a n. some n };
  memory = λ s q. q;
  with_memory = λ s m. s;
  clear_refs = λ s. s;
  stack_limit = λ s. (8388608, 8388608);
  dumped = λ s. init_process_mem_info 5;
}

stop_is : (v : TraceState) → is_stop v ≡ true → v ≡ stopped
stop_is stopped e = refl
stop_is untraced e = absurd (true≢false (sym e))
stop_is stopping e = absurd (true≢false (sym e))
stop_is running e = absurd (true≢false (sym e))
stop_is exited e = absurd (true≢false (sym e))

host-IsQuiet : IsQuiet host ((entry ∷ []) ∷ []) (λ q. q)
host-IsQuiet = record {
  kernel = kernel_laws;
  contexts = context_laws;
  delivers = record {
    pread_some = λ m a n h. (n, refl, h, omega arith);
    pwrite_some = λ m a n h. (n, refl, h, omega arith);
    pread_page = λ m a. refl;
    pwrite_page = λ m a. refl;
  };
  held_is_stopped = λ s tid e. stop_is (s tid).0 e;
  stopped_is_held = λ s tid e. rw e refl;
  same_context = λ s tid. refl;
  same_held = λ s tid. refl;
  text = λ s. record {
    whole = (chunk-IsWhole, tt);
    fresh = (entry-IsFresh, tt);
    room = omega arith;
    small = omega arith;
  };
  delivers_all = λ s. record { all = λ off n. refl };
  memory_is = λ s. refl;
}

abbrev no_regs : Regs
no_regs = record {
  rax = 0;
  orig_rax = 0;
  rdi = 0;
  rsi = 0;
  rdx = 0;
  r10 = 0;
  r8 = 0;
  r9 = 0;
  rip = 4;
  others = 0;
}

abbrev no_saved : Saved
no_saved = record { txsave = λ i. 0; tregs = no_regs; si = 0; tmask = 0 }

abbrev unset : Unset
unset = record {
  buffer = λ i. 7;
  saved = no_saved;
  heap = zero_map;
  heap' = zero_map;
  stack = zero_map;
  stack' = zero_map;
}

abbrev tracked : Tracked
tracked = record {
  pid = 5;
  threads = record { tids = replicate 1024 0; tid_count = 0 };
  saved = no_saved ∷ [];
  rlim = (0, 0);
  p_checkpointed_state = none;
  p_curr_state = none;
  num_checkpoints = 0;
}

abbrev world_0 : World
world_0 tid = (untraced, record { xstate = tid; regs = no_regs; siginfo = 0; sigmask = 1 })
