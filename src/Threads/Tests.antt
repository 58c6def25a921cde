-- ===== src/Threads/Tests.antt =====
-- Runs of the control of the threads: a process with the threads 7, which stops, and 8, which ends.
use faasafe.Threads.Detach.{ptrace_detach-attach}
use faasafe.Threads.Seize.{Listed, ids, seize_process-bounded}
use faasafe.Threads.Text.{strtoul, digits_to_end, scan_int}
use faasafe.Inject.{or_same}
use faasafe.Prelude.{
  refl, none, some, arith, ◌≡◌, ◌≢◌, ℕ, ◌+◌, true, false, inl, inr, [], ◌∷◌, List, ◌==◌,
  if◌then◌else◌, Option, Bool-cases, ==-refl, length, replicate, ◌<◌, ◌⊎◌, get_or, All, ◌++◌, ap,
}
use faasafe.Threads.Attach.{Ready, ptrace_attach-stops}
use faasafe.Threads.Stop.{Interrupted}
use faasafe.Threads.Tids.{Directory, TidsResult, found, no_list, get_tids, tids_loop, finish_tids}
use faasafe.Threads.TidList.{TidsEnd, valid_ids, get_tids-TidsEnd}
use faasafe.Threads.Jobs.{
  WaitResult, changed, interrupted, no_child, Jobs, continue_process, continue_process-last, Child,
  by_status, by_signal, by_stop,
}
use faasafe.Outcome.{returned}
use faasafe.Threads.{
  Kernel, Threads, ptrace_attach, ptrace_detach, or_same, strtoul, seize_process, no_directory,
  max_threads,
}
use faasafe.Threads.Waits.{
  TraceState, untraced, running, stopped, exited, Waited, IsKernel, ended, stops, failed, stopping,
}

abbrev World : Type 0
World = ℕ → TraceState

abbrev put : World → ℕ → TraceState → World
put s tid v u = if u == tid then v else s u

abbrev seized_world : TraceState → World → ℕ → Option World
seized_world untraced s tid = some (put s tid running)
seized_world running s tid = none
seized_world stopped s tid = none
seized_world stopping s tid = none
seized_world exited s tid = none

abbrev released_world : TraceState → World → ℕ → Option World
released_world stopped s tid = some (put s tid untraced)
released_world running s tid = none
released_world stopping s tid = none
released_world untraced s tid = none
released_world exited s tid = none

abbrev interrupted_world : TraceState → World → ℕ → Option World
interrupted_world running s tid = some (put s tid stopping)
interrupted_world stopping s tid = some s
interrupted_world stopped s tid = some s
interrupted_world untraced s tid = none
interrupted_world exited s tid = none

abbrev waited_world : TraceState → World → ℕ → World × ℕ × ℕ
waited_world stopping s tid =
    if tid == 8 then (put s tid exited, tid, 0) else (put s tid stopped, tid, 8390015)
waited_world running s tid = (s, tid + 1, 0)
waited_world untraced s tid = (s, tid + 1, 0)
waited_world stopped s tid = (s, tid + 1, 0)
waited_world exited s tid = (s, tid + 1, 0)

abbrev kernel : Kernel World
kernel = record {
  tasks = λ s pid. some ((b'.' ∷ []) ∷ (b'7' ∷ []) ∷ (b'8' ∷ []) ∷ []);
  seize = λ s tid. seized_world (s tid) s tid;
  interrupt = λ s tid. interrupted_world (s tid) s tid;
  wait4 = λ s tid. waited_world (s tid) s tid;
  detach = λ s tid. released_world (s tid) s tid;
  cont = λ s tid. none;
}

put_here : (s : World) (tid : ℕ) (v : TraceState) → put s tid v tid ≡ v
put_here s tid v = rw (==-refl tid) refl

put_other : (s : World) (tid u : ℕ) (v : TraceState) → u ≢ tid → put s tid v u ≡ s u
put_other s tid u v ne = let h : (u == tid) ≡ false = ground (arith, ne) in rw h refl

seize_world_other :
    (v : TraceState) (s : World) (tid u : ℕ) → u ≢ tid → or_same (seized_world v s tid) s u ≡ s u
seize_world_other untraced s tid u ne = put_other s tid u running ne
seize_world_other running s tid u ne = refl
seize_world_other stopped s tid u ne = refl
seize_world_other stopping s tid u ne = refl
seize_world_other exited s tid u ne = refl

release_world_other :
    (v : TraceState) (s : World) (tid u : ℕ) → u ≢ tid → or_same (released_world v s tid) s u ≡ s u
release_world_other stopped s tid u ne = put_other s tid u untraced ne
release_world_other running s tid u ne = refl
release_world_other stopping s tid u ne = refl
release_world_other untraced s tid u ne = refl
release_world_other exited s tid u ne = refl

interrupt_world_other :
    (v : TraceState) (s : World) (tid u : ℕ)
    → u ≢ tid
    → or_same (interrupted_world v s tid) s u ≡ s u
interrupt_world_other running s tid u ne = put_other s tid u stopping ne
interrupt_world_other stopping s tid u ne = refl
interrupt_world_other stopped s tid u ne = refl
interrupt_world_other untraced s tid u ne = refl
interrupt_world_other exited s tid u ne = refl

wait_world_other :
    (v : TraceState) (s : World) (tid u : ℕ) → u ≢ tid → (waited_world v s tid).0 u ≡ s u
wait_world_other stopping s tid u ne = elim (Bool-cases (tid == 8)) [
  | inl e ↦ rw e (put_other s tid u exited ne)
  | inr e ↦ rw e (put_other s tid u stopped ne)
]
wait_world_other running s tid u ne = refl
wait_world_other untraced s tid u ne = refl
wait_world_other stopped s tid u ne = refl
wait_world_other exited s tid u ne = refl

abbrev state_of : World → ℕ → TraceState
state_of s tid = s tid

wait_world :
    (v : TraceState) (s : World) (tid : ℕ)
    → s tid ≡ v
    → (v ≡ stopping) ⊎ (v ≡ exited)
    → Waited state_of s tid (waited_world v s tid)
wait_world stopping s tid e h = elim (Bool-cases (tid == 8)) [
  | inl e8 ↦ rw e8 (ended e refl (put_here s tid exited))
  | inr e8 ↦ rw e8 (stops e refl refl (put_here s tid stopped))
]
wait_world exited s tid e h = failed e (λ e'. absurd (omega (arith, e'))) e
wait_world running s tid e h = absurd (ground arith)
wait_world untraced s tid e h = absurd (ground arith)
wait_world stopped s tid e h = absurd (ground arith)

kernel-IsKernel : IsKernel kernel
kernel-IsKernel = record {
  state_of = state_of;
  seizes = λ s tid e. (put s tid running, rw e refl, put_here s tid running);
  seize_other = λ s tid u ne. seize_world_other (s tid) s tid u ne;
  interrupts = λ s tid e. inl (rw e (put_here s tid stopping));
  interrupt_other = λ s tid u ne. interrupt_world_other (s tid) s tid u ne;
  waits = λ s tid h. wait_world (s tid) s tid refl h;
  wait_other = λ s tid u ne. wait_world_other (s tid) s tid u ne;
  detaches = λ s tid e. (put s tid untraced, rw e refl, put_here s tid untraced);
  detach_other = λ s tid u ne. release_world_other (s tid) s tid u ne;
}

abbrev free_world : World
free_world tid = untraced

abbrev no_threads : Threads
no_threads = record { tids = replicate 1024 0; tid_count = 0 }

abbrev world_names : List (List ℕ)
world_names = (b'.' ∷ []) ∷ (b'7' ∷ []) ∷ (b'8' ∷ []) ∷ []

scans :
    (strtoul (b'7' ∷ []) ≡ some 7)
    × (strtoul (b'.' ∷ []) ≡ none)
    × (strtoul (b'0' ∷ b'x' ∷ b'1' ∷ b'f' ∷ []) ≡ some 31)
    × (strtoul (b'0' ∷ b'1' ∷ b'7' ∷ []) ≡ some 15)
    × (strtoul (b'-' ∷ b'1' ∷ []) ≡ some 18446744073709551615)
unfolding strtoul digits_to_end
scans = (refl, refl, refl, refl, refl)

listed : ids world_names ≡ 7 ∷ 8 ∷ []
unfolding strtoul digits_to_end
listed = refl

free_world-Ready : Ready kernel kernel-IsKernel 0 free_world (ids world_names)
unfolding kernel-IsKernel
free_world-Ready = rw listed (record {
  room = omega arith;
  different = ((λ e. absurd (omega (arith, e)), tt), (tt, tt));
  free = (refl, (refl, tt));
})

ptrace_attach-stops_example :
    (t' : Threads) × (s' : World) × (ptrace_attach kernel 2 5 no_threads free_world
      ≡ returned (t', s'))
    × (t'.tid_count ≡ length (ids world_names))
    × ((i : ℕ)
        → i < length (ids world_names)
        → Interrupted kernel kernel-IsKernel (get_or (ids world_names) i 0) (get_or t'.tids i 0) s')
    × ((u : ℕ)
        → All (λ y. u ≢ y) (ids world_names)
        → kernel-IsKernel.state_of s' u ≡ kernel-IsKernel.state_of free_world u)
ptrace_attach-stops_example =
    ptrace_attach-stops kernel kernel-IsKernel 0 5 no_threads free_world world_names refl
      free_world-Ready

ptrace_detach-attach_example :
    (t' : Threads) × (s' : World) × (ptrace_attach kernel 2 5 no_threads free_world
      ≡ returned (t', s'))
    × ((i : ℕ)
        → i < length (ids world_names)
        → (kernel-IsKernel.state_of (ptrace_detach kernel t' s') (get_or (ids world_names) i 0)
            ≡ untraced)
          ⊎ (kernel-IsKernel.state_of (ptrace_detach kernel t' s') (get_or (ids world_names) i 0)
              ≡ exited))
    × ((u : ℕ)
        → All (λ y. u ≢ y) (ids world_names)
        → kernel-IsKernel.state_of (ptrace_detach kernel t' s') u
          ≡ kernel-IsKernel.state_of free_world u)
ptrace_detach-attach_example =
    ptrace_detach-attach kernel kernel-IsKernel 0 5 no_threads free_world world_names refl
      free_world-Ready (rw listed (refl, (refl, tt)))

seize_process-bounded_example :
    ((names : List (List ℕ))
      → kernel.tasks free_world 5 ≡ some names
      → Listed
          (ids names)
          0
          no_threads
          (seize_process kernel true 5 no_threads free_world).0
          (seize_process kernel true 5 no_threads free_world).1)
    × (kernel.tasks free_world 5 ≡ none
        → seize_process kernel true 5 no_threads free_world
          ≡ (no_directory, record no_threads { tids = replicate max_threads 0 }, free_world))
seize_process-bounded_example = seize_process-bounded kernel true 5 no_threads free_world

abbrev world_dir : Directory
world_dir = record { names = world_names; read_errno = 0; closes = true }

get_tids-TidsEnd_example :
    TidsEnd
      (λ n. true)
      (valid_ids world_names)
      (get_tids (λ n. true) true 5 (some world_dir) (record { list = 0 ∷ []; size = 1 }))
get_tids-TidsEnd_example =
    get_tids-TidsEnd (λ n. true) (λ n. refl) world_dir refl refl 5
      (record { list = 0 ∷ []; size = 1 }) refl refl

-- The two ids fill no more than the 255 slots that the second one asks for.
abbrev tids_of : TidsResult → ℕ × ℕ
tids_of (found n l) = (n, l.size)
tids_of (no_list e l) = (0, l.size)

tids_found :
    tids_of (get_tids (λ n. true) true 5 (some world_dir) (record { list = 0 ∷ []; size = 1 }))
    ≡ (2, 255)
unfolding get_tids tids_loop scan_int finish_tids digits_to_end
tids_found = refl

-- The reports of a process to come, and the number of signals that it was sent.
abbrev Reports : Type 0
Reports = List WaitResult × ℕ

abbrev next_wait : List WaitResult → List WaitResult × WaitResult
next_wait [] = ([], no_child)
next_wait (r ∷ rest) = (rest, r)

abbrev jobs : Jobs Reports
jobs = record {
  kill_cont = λ s pid. some (s.0, s.1 + 1);
  waitpid = λ s pid. ((((next_wait s.0).0), s.1), (next_wait s.0).1);
}

abbrev jobs-Child : Child jobs 7
jobs-Child = record {
  reports = λ s. s.0;
  conts = λ s. s.1;
  kills = λ s some_left. ((s.0, s.1 + 1), refl, refl, refl);
  waits = λ s x rest e. (ap (λ l. (next_wait l).1) e, ap (λ l. (next_wait l).0) e, refl);
}

-- A signal interrupts the wait, the process stops, and then ends.
abbrev some_waits : List WaitResult
some_waits = interrupted ∷ changed 7 127 ∷ []

continue_process-last_example :
    (s' : Reports) × (continue_process jobs 3 7 (some_waits ++ changed 7 0 ∷ [], 0)
      ≡ returned (s', some 0))
    × (s'.0 ≡ [])
    × (s'.1 ≡ 2)
continue_process-last_example =
    continue_process-last jobs 7 jobs-Child (changed 7 0) [] (some 0) (by_status refl) some_waits 3
      (some_waits ++ changed 7 0 ∷ [], 0) refl (by_signal, (by_stop refl, tt)) (omega arith)
