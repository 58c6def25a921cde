-- ===== src/Threads.antt =====
-- groundhog_origin/src/proc_control.c: stopping, continuing and detaching the threads of the tracee.
pub mod Text
pub mod Jobs
pub mod TidList
pub mod Tids
pub mod Detach
pub mod Attach
pub mod Seize
pub mod Stop
pub mod Waits
mod Tests
use faasafe.Prelude.{
  zero, suc, none, some, ℕ, Bool, Option, List, if◌then◌else◌, ◌+◌, ◌==◌, ◌^◌, ◌/◌, ◌%◌, leb, not,
  get_or, set, replicate, [], ◌∷◌, true, false, refl, inl, inr, arith, ◌≡◌, ◌≤◌, ◌<◌, ◌≢◌,
}
use faasafe.Outcome.{Outcome, returned, aborted, out_of_fuel, ◌>>=◌}
use faasafe.Inject.{or_same}
use faasafe.Threads.Text.{strtoul}
use faasafe.Word.{to_int}

-- The calls on the threads of a tracee in the state `S`. `wait4` gives its result, a `pid_t`, and
-- the status. `tasks` are the names in /proc/PID/task, or `none` if it cannot be opened.
pub record Kernel (S : Type 0) : Type 0 where
  pub tasks : S → ℕ → Option (List (List ℕ))
  pub seize : S → ℕ → Option S
  pub interrupt : S → ℕ → Option S
  pub wait4 : S → ℕ → S × ℕ × ℕ
  pub detach : S → ℕ → Option S
  pub cont : S → ℕ → Option S

-- `MAX_THREADS`
abbrev pub max_threads : ℕ
max_threads = 1024

-- The `pid_t` -1, and the test for a negative one.
abbrev pub no_thread : ℕ
no_thread = 4294967295

abbrev pub is_negative : ℕ → Bool
is_negative tid = leb (2 ^ 31) tid

-- `WIFSTOPPED(status)`
abbrev pub is_stopped : ℕ → Bool
is_stopped status = status % 256 == 127

-- `status >> 16 == PTRACE_EVENT_STOP`
abbrev pub is_event_stop : ℕ → Bool
is_event_stop status = status / 65536 == 128

-- The fields `tids` and `tid_count` of `trackedprocess_t`: an array of `MAX_THREADS` slots.
pub record Threads : Type 0 where
  pub tids : List ℕ
  pub tid_count : ℕ

-- No two of the slots from `i` to `i + n` hold the same thread.
abbrev pub Distinct : ℕ → ℕ → Threads → Type 0
Distinct i n t =
    (a b : ℕ)
    → i ≤ a
    → a < i + n
    → i ≤ b
    → b < i + n
    → a ≢ b
    → is_negative (get_or t.tids a 0) ≡ false
    → get_or t.tids a 0 ≢ get_or t.tids b 0

-- How `seize_process` ends: with -errno, with -EINVAL, or at its end, where it returns no value.
pub data SeizeEnd : Type 0 where
  no_directory too_many_threads seized : SeizeEnd

module _ {S : Type 0} (k : Kernel S) where
  -- The loop of `seize_process` over the names that are left; `nr_threads` have been stored.
  unfoldable pub seize_names : Bool → List (List ℕ) → ℕ → Threads → S → SeizeEnd × Threads × S
  seize_names do_seize [] nr_threads t s = (seized, record t { tid_count = nr_threads }, s)
  seize_names do_seize (name ∷ names) nr_threads t s = elim (strtoul name) [
    | none ↦ seize_names do_seize names nr_threads t s
    | some n ↦
        let tid = to_int n in
        let rest =
          seize_names do_seize names (nr_threads + 1)
            (record t { tids = set t.tids nr_threads tid })
            (if do_seize then or_same (k.seize s tid) s else s) in
        if leb max_threads nr_threads then (too_many_threads, t, s) else rest
  ]

  -- `seize_process`
  unfoldable pub seize_process : Bool → ℕ → Threads → S → SeizeEnd × Threads × S
  seize_process do_seize pid t s =
      let cleared = record t { tids = replicate max_threads 0 } in
      elim (k.tasks s pid) [
        | none ↦ (no_directory, cleared, s)
        | some names ↦ seize_names do_seize names 0 cleared s
      ]

  -- The loop around `wait4`: the status of a stop, or `none` if `wait4` fails.
  unfoldable pub wait_stop : ℕ → ℕ → S → Outcome (S × Option ℕ)
  wait_stop zero tid s = out_of_fuel
  wait_stop (suc fuel) tid s =
      let (s', r, status) = k.wait4 s tid in
      let again = wait_stop fuel tid s' in
      if not (r == tid)
      then returned (s', none)
      else if is_stopped status
      then returned (s', some status)
      else again

  -- What follows the wait: the thread in slot `i` is given up, or its stop is checked.
  unfoldable pub check_stop : ℕ → Threads → S × Option ℕ → Outcome (Threads × S)
  check_stop i t (s, none) = returned (record t { tids = set t.tids i no_thread }, s)
  check_stop i t (s, some status) = if is_event_stop status then returned (t, s) else aborted

  -- One round of the loop of `interrupt_process`.
  unfoldable pub interrupt_thread : ℕ → ℕ → Threads → S → Outcome (Threads × S)
  interrupt_thread fuel i t s =
      let tid = get_or t.tids i 0 in
      let waits = wait_stop fuel tid (or_same (k.interrupt s tid) s) >>= λ r. check_stop i t r in
      if is_negative tid then returned (t, s) else waits

  -- The loop: `n` rounds are left, the next one is on slot `i`.
  unfoldable pub interrupt_threads : ℕ → ℕ → ℕ → Threads → S → Outcome (Threads × S)
  interrupt_threads fuel zero i t s = returned (t, s)
  interrupt_threads fuel (suc n) i t s =
      interrupt_thread fuel i t s >>= λ r. interrupt_threads fuel n (i + 1) r.0 r.1

  -- `interrupt_process`
  unfoldable pub interrupt_process : ℕ → Threads → S → Outcome (Threads × S)
  interrupt_process fuel t s = interrupt_threads fuel t.tid_count 0 t s

  -- `ptrace_attach`; the result of `seize_process` is not looked at.
  unfoldable pub ptrace_attach : ℕ → ℕ → Threads → S → Outcome (Threads × S)
  ptrace_attach fuel pid t s = let r = seize_process true pid t s in interrupt_process fuel r.1 r.2

  -- One round of the loop of `detach_or_cont_process`, where `STRACE` is not set.
  unfoldable pub release_thread : Bool → ℕ → Threads → S → S
  release_thread do_detach i t s =
      let tid = get_or t.tids i 0 in
      if is_negative tid
      then s
      else if do_detach
      then or_same (k.detach s tid) s
      else or_same (k.cont s tid) s

  unfoldable pub release_threads : Bool → ℕ → ℕ → Threads → S → S
  release_threads do_detach zero i t s = s
  release_threads do_detach (suc n) i t s =
      release_threads do_detach n (i + 1) t (release_thread do_detach i t s)

  -- `detach_or_cont_process`
  unfoldable pub detach_or_cont_process : Bool → Threads → S → S
  detach_or_cont_process do_detach t s = release_threads do_detach t.tid_count 0 t s

  -- `ptrace_detach`
  unfoldable pub ptrace_detach : Threads → S → S
  ptrace_detach t s = detach_or_cont_process true t s
