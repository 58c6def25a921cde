-- ===== src/Cycle.antt =====
-- groundhog_origin/src/proc_cr.c: `checkpoint`, `restore` and `diff`, put together from their parts.
pub mod Snapshot
pub mod Picked
pub mod Written
pub mod Undo
pub mod Restored
pub mod Reread
mod Tests
mod RestoredTests
pub mod Checkpoint
use faasafe.Prelude.{
  refl, zero, suc, none, some, ℕ, Bool, true, false, Option, List, if◌then◌else◌, ◌+◌, ◌==◌, get_or,
  [], ◌∷◌, inl, inr, arith, ◌≡◌,
}
use faasafe.Types.{Map, MemInfo, MemDiff, Bytes}
use faasafe.Word.{add_int}
use faasafe.Outcome.{Outcome, returned, aborted, out_of_fuel, ◌>>=◌}
use faasafe.Maps.{init_process_mem_info}
use faasafe.Memory.{MemFile}
use faasafe.Pagemap.{PagemapFile}
use faasafe.Parse.ReadMaps.{read_maps}
use faasafe.Diff.{Ending, finished, exited, diff_process_states}
use faasafe.Diff
use faasafe.Checkpoint.{capture_pages, store_memory, clear_soft_dirty_bits, all_clean}
use faasafe.Inject.Calls.{Calls}
use faasafe.Mappings.{restore_mappings}
use faasafe.Restore.{restore_soft_dirty_memory}
use faasafe.Threads.{
  Kernel, Threads, seize_process, interrupt_process, ptrace_attach, ptrace_detach,
}
use faasafe.Registers.{Contexts, Saved, store_threads_registers, restore_threads_registers}

-- What the tracee in the state `S` shows of itself: the files /proc/PID/maps, as the texts of the
-- reads of it, /proc/PID/pagemap and /proc/PID/mem, the writing of /proc/PID/clear_refs, the limit of its
-- stack, the calls of `ptrace`, and the injected system calls.
pub record Host (S : Type 0) : Type 0 where
  pub kernel : Kernel S
  pub contexts : Contexts S
  pub calls : Calls S
  pub madvise : Bytes → ℕ → ℕ → Outcome Bytes
  pub maps_text : S → List (List ℕ)
  pub pagemap : S → PagemapFile
  pub mem_file : MemFile
  pub memory : S → Bytes
  pub with_memory : S → Bytes → S
  pub clear_refs : S → S
  pub stack_limit : S → ℕ × ℕ
  -- The state that was dumped to a file by an earlier run.
  pub dumped : S → MemInfo

-- What is not set before it is read: the buffer of `read_maps`, a slot beyond the saved ones, and the
-- elements before the arrays, for the heap and the stack of both states.
pub record Unset : Type 0 where
  pub buffer : Bytes
  pub saved : Saved
  pub heap : Map
  pub heap' : Map
  pub stack : Map
  pub stack' : Map

-- The fields of `trackedprocess_t` that the functions use, and the global `num_checkpoints`.
pub record Tracked : Type 0 where
  pub pid : ℕ
  pub threads : Threads
  pub saved : List Saved
  pub rlim : ℕ × ℕ
  pub p_checkpointed_state : Option MemInfo
  pub p_curr_state : Option MemInfo
  pub num_checkpoints : ℕ

-- The difference of two states, or the way in which the comparison ends the program.
abbrev pub ending_of : Option Ending → Outcome MemDiff
ending_of none = aborted
ending_of (some (finished d)) = returned d
ending_of (some exited) = aborted
ending_of (some Diff.out_of_fuel) = out_of_fuel

-- `assert(p_curr_state->pid == initial_state->pid)` and likewise.
abbrev pub asserting : {A : Type 0} → Bool → A → Outcome A
asserting b a = if b then returned a else aborted

-- The assertions of `checkpoint` on the checkpointed state.
unfoldable pub check_clean : Option MemInfo → Outcome MemInfo
check_clean none = aborted
check_clean (some ps) = all_clean ps ps.maps_count 0

module _ {S : Type 0} (h : Host S) (u : Unset) where
  -- `capture_process_state`
  unfoldable pub capture_process_state : ℕ → Bool → S → Outcome MemInfo
  capture_process_state pid with_pages s =
      let (ps, npages) = read_maps u.buffer (h.maps_text s) (init_process_mem_info pid) in
      if with_pages then capture_pages (h.pagemap s) npages ps else returned ps

  -- `checkpoint_process_sd`; `store_memory` ends with the second clearing of the dirty bits in the state.
  unfoldable pub checkpoint_process_sd : Tracked → S → Outcome (Tracked × S)
  checkpoint_process_sd t s =
      let s1 = h.clear_refs s in
      capture_process_state t.pid true s1 >>= λ ps.
      store_memory h.mem_file (h.memory s1) ps >>= λ stored.
      store_threads_registers h.contexts u.saved t.threads t.saved (h.clear_refs s1) >>= λ r.
      returned
        (record t { p_checkpointed_state = some stored; rlim = h.stack_limit s1; saved = r.0 }, r.1)

  -- `checkpoint`; its first call seizes the threads.
  unfoldable pub checkpoint : ℕ → Tracked → S → Outcome (Tracked × S)
  checkpoint fuel t s =
      let first = seize_process h.kernel true t.pid t.threads s in
      let (threads, s1) = if t.num_checkpoints == 0 then (first.1, first.2) else (t.threads, s) in
      interrupt_process h.kernel fuel threads s1 >>= λ r.
      checkpoint_process_sd
        (record t {
          threads = r.0;
          num_checkpoints = add_int t.num_checkpoints 1;
          p_checkpointed_state = none;
        })
        r.1
      >>= λ c. check_clean c.0.p_checkpointed_state >>= λ ps.
          returned (c.0, ptrace_detach h.kernel c.0.threads c.1)

  -- `restore_process_sd`, from the checkpointed state `initial_state`. The counting of the dirty
  -- pages, `aggregate_dirty_stats`, only reports.
  unfoldable pub restore_process_sd : MemInfo → Tracked → S → Outcome (Tracked × S)
  restore_process_sd initial_state t s = capture_process_state t.pid false s >>= λ curr_state.
      ending_of (diff_process_states initial_state curr_state) >>= λ p_diff.
      asserting (initial_state.pid == curr_state.pid) p_diff >>= λ p_diff.
      restore_mappings h.calls u.heap u.heap' u.stack u.stack' initial_state curr_state p_diff s
      >>= λ s1. capture_process_state t.pid true s1 >>= λ curr_state'.
          ending_of (diff_process_states initial_state curr_state') >>= λ p_diff'.
          restore_soft_dirty_memory h.mem_file h.madvise p_diff' initial_state curr_state'
            (h.memory s1)
          >>= λ r.
              restore_threads_registers h.contexts u.saved t.threads t.saved
                (h.clear_refs (h.with_memory s1 r.0))
              >>= λ s2. returned (
                record t {
                  p_checkpointed_state = some (clear_soft_dirty_bits initial_state);
                  p_curr_state = some curr_state';
                },
                s2,
              )

  -- The checkpointed state, which is read from a file where none is kept.
  abbrev pub checkpointed : Tracked → S → MemInfo
  checkpointed t s = elim t.p_checkpointed_state [ none ↦ h.dumped s | some ps ↦ ps ]

  -- `restore`
  unfoldable pub restore : ℕ → Tracked → S → Outcome (Tracked × S)
  restore fuel t s =
      let initial_state = checkpointed t s in
      ptrace_attach h.kernel fuel t.pid t.threads s >>= λ r.
      restore_process_sd initial_state
        (record t { threads = r.0; p_checkpointed_state = some initial_state }) r.1
      >>= λ c. returned (c.0, ptrace_detach h.kernel c.0.threads c.1)

  -- `diff`, with the difference that it prints.
  unfoldable pub diff : ℕ → Tracked → S → Outcome (MemDiff × Tracked × S)
  diff fuel t s = ptrace_attach h.kernel fuel t.pid t.threads s >>= λ r.
      let initial_state = checkpointed t r.1 in
      capture_process_state t.pid false r.1 >>= λ curr_state.
      ending_of (diff_process_states initial_state curr_state) >>= λ p_diff. returned (
        p_diff,
        record t {
          threads = r.0;
          p_checkpointed_state = some initial_state;
          p_curr_state = some curr_state;
        },
        ptrace_detach h.kernel r.0 r.1,
      )
