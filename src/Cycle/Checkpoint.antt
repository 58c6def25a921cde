-- ===== src/Cycle/Checkpoint.antt =====
-- `checkpoint`, from the running process to the running process.
use faasafe.Checkpoint.{all_clean}
use faasafe.Word.{add_int}
use faasafe.Prelude.{none, some, true, false, ◌≡◌, ℕ, List, ◌<◌, get_or}
use faasafe.Types.{Bytes, MemInfo}
use faasafe.Memory.{Delivers}
use faasafe.Pagemap.Table.{DeliversAll}
use faasafe.Parse.Entry.{Entry}
use faasafe.Threads.{Threads, is_negative}
use faasafe.Threads.Waits.{IsKernel, stopped, untraced}
use faasafe.Registers.Laws.{IsContexts}
use faasafe.Registers.RoundTrip.{Stands}
use faasafe.Cycle.{Host, Unset, Tracked, add_int, all_clean}
use faasafe.Cycle.Snapshot.{IsText, IsSnapshot, IsSaved}

-- A process whose maps and memory stay as they are while it is checkpointed: only its threads stop and
-- go, and what is stopped can be read.
pub record IsQuiet {S : Type 0} (h : Host S) (lss : List (List Entry)) (memory : Bytes)
    : Type 0 where
  pub kernel : IsKernel h.kernel
  pub contexts : IsContexts h.contexts
  pub delivers : Delivers h.mem_file
  pub held_is_stopped :
      (s : S) (tid : ℕ) → contexts.is_held s tid ≡ true → kernel.state_of s tid ≡ stopped
  pub stopped_is_held :
      (s : S) (tid : ℕ) → kernel.state_of s tid ≡ stopped → contexts.is_held s tid ≡ true
  pub same_context :
      (s : S) (tid : ℕ) → contexts.context (h.clear_refs s) tid ≡ contexts.context s tid
  pub same_held : (s : S) (tid : ℕ) → contexts.is_held (h.clear_refs s) tid ≡ contexts.is_held s tid
  pub text : (s : S) → IsText (h.maps_text s) lss
  pub delivers_all : (s : S) → DeliversAll (h.pagemap s)
  pub memory_is : (s : S) → h.memory s ≡ memory

-- The variables when the state is stored.
abbrev pub begun : Tracked → Threads → Tracked
begun t threads = record t {
  threads = threads;
  num_checkpoints = add_int t.num_checkpoints 1;
  p_checkpointed_state = none;
}

module _ {S : Type 0} (h : Host S) (u : Unset) (lss : List (List Entry)) (memory : Bytes)
    (quiet : IsQuiet h lss memory) where
  -- What `checkpoint` leaves: the snapshot, the registers of the threads when they were stopped,
  -- and the threads, which run free.
  pub record IsTaken (t t' : Tracked) (s' : S) : Type 0 where
    pub ps : MemInfo
    pub kept : t'.p_checkpointed_state ≡ some ps
    pub stop : S
    pub snapshot : IsSnapshot h u lss (h.pagemap (h.clear_refs stop)) memory ps
    pub stands :
        Stands h.contexts quiet.contexts u.saved 0 t'.threads.tid_count t'.threads t'.saved stop
    pub free :
        (i : ℕ)
        → i < t'.threads.tid_count
        → is_negative (get_or t'.threads.tids i 0) ≡ false
        → quiet.kernel.state_of s' (get_or t'.threads.tids i 0) ≡ untraced
    pub counted : t'.num_checkpoints ≡ 1

  abbrev IsSavedBy : Tracked → Tracked → S → S → Type 0
  IsSavedBy = IsSaved h u lss quiet.contexts quiet.same_context quiet.same_held
