-- ===== src/Cycle/Restored.antt =====
-- `restore_process_sd` on a tracee that has only written to its memory and registers.
use faasafe.Pagemap.Table.{DeliversAll}
use faasafe.Parse.Result.{read_maps-IsReadMaps, pid-read_maps}
use faasafe.Cycle.Snapshot.{IsText}
use faasafe.Checkpoint.Clean.{AllClean, AllClean-clear_soft_dirty_bits, capture_pages-IsRead}
use faasafe.Parse.ReadMaps.{read_maps}
use faasafe.Cycle.Reread.{
  IsCheckpointOf, IsTracked, cur-SameOutlines, fin-IsTable, reread-IsWritten,
}
use faasafe.Maps.{init_process_mem_info}
use faasafe.Parse.Entry.{Entry}
use mathlib.Core.Path.{subst}
use faasafe.Cycle.Undo.{restore_soft_dirty_memory-diff_process_states}
use faasafe.Threads.{Distinct}
use faasafe.Cycle.Written.{IsWritten}
use faasafe.Checkpoint.{clear_soft_dirty_bits, capture_pages}
use faasafe.Registers.RoundTrip.{Stands, Held, restore_slots-RestoredSlots}
use faasafe.Mappings.{heap_name, stack_name}
use faasafe.Restore.Table.{on_map}
use faasafe.Maps.Names.{get_map_index_by_name}
use faasafe.Restore.Whole.{Agrees}
use faasafe.Mappings.Kept.{SameOutlines, restore_mappings-kept}
use faasafe.Maps.Table.{IsTable, map_at, max_maps}
use faasafe.Outcome.{returned}
use faasafe.Registers.{restore_threads_registers}
use faasafe.Registers.KeptMemory.{KeepsMemory, restore_slots-memory}
use faasafe.Restore.Discard.{Discards}
use faasafe.Memory.{Delivers}
use faasafe.Registers.Laws.{IsContexts}
use faasafe.Cycle.{
  Host, Unset, Bytes, restore_process_sd, Tracked, restore_threads_registers, capture_process_state,
  returned, clear_soft_dirty_bits, get_or, init_process_mem_info, read_maps,
}
use faasafe.Prelude.{
  refl, ◌≡◌, ℕ, some, true, false, arith, ◌<◌, ◌+◌, ◌||◌, get_or, ◌∙◌, ◌==◌, ==-refl, sym, ap, List,
}
use faasafe.Types.{MemInfo, Bytes}

module _ {S : Type 0} (h : Host S) (laws : IsContexts h.contexts) where
  -- What the kernel documents of the files and the calls that the restoration uses.
  pub record IsHost : Type 0 where
    pub delivers : Delivers h.mem_file
    pub discards : Discards h.madvise
    pub keeps : KeepsMemory h.contexts h.memory
    pub writes : (s : S) (m : Bytes) → h.memory (h.with_memory s m) ≡ m
    pub writes_held :
        (s : S) (m : Bytes) (tid : ℕ) → laws.is_held (h.with_memory s m) tid ≡ laws.is_held s tid
    pub clears : (s : S) → h.memory (h.clear_refs s) ≡ h.memory s
    pub clears_held : (s : S) (tid : ℕ) → laws.is_held (h.clear_refs s) tid ≡ laws.is_held s tid

  module _ (u : Unset) where
    -- The tracee in the state `s`, stopped, which has kept its maps since the checkpoint `ini` and
    -- only written to its memory and registers.
    pub record HasWritten (lss : List (List Entry)) (ini : MemInfo) (old : Bytes) (t : Tracked)
        (s : S) : Type 0 where
      pub base : IsCheckpointOf lss old ini
      pub same_pid : ini.pid ≡ t.pid
      pub few : ini.maps_count + ini.maps_count < max_maps
      pub heap_index : ℕ
      pub has_heap : get_map_index_by_name ini heap_name true ≡ some heap_index
      pub stack_index : ℕ
      pub has_stack : get_map_index_by_name ini stack_name false ≡ some stack_index
      pub text : IsText (h.maps_text s) lss
      pub delivers_all : DeliversAll (h.pagemap s)
      pub tracked : IsTracked (h.pagemap s) ini old (h.memory s)
      pub distinct : Distinct 0 t.threads.tid_count t.threads
      pub held : Held h.contexts laws u.saved 0 t.threads.tid_count t.threads s

    -- What is read of it, without and with the pages.
    record Captured (ini : MemInfo) (old : Bytes) (t : Tracked) (s : S) : Type 0 where
      cur : MemInfo
      captures : capture_process_state h u t.pid false s ≡ returned cur
      cur_table : IsTable cur
      cur_outlines : SameOutlines ini cur
      cur_pid : cur.pid ≡ t.pid
      fin : MemInfo
      captures_pages : capture_process_state h u t.pid true s ≡ returned fin
      fin_table : IsTable fin
      fin_pid : fin.pid ≡ t.pid
      written : IsWritten ini fin old (h.memory s)

    HasWritten-Captured :
        IsHost
        → (lss : List (List Entry)) (ini : MemInfo) (old : Bytes) (t : Tracked) (s : S)
        → HasWritten lss ini old t s
        → Captured ini old t s
    unfolding capture_process_state init_process_mem_info
    HasWritten-Captured host lss ini old t s w =
        let (cur, npages) = read_maps u.buffer (h.maps_text s) (init_process_mem_info t.pid) in
        let parsed =
          read_maps-IsReadMaps u.buffer (h.maps_text s) lss t.pid w.text.whole w.text.fresh
            w.text.room w.text.small in
        let (fin, reads, is_read) =
          capture_pages-IsRead (h.pagemap s) w.delivers_all h.mem_file host.delivers (h.memory s)
            cur parsed.laid in
        let pid : cur.pid ≡ t.pid =
          pid-read_maps u.buffer (h.maps_text s) lss (init_process_mem_info t.pid) w.text.whole in
        record {
          cur = cur;
          captures = refl;
          cur_table = parsed.table;
          cur_outlines =
              cur-SameOutlines (h.pagemap s) lss old (h.memory s) ini cur fin npages w.base parsed
                is_read w.tracked;
          cur_pid = pid;
          fin = fin;
          captures_pages =
              subst (λ n. capture_pages (h.pagemap s) n cur ≡ returned fin) (sym parsed.pages)
                reads;
          fin_table =
              fin-IsTable (h.pagemap s) lss old (h.memory s) ini cur fin npages w.base parsed
                is_read w.tracked;
          fin_pid = is_read.same_pid ∙ pid;
          written =
              reread-IsWritten (h.pagemap s) lss old (h.memory s) ini cur fin npages w.base parsed
                is_read w.tracked;
        }

    -- The conditions: `ini` is a checkpointed state of the process, clean, with its resident memory
    -- `old` in the buffer, of maps that are not empty, lie apart, number less than 2 ^ 28, and have
    -- a heap, not as the last map, and a stack; the process has the same maps now, its files
    -- deliver what is asked for, and /proc/PID/maps has the text that `read_maps` expects, in whole
    -- lines and without [vvar], [vdso] and [vsyscall]; a page whose entry in the pagemap is neither
    -- soft-dirty nor freed is as it was in `old`; the threads of the table are stopped, each in one
    -- slot; and the calls do what is documented. Then `restore_process_sd` returns. Every page of a
    -- readable or writable map that was resident at the checkpoint is as it was then, no byte
    -- outside the maps has changed, the threads have the saved contexts, and the checkpointed state
    -- that is kept is clean, with the same pages and the same buffer.
    pub restore_process_sd-undoes :
        IsHost
        → (lss : List (List Entry)) (ini : MemInfo) (old : Bytes) (t : Tracked) (s : S)
        → HasWritten lss ini old t s
        → (t' : Tracked) × (s' : S) × (ps : MemInfo) × (restore_process_sd h u ini t s
            ≡ returned (t', s'))
          × ((i : ℕ)
              → i < ini.maps_count
              → ((map_at ini i).r || (map_at ini i).w) ≡ true
              → Agrees ini (map_at ini i) old (h.memory s'))
          × ((q : ℕ)
              → ((i : ℕ) → i < ini.maps_count → on_map ini i q ≡ false)
              → h.memory s' q ≡ h.memory s q)
          × Stands h.contexts laws u.saved 0 t.threads.tid_count t.threads t.saved s'
          × (t'.p_checkpointed_state ≡ some ps)
          × AllClean ps
          × (ps.pages ≡ ini.pages)
          × (ps.wmem ≡ ini.wmem)
    unfolding restore_process_sd restore_threads_registers clear_soft_dirty_bits
    restore_process_sd-undoes host lss ini old t s w =
        let c = HasWritten-Captured host lss ini old t s w in
        let table = w.base.table in
        let few_cur : ini.maps_count + c.cur.maps_count < max_maps =
          omega (arith, w.few, c.cur_outlines.count) in
        let few_fin : ini.maps_count + c.fin.maps_count < max_maps =
          omega (arith, w.few, c.written.outlines.count) in
        let pid_cur : ini.pid ≡ c.cur.pid = w.same_pid ∙ sym c.cur_pid in
        let (d, compares, nothing) =
          restore_mappings-kept ini c.cur table c.cur_table c.cur_outlines h.calls u.heap u.heap'
            u.stack u.stack' w.heap_index w.stack_index pid_cur few_cur w.has_heap w.has_stack in
        let (d', compares', memory', count, writes, agrees, elsewhere) =
          restore_soft_dirty_memory-diff_process_states ini c.fin old (h.memory s) h.mem_file
            h.madvise table c.fin_table (w.same_pid ∙ sym c.fin_pid) few_fin c.written host.delivers
            host.discards in
        let s1 = h.clear_refs (h.with_memory s memory') in
        let (s', restores, done) =
          restore_slots-RestoredSlots h.contexts laws u.saved t.threads.tid_count 0 t.threads
            t.saved s1 w.distinct
            (λ a le lt live.
              host.clears_held (h.with_memory s memory') (get_or t.threads.tids a 0)
              ∙ host.writes_held s memory' (get_or t.threads.tids a 0)
              ∙ w.held a le lt live) in
        let same_pid : (ini.pid == c.cur.pid) ≡ true = rw pid_cur (==-refl c.cur.pid) in
        let memory_is : h.memory s' ≡ memory' =
          restore_slots-memory h.contexts h.memory host.keeps u.saved t.threads.tid_count 0
            t.threads t.saved s1 s' restores
          ∙ host.clears (h.with_memory s memory')
          ∙ host.writes s memory' in
        (
          record t {
            p_checkpointed_state = some (clear_soft_dirty_bits ini);
            p_curr_state = some c.fin;
          },
          s',
          clear_soft_dirty_bits ini,
          rw
              (
                c.captures,
                compares,
                same_pid,
                nothing s,
                c.captures_pages,
                compares',
                writes,
                restores,
              )
              refl,
          (λ i lt usable.
              subst (Agrees ini (map_at ini i) old) (sym memory_is) (agrees i lt usable)),
          (λ q off. ap (λ (m : Bytes). m q) memory_is ∙ elsewhere q off),
          done.restored,
          refl,
          AllClean-clear_soft_dirty_bits ini (omega (arith, table.sized, table.within)),
          refl,
          refl,
        )
