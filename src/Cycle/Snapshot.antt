-- ===== src/Cycle/Snapshot.antt =====
-- `checkpoint_process_sd` on the stopped tracee, from the text of its maps on.
use faasafe.Pagemap.{PagemapFile}
use mathlib.Core.Path.{subst}
use faasafe.Prelude.{
  refl, some, true, arith, ◌≡◌, ℕ, List, ◌^◌, ◌<◌, ◌≤◌, length, ap, ◌∙◌, get_or, All, sym,
}
use faasafe.Types.{Bytes, Map, MemInfo, zero_map}
use faasafe.Outcome.{returned}
use faasafe.Maps.{init_process_mem_info}
use faasafe.Maps.Table.{map_at, max_maps}
use faasafe.Memory.{Delivers}
use faasafe.Pagemap.Scan.{IsFresh}
use faasafe.Pagemap.Table.{DeliversAll}
use faasafe.Snapshot.Capture.{IsCheckpointed}
use faasafe.Checkpoint.{capture_pages, store_memory}
use faasafe.Checkpoint.Clean.{AllClean, capture_pages-IsRead, store_memory-IsCheckpointed}
use faasafe.Parse.Entry.{Entry}
use faasafe.Parse.ReadMaps.{read_maps}
use faasafe.Parse.Chunks.{AllWhole, maps_of_all}
use faasafe.Parse.LaidOut.{total_of, with_table}
use faasafe.Parse.Result.{IsReadMaps, read_maps-IsReadMaps}
use faasafe.Registers.{store_threads_registers}
use faasafe.Registers.Laws.{IsContexts}
use faasafe.Registers.RoundTrip.{Held, Stands, store_slots-StoredSlots}
use faasafe.Cycle.{Host, Unset, Tracked, capture_process_state, checkpoint_process_sd, PagemapFile}

-- The text of the maps: whole lines of the maps of an ordinary process, whose sizes keep the `int`s
-- of the program from overflowing.
pub record IsText (chunks : List (List ℕ)) (lss : List (List Entry)) : Type 0 where
  pub whole : AllWhole chunks lss
  pub fresh : All IsFresh (maps_of_all lss)
  pub room : length (maps_of_all lss) ≤ max_maps
  pub small : total_of (maps_of_all lss) < 2 ^ 31

module _ {S : Type 0} (h : Host S) (u : Unset) (lss : List (List Entry)) where
  -- The checkpointed state holds each of the maps, clean, and its resident pages, which are those
  -- of the pagemap, as they are in the memory.
  pub record IsSnapshot (pf : PagemapFile) (memory : Bytes) (ps : MemInfo) : Type 0 where
    pub number : ps.maps_count ≡ length (maps_of_all lss)
    pub clean : AllClean ps
    pub before : MemInfo
    pub starts :
        (i : ℕ)
        → i < length (maps_of_all lss)
        → (map_at before i).addr_start ≡ (get_or (maps_of_all lss) i zero_map).addr_start
    pub pages :
        (i : ℕ)
        → i < length (maps_of_all lss)
        → (map_at before i).total_num_pages ≡ (get_or (maps_of_all lss) i zero_map).total_num_pages
    pub holds : (i : ℕ) → i < length (maps_of_all lss) → IsCheckpointed pf before ps memory i

  module _ (delivers : Delivers h.mem_file) (s : S) (all : DeliversAll (h.pagemap s))
      (text : IsText (h.maps_text s) lss) (pid : ℕ) where
    abbrev read : MemInfo × ℕ
    read = read_maps u.buffer (h.maps_text s) (init_process_mem_info pid)

    parsed : IsReadMaps (maps_of_all lss) read.0 read.1
    parsed =
        read_maps-IsReadMaps u.buffer (h.maps_text s) lss pid text.whole text.fresh text.room
          text.small

    -- Reading the maps and the pagemap, and storing the memory.
    captured-IsSnapshot :
        (ps ps' : MemInfo) × (capture_process_state h u pid true s ≡ returned ps)
        × (store_memory h.mem_file (h.memory s) ps ≡ returned ps')
        × IsSnapshot (h.pagemap s) (h.memory s) ps'
    unfolding capture_process_state
    captured-IsSnapshot =
        let (ps, reads, is_read) =
          capture_pages-IsRead (h.pagemap s) all h.mem_file delivers (h.memory s) read.0
            parsed.laid in
        let (ps', stores, same, clean, holds) =
          store_memory-IsCheckpointed (h.pagemap s) all h.mem_file delivers (h.memory s) read.0
            parsed.laid ps is_read in
        (
          ps,
          ps',
          subst (λ n. capture_pages (h.pagemap s) n read.0 ≡ returned ps) (sym parsed.pages) reads,
          stores,
          record {
            number = same ∙ parsed.number;
            clean = clean;
            before = with_table read.0;
            starts = λ i lt. let (a, b, e) = parsed.rows i lt in ap (λ (m : Map). m.addr_start) e;
            pages =
                λ i lt. let (a, b, e) = parsed.rows i lt in ap (λ (m : Map). m.total_num_pages) e;
            holds = λ i lt. holds i (omega (arith, parsed.number));
          },
        )

  -- Clearing the dirty bits concerns no context and no stop.
  module _ (laws : IsContexts h.contexts)
      (same_context : (s : S) (tid : ℕ) → laws.context (h.clear_refs s) tid ≡ laws.context s tid)
      (same_held : (s : S) (tid : ℕ) → laws.is_held (h.clear_refs s) tid ≡ laws.is_held s tid) where
    -- What a checkpoint leaves: the maps and the memory as they are after the first clearing of the
    -- dirty bits, and the contexts of the threads.
    pub record IsSaved (t t' : Tracked) (s s' : S) : Type 0 where
      pub ps : MemInfo
      pub kept : t'.p_checkpointed_state ≡ some ps
      pub snapshot : IsSnapshot (h.pagemap (h.clear_refs s)) (h.memory (h.clear_refs s)) ps
      pub same_threads : t'.threads ≡ t.threads
      pub stands : Stands h.contexts laws u.saved 0 t.threads.tid_count t.threads t'.saved s
      pub same : (tid : ℕ) → laws.context s' tid ≡ laws.context s tid
      pub held : (tid : ℕ) → laws.is_held s' tid ≡ laws.is_held s tid
      pub same_count : t'.num_checkpoints ≡ t.num_checkpoints

    -- `checkpoint_process_sd` on a tracee whose threads are stopped, whose maps file has the text
    -- of an ordinary process, and whose files deliver, returns: no assertion fails. Every map is in
    -- the checkpointed state, clean, with its resident pages as they are in the memory, the saved
    -- registers are those of the threads, and the threads keep them.
    pub checkpoint_process_sd-IsSaved :
        Delivers h.mem_file
        → (t : Tracked) (s : S) → DeliversAll (h.pagemap (h.clear_refs s))
        → IsText (h.maps_text (h.clear_refs s)) lss
        → t.threads.tid_count ≤ length t.saved
        → Held h.contexts laws u.saved 0 t.threads.tid_count t.threads s
        → (t' : Tracked) × (s' : S) × (checkpoint_process_sd h u t s ≡ returned (t', s'))
          × IsSaved t t' s s'
    unfolding checkpoint_process_sd store_threads_registers
    checkpoint_process_sd-IsSaved delivers t s all text room held =
        let s1 = h.clear_refs s in
        let s2 = h.clear_refs s1 in
        let (ps, ps', captures, stores, snapshot) =
          captured-IsSnapshot delivers s1 all text t.pid in
        let (saved', s3, saves, stored) =
          store_slots-StoredSlots h.contexts laws u.saved t.threads.tid_count 0 t.threads t.saved s2
            (omega (arith, room))
            (λ a le lt live.
              same_held s1 (get_or t.threads.tids a 0)
              ∙ same_held s (get_or t.threads.tids a 0)
              ∙ held a le lt live) in
        (
          record t { p_checkpointed_state = some ps'; rlim = h.stack_limit s1; saved = saved' },
          s3,
          rw (captures, stores, saves) refl,
          record {
            ps = ps';
            kept = refl;
            snapshot = snapshot;
            same_threads = refl;
            stands = λ a le lt live.
                let tid = get_or t.threads.tids a 0 in
                stored.stands a le lt live ∙ same_context s1 tid ∙ same_context s tid;
            same = λ tid. stored.same tid ∙ same_context s1 tid ∙ same_context s tid;
            held = λ tid. stored.held tid ∙ same_held s1 tid ∙ same_held s tid;
            same_count = refl;
          },
        )
