-- ===== src/Checkpoint/Clean.antt =====
-- A checkpoint succeeds, with the memory stored and all maps clean.
use faasafe.Prelude.{
  refl, zero, suc, true, false, arith, ◌≡◌, ℕ, List, ◌+◌, ◌<◌, ◌≤◌, ◌==◌, get_or, length,
  length-set, get_or-set_self, get_or-set_ne, replicate, ℕ_discrete, ◌∙◌, ap,
}
use faasafe.Types.{Map, MemInfo, Bytes, zero_map, zero_page}
use faasafe.Word.{of_int}
use faasafe.Maps.Table.{map_at, pages_before}
use faasafe.Memory.{MemFile, Delivers}
use faasafe.Outcome.{returned}
use faasafe.Pagemap.{PagemapFile}
use faasafe.Pagemap.Table.{DeliversAll, IsLaidOut, IsRead, populate_page_info-IsRead}
use faasafe.Snapshot.Capture.{IsCheckpointed, populate_memory_copy_info-IsCheckpointed}
use faasafe.Checkpoint.{
  clean_map, clean_maps, clear_soft_dirty_bits, capture_pages, store_memory, all_clean,
  checkpoint_maps,
}

length-clean_maps : (n i : ℕ) (maps : List Map) → length (clean_maps n i maps) ≡ length maps
unfolding clean_maps
length-clean_maps zero i maps = refl
length-clean_maps (suc n) i maps = length-clean_maps n (i + 1) _ ∙ length-set maps i _

-- The loop cleans the maps from `i` on and leaves those before.
clean_maps-before :
    (n i j : ℕ) (maps : List Map)
    → j < i
    → get_or (clean_maps n i maps) j zero_map ≡ get_or maps j zero_map
unfolding clean_maps
clean_maps-before zero i j maps h = refl
clean_maps-before (suc n) i j maps h =
    clean_maps-before n (i + 1) j _ (omega arith) ∙ get_or-set_ne maps i j _ zero_map (omega arith)

clean_maps-from :
    (n i j : ℕ) (maps : List Map)
    → i ≤ j
    → j < i + n
    → i + n ≤ length maps
    → get_or (clean_maps n i maps) j zero_map ≡ clean_map (get_or maps j zero_map)
unfolding clean_maps
clean_maps-from zero i j maps le lt long = absurd (omega arith)
clean_maps-from (suc n) i j maps le lt long = elim (ℕ_discrete j i) [
  | yes e ↦ rw e (
      clean_maps-before n (i + 1) i _ (omega arith)
      ∙ get_or-set_self maps i _ zero_map (omega arith))
  | no ne ↦
      clean_maps-from n (i + 1) j _ (omega arith) (omega arith)
        (omega (arith, length-set maps i (clean_map (get_or maps i zero_map))))
      ∙ ap clean_map (get_or-set_ne maps i j _ zero_map (omega arith))
]

-- Every map of the state is clean.
abbrev pub AllClean : MemInfo → Type 0
AllClean ps =
    (i : ℕ)
    → i < ps.maps_count
    → ((map_at ps i).soft_dirty_count ≡ 0)
      × ((map_at ps i).freed_count ≡ 0)
      × ((map_at ps i).dirty ≡ false)

map_at-clear_soft_dirty_bits :
    (ps : MemInfo)
    → ps.maps_count ≤ length ps.maps
    → (i : ℕ) → i < ps.maps_count
    → map_at (clear_soft_dirty_bits ps) i ≡ clean_map (map_at ps i)
unfolding clear_soft_dirty_bits
map_at-clear_soft_dirty_bits ps long i h =
    clean_maps-from ps.maps_count 0 i ps.maps (omega arith) (omega arith) (omega arith)

maps_count-clear_soft_dirty_bits :
    (ps : MemInfo) → (clear_soft_dirty_bits ps).maps_count ≡ ps.maps_count
unfolding clear_soft_dirty_bits
maps_count-clear_soft_dirty_bits ps = refl

pub AllClean-clear_soft_dirty_bits :
    (ps : MemInfo) → ps.maps_count ≤ length ps.maps → AllClean (clear_soft_dirty_bits ps)
unfolding clear_soft_dirty_bits clean_map
AllClean-clear_soft_dirty_bits ps long i h =
    rw (map_at-clear_soft_dirty_bits ps long i h) (refl, refl, refl)

-- What is stored of a map does not depend on its dirty counts.
IsCheckpointed-clear_soft_dirty_bits :
    (pf : PagemapFile) (before ps : MemInfo) (memory : Bytes)
    → ps.maps_count ≤ length ps.maps
    → (i : ℕ) → i < ps.maps_count
    → IsCheckpointed pf before ps memory i
    → IsCheckpointed pf before (clear_soft_dirty_bits ps) memory i
unfolding clear_soft_dirty_bits clean_map
IsCheckpointed-clear_soft_dirty_bits pf before ps memory long i h c = record {
  start = rw (map_at-clear_soft_dirty_bits ps long i h) c.start;
  pages = rw (map_at-clear_soft_dirty_bits ps long i h) c.pages;
  resident = λ p lt. rw (map_at-clear_soft_dirty_bits ps long i h) (c.resident p lt);
  captured = rw (map_at-clear_soft_dirty_bits ps long i h) (
      let d = c.captured in
      record {
        range = d.range;
        below = d.below;
        small = d.small;
        paged = d.paged;
        page_table = d.page_table;
        buffer = d.buffer;
      });
  holds = rw (map_at-clear_soft_dirty_bits ps long i h) c.holds;
}

pub all_clean-passes :
    (ps : MemInfo)
    → AllClean ps
    → (n i : ℕ) → i + n ≤ ps.maps_count
    → all_clean ps n i ≡ returned ps
unfolding all_clean
all_clean-passes ps clean zero i h = refl
all_clean-passes ps clean (suc n) i h =
    rw ((clean i (omega arith)).0) (all_clean-passes ps clean n (i + 1) (omega arith))

module _ (pf : PagemapFile) (all : DeliversAll pf) (f : MemFile) (delivers : Delivers f)
    (memory : Bytes) (ps : MemInfo) where
  -- The state with the table of pages that `init_pages_info` allocates.
  abbrev pub with_pages : MemInfo
  with_pages = record ps { pages = replicate ps.pages_max_capacity zero_page }

  module _ (laid : IsLaidOut with_pages) where
    pub capture_pages-IsRead :
        (ps' : MemInfo) × (capture_pages pf (pages_before ps ps.maps_count) ps ≡ returned ps')
        × IsRead pf with_pages ps'
    unfolding capture_pages
    capture_pages-IsRead =
        let (read, reads, is_read) = populate_page_info-IsRead pf all with_pages laid in
        let counted : (of_int (pages_before with_pages ps.maps_count) == read.pages_count) ≡ true =
          ground (arith, is_read.pages_counted, laid.room, laid.small) in
        (read, rw (reads, counted) refl, is_read)

    pub store_memory-IsCheckpointed :
        (read : MemInfo)
        → IsRead pf with_pages read
        → (ps' : MemInfo) × (store_memory f memory read ≡ returned ps')
          × (ps'.maps_count ≡ ps.maps_count)
          × AllClean ps'
          × ((i : ℕ) → i < ps.maps_count → IsCheckpointed pf with_pages ps' memory i)
    unfolding store_memory
    store_memory-IsCheckpointed read r =
        let (stored, copies, same, long, holds) =
          populate_memory_copy_info-IsCheckpointed pf f delivers memory with_pages laid
            (record read { wmem = λ _. 0 })
            (record {
              same_maps = r.same_maps;
              same_pid = r.same_pid;
              same_capacity = r.same_capacity;
              same_length = r.same_length;
              long = r.long;
              counts = r.counts;
              stored = r.stored;
              pages_counted = r.pages_counted;
              paged_counted = r.paged_counted;
            }) in
        (
          clear_soft_dirty_bits stored,
          rw copies refl,
          maps_count-clear_soft_dirty_bits stored ∙ same,
          AllClean-clear_soft_dirty_bits stored long,
          λ i h.
              IsCheckpointed-clear_soft_dirty_bits pf with_pages stored memory long i
                (omega (arith, same)) (holds i h),
        )

    -- From a table of maps as they are parsed, with the number of their pages, and with the files of
    -- a live process, the checkpoint returns: no assertion fails. Every map is in the state with its
    -- range, and clean; its resident pages are those whose entries in the pagemap have a page frame
    -- number, and the buffer holds them as they are in the memory.
    pub checkpoint_maps-IsCheckpointed :
        (ps' : MemInfo) × (checkpoint_maps pf f memory (pages_before ps ps.maps_count) ps
          ≡ returned ps')
        × AllClean ps'
        × ((i : ℕ) → i < ps.maps_count → IsCheckpointed pf with_pages ps' memory i)
    unfolding checkpoint_maps
    checkpoint_maps-IsCheckpointed =
        let (read, reads, is_read) = capture_pages-IsRead in
        let (ps', stores, same, clean, holds) = store_memory-IsCheckpointed read is_read in
        (
          ps',
          rw (reads, stores) (all_clean-passes ps' clean ps'.maps_count 0 (omega arith)),
          clean,
          holds,
        )
