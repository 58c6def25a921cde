-- ===== src/Checkpoint.antt =====
-- groundhog_origin/src/proc_cr.c: the steps of a checkpoint that work on the captured state.
pub mod Clean
mod Tests
use faasafe.Prelude.{
  refl, zero, suc, [], true, false, ℕ, List, Bool, if◌then◌else◌, ◌+◌, ◌==◌, get_or, set, replicate,
  ◌∷◌, none, some, inl, inr, arith, ◌≡◌, Option,
}
use faasafe.Types.{Map, MemInfo, Bytes, zero_map, zero_page}
use faasafe.Word.{of_int}
use faasafe.Memory.{MemFile}
use faasafe.Pagemap.{PagemapFile, populate_page_info}
use faasafe.Snapshot.{populate_memory_copy_info}
use faasafe.Outcome.{Outcome, returned, aborted, ◌>>=◌}

-- What `clear_soft_dirty_bits` does to a map of the checkpointed state.
unfoldable pub clean_map : Map → Map
clean_map m = record m { soft_dirty_count = 0; freed_count = 0; dirty = false }

-- Its loop: `n` rounds are left, the next one is on map `i`.
unfoldable pub clean_maps : ℕ → ℕ → List Map → List Map
clean_maps zero i maps = maps
clean_maps (suc n) i maps = clean_maps n (i + 1) (set maps i (clean_map (get_or maps i zero_map)))

-- `clear_soft_dirty_bits` on the checkpointed state. The bits of the pagemap itself are cleared by
-- the kernel.
unfoldable pub clear_soft_dirty_bits : MemInfo → MemInfo
clear_soft_dirty_bits ps = record ps { maps = clean_maps ps.maps_count 0 ps.maps }

-- The part of `capture_process_state` behind `read_maps`, whose result, an `int`, is
-- `npages_in_maps`.
unfoldable pub capture_pages : PagemapFile → ℕ → MemInfo → Outcome MemInfo
capture_pages f npages_in_maps process_state =
    populate_page_info f
      (record process_state { pages = replicate process_state.pages_max_capacity zero_page })
    >>= λ s. if of_int npages_in_maps == s.pages_count then returned s else aborted

-- The part of `checkpoint_process_sd` that stores the memory, up to the clearing behind it.
unfoldable pub store_memory : MemFile → Bytes → MemInfo → Outcome MemInfo
store_memory f memory process_state =
    populate_memory_copy_info f memory (record process_state { wmem = λ _. 0 }) false >>= λ s.
    returned (clear_soft_dirty_bits s)

-- The assertions at the end of `checkpoint`: `n` maps are left, the next one is map `i`.
unfoldable pub all_clean : MemInfo → ℕ → ℕ → Outcome MemInfo
all_clean ps zero i = returned ps
all_clean ps (suc n) i =
    let rest = all_clean ps n (i + 1) in
    if (get_or ps.maps i zero_map).soft_dirty_count == 0 then rest else aborted

-- The checkpoint from the parsed maps on: these parts of `checkpoint_process_sd`, then the loop of
-- `checkpoint`. The limit of the stack and the registers of the threads are left out.
unfoldable pub checkpoint_maps : PagemapFile → MemFile → Bytes → ℕ → MemInfo → Outcome MemInfo
checkpoint_maps pf f memory npages_in_maps process_state =
    capture_pages pf npages_in_maps process_state >>= λ captured.
    store_memory f memory captured >>= λ stored. all_clean stored stored.maps_count 0
