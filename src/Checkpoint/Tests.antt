-- ===== src/Checkpoint/Tests.antt =====
-- The checkpoint of a process with one map of two pages, the second of which is not resident.
use faasafe.Prelude.{
  refl, [], ◌∷◌, some, true, arith, ◌≡◌, ℕ, ◌+◌, ◌^◌, ◌==◌, replicate, if◌then◌else◌, ◌<◌,
}
use faasafe.Types.{Map, MemInfo, zero_map, zero_page}
use faasafe.Outcome.{returned}
use faasafe.Memory.{MemFile, Delivers}
use faasafe.Pagemap.{PagemapFile}
use faasafe.Pagemap.Scan.{IsFresh}
use faasafe.Pagemap.Table.{DeliversAll, IsLaidOut}
use faasafe.Snapshot.Capture.{IsCheckpointed}
use faasafe.Checkpoint.{checkpoint_maps}
use faasafe.Checkpoint.Clean.{AllClean, checkpoint_maps-IsCheckpointed}

abbrev pagemap : PagemapFile
pagemap = record {
  pread_count = λ off n. some n;
  entry = λ i. if i == 2 then 0 else 2 ^ 63 + 2 ^ 55 + 9;
  unread = λ i. 0;
}

pagemap-DeliversAll : DeliversAll pagemap
pagemap-DeliversAll = record { all = λ off n. refl }

abbrev whole : MemFile
whole = record { pread_count = λ m a n. some n; pwrite_count = λ m a n. some n }

whole-Delivers : Delivers whole
whole-Delivers = record {
  pread_some = λ m a n h. (n, refl, h, omega arith);
  pwrite_some = λ m a n h. (n, refl, h, omega arith);
  pread_page = λ m a. refl;
  pwrite_page = λ m a. refl;
}

abbrev heap : Map
heap = record zero_map {
  addr_start = 4096;
  addr_end = 12288;
  r = true;
  w = true;
  total_num_pages = 2;
}

abbrev ps : MemInfo
ps = record {
  pid = 7;
  maps_count = 1;
  maps_max_capacity = 1;
  pages_count = 0;
  writable_pages_count = 2;
  paged_pages_count = 0;
  pages_max_capacity = 2;
  max_num_pages_in_mem_region = 2;
  maps = heap ∷ [];
  pages = [];
  wmem = λ q. 0;
}

heap-IsFresh : IsFresh heap
heap-IsFresh = record {
  populated = refl;
  paged = refl;
  soft_dirty = refl;
  freed = refl;
  small = omega arith;
  range = refl;
  below = omega arith;
}

only : (i : ℕ) → i < 1 → i ≡ 0
only i h = omega arith

laid : IsLaidOut (record ps { pages = replicate 2 zero_page })
laid = record {
  fresh = λ i h. rw (only i h) heap-IsFresh;
  index = λ i h. rw (only i h) refl;
  table = omega arith;
  sized = refl;
  room = omega arith;
  small = omega arith;
  no_pages = refl;
  no_paged = refl;
}

checkpoint_maps-IsCheckpointed_example :
    (ps' : MemInfo) × (checkpoint_maps pagemap whole (λ q. q) 2 ps ≡ returned ps')
    × AllClean ps'
    × ((i : ℕ)
        → i < 1
        → IsCheckpointed pagemap (record ps { pages = replicate 2 zero_page }) ps' (λ q. q) i)
checkpoint_maps-IsCheckpointed_example =
    checkpoint_maps-IsCheckpointed pagemap pagemap-DeliversAll whole whole-Delivers (λ q. q) ps laid
