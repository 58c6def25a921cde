-- ===== src/Pagemap/Tests.antt =====
-- The pagemap of a process with two maps, of which the second page of the second is not resident.
use faasafe.Prelude.{
  refl, [], ◌∷◌, some, true, arith, ◌≡◌, ℕ, List, ◌+◌, ◌^◌, ◌==◌, ℕ_discrete, if◌then◌else◌,
}
use faasafe.Types.{Map, MemInfo, zero_map, zero_page}
use faasafe.Outcome.{Outcome, returned}
use faasafe.Maps.Table.{map_at}
use faasafe.Pagemap.{
  PagemapFile, populate_page_info, read_entries, populate_page_maps, read_range_pagemap,
  add_page_to_map, add_page_to_map_at_index, grow_pages, count_page, parse_page,
}
use faasafe.Pagemap.Scan.{IsFresh}
use faasafe.Pagemap.Table.{DeliversAll, IsLaidOut, IsRead, populate_page_info-IsRead}
use faasafe.Stats.{aggregate_dirty_stats}
use faasafe.Stats.Dirty.{aggregate_dirty_stats-dirty}

-- Page 3 of the process is missing, the others are present and soft-dirty in the frame 9.
abbrev pagemap : PagemapFile
pagemap = record {
  pread_count = λ off n. some n;
  entry = λ i. if i == 3 then 0 else 2 ^ 63 + 2 ^ 55 + 9;
  unread = λ i. 0;
}

pagemap-DeliversAll : DeliversAll pagemap
pagemap-DeliversAll = record { all = λ off n. refl }

abbrev code : Map
code = record zero_map { addr_start = 4096; addr_end = 8192; r = true; total_num_pages = 1 }

abbrev heap : Map
heap = record zero_map {
  addr_start = 8192;
  addr_end = 16384;
  r = true;
  w = true;
  total_num_pages = 2;
  first_page_index = 1;
}

abbrev ps : MemInfo
ps = record {
  pid = 7;
  maps_count = 2;
  maps_max_capacity = 2;
  pages_count = 0;
  writable_pages_count = 2;
  paged_pages_count = 0;
  pages_max_capacity = 3;
  max_num_pages_in_mem_region = 2;
  maps = code ∷ heap ∷ [];
  pages = zero_page ∷ zero_page ∷ zero_page ∷ [];
  wmem = λ q. 0;
}

code-IsFresh : IsFresh code
code-IsFresh = record {
  populated = refl;
  paged = refl;
  soft_dirty = refl;
  freed = refl;
  small = omega arith;
  range = refl;
  below = omega arith;
}

heap-IsFresh : IsFresh heap
heap-IsFresh = record {
  populated = refl;
  paged = refl;
  soft_dirty = refl;
  freed = refl;
  small = omega arith;
  range = refl;
  below = omega arith;
}

ps-IsLaidOut : IsLaidOut ps
ps-IsLaidOut = record {
  fresh = λ i h. elim (ℕ_discrete i 0) [
    | yes e ↦ rw e code-IsFresh
    | no ne ↦ let one : i ≡ 1 = omega arith in rw one heap-IsFresh
  ];
  index = λ i h. elim (ℕ_discrete i 0) [
    | yes e ↦ rw e refl
    | no ne ↦ let one : i ≡ 1 = omega arith in rw one refl
  ];
  table = omega arith;
  sized = refl;
  room = omega arith;
  small = omega arith;
  no_pages = refl;
  no_paged = refl;
}

-- The counters after both maps have been read.
abbrev counters : Outcome MemInfo → List ℕ
counters (returned s) =
    s.pages_count
    ∷ s.paged_pages_count
    ∷ (map_at s 1).total_num_paged_pages
    ∷ (map_at s 1).soft_dirty_count
    ∷ (map_at s 1).freed_count
    ∷ []
counters _ = []

counters_test : counters (populate_page_info pagemap ps) ≡ 3 ∷ 2 ∷ 1 ∷ 1 ∷ 1 ∷ []
unfolding populate_page_info populate_page_maps read_range_pagemap read_entries add_page_to_map
    add_page_to_map_at_index grow_pages count_page parse_page
counters_test = refl

populate_page_info-IsRead_example :
    (ps' : MemInfo) × (populate_page_info pagemap ps ≡ returned ps') × IsRead pagemap ps ps'
populate_page_info-IsRead_example =
    populate_page_info-IsRead pagemap pagemap-DeliversAll ps ps-IsLaidOut

-- Two of the three pages are soft-dirty.
aggregate_dirty_stats-dirty_example :
    (ps' : MemInfo) × (populate_page_info pagemap ps ≡ returned ps')
    × ((aggregate_dirty_stats ps').soft_dirty ≡ 2)
aggregate_dirty_stats-dirty_example =
    aggregate_dirty_stats-dirty pagemap ps pagemap-DeliversAll ps-IsLaidOut
