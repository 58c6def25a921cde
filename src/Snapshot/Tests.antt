-- ===== src/Snapshot/Tests.antt =====
-- The copy of a state with two maps: one wholly resident page, then two pages of which the second
-- is resident.
use faasafe.Prelude.{
  refl, [], ◌∷◌, true, false, arith, ◌≡◌, ℕ, List, some, ℕ_discrete, ◌<◌, get_or, ◌≤◌, length,
}
use faasafe.Types.{Map, MemInfo, Bytes, Page, zero_map, zero_page}
use faasafe.Outcome.{returned}
use faasafe.Memory.{MemFile, Delivers}
use faasafe.Snapshot.{populate_memory_copy_info, populate_memory_copy_info_map}
use faasafe.Snapshot.Pages.{IsCaptured, Holds, Untouched, populate_map-Holds}
use faasafe.Snapshot.Layout.{placed, populate_memory_copy_info-Stored}

abbrev whole : MemFile
whole = record { pread_count = λ m a n. some n; pwrite_count = λ m a n. some n }

whole-Delivers : Delivers whole
whole-Delivers = record {
  pread_some = λ m a n h. (n, refl, h, omega arith);
  pwrite_some = λ m a n h. (n, refl, h, omega arith);
  pread_page = λ m a. refl;
  pwrite_page = λ m a. refl;
}

abbrev code : Map
code = record zero_map {
  addr_start = 4096;
  addr_end = 8192;
  r = true;
  total_num_pages = 1;
  total_num_paged_pages = 1;
}

abbrev heap : Map
heap = record zero_map {
  addr_start = 8192;
  addr_end = 16384;
  r = true;
  w = true;
  total_num_pages = 2;
  total_num_paged_pages = 1;
  first_page_index = 1;
}

abbrev page : ℕ → ℕ → Page
page addr pfn = record zero_page { addr_start = addr; pfn = pfn }

abbrev ps : MemInfo
ps = record {
  pid = 7;
  maps_count = 2;
  maps_max_capacity = 2;
  pages_count = 3;
  writable_pages_count = 2;
  paged_pages_count = 2;
  pages_max_capacity = 3;
  max_num_pages_in_mem_region = 2;
  maps = code ∷ heap ∷ [];
  pages = page 4096 5 ∷ page 8192 0 ∷ page 12288 6 ∷ [];
  wmem = λ q. 0;
}

abbrev memory : Bytes
memory q = q

code-IsCaptured : IsCaptured ps (placed ps 0)
code-IsCaptured = record {
  range = refl;
  below = omega arith;
  small = omega arith;
  paged = refl;
  page_table = omega arith;
  buffer = omega arith;
}

heap-IsCaptured : IsCaptured ps (placed ps 1)
heap-IsCaptured = record {
  range = refl;
  below = omega arith;
  small = omega arith;
  paged = refl;
  page_table = omega arith;
  buffer = omega arith;
}

captured : (i : ℕ) → i < 2 → IsCaptured ps (placed ps i)
captured i h = elim (ℕ_discrete i 0) [
  | yes e ↦ rw e code-IsCaptured
  | no ne ↦ let one : i ≡ 1 = omega arith in rw one heap-IsCaptured
]

populate_memory_copy_info-Stored_example :
    (ms : List Map) × (wmem : Bytes) × (populate_memory_copy_info whole memory ps false
      ≡ returned (record ps { maps = ms; wmem = wmem }))
    × ((i : ℕ)
        → i < 2
        → (get_or ms i zero_map ≡ placed ps i)
          × Holds ps (placed ps i) (placed ps i).total_num_pages memory wmem)
    × (2 ≤ length ms)
populate_memory_copy_info-Stored_example =
    populate_memory_copy_info-Stored whole whole-Delivers memory ps captured (omega arith)

populate_map-Holds_example :
    (wmem : Bytes) × (populate_memory_copy_info_map whole memory ps (placed ps 1) ≡ returned wmem)
    × Holds ps (placed ps 1) 2 memory wmem
    × Untouched ps (placed ps 1) 2 (λ q. 0) wmem
populate_map-Holds_example =
    populate_map-Holds whole whole-Delivers memory ps (placed ps 1) heap-IsCaptured (omega arith)
