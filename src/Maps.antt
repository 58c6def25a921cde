-- ===== src/Maps.antt =====
-- groundhog_origin/src/mem_helpers.c: the growing table of memory maps.
pub mod Counts
pub mod Rows
pub mod Table
pub mod Names
mod Tests
use faasafe.Prelude.{
  ℕ, ◌+◌, ◌*◌, ◌%◌, ◌^◌, max, Bool, true, false, List, [], ◌++◌, ltb, if◌then◌else◌, set, replicate,
  take, refl, zero, suc, ◌∷◌, none, some, inl, inr, arith, ◌≡◌, Option,
}
use faasafe.Word.{add64, mul64, to_int, leb_int}
use faasafe.Types.{Map, MemInfo, zero_map, initial_number_of_regions}

-- `init_process_mem_info` on a record whose other fields `calloc` has cleared.
unfoldable pub init_process_mem_info : ℕ → MemInfo
init_process_mem_info pid = record {
  pid = pid;
  maps_count = 0;
  maps_max_capacity = initial_number_of_regions;
  pages_count = 0;
  writable_pages_count = 0;
  paged_pages_count = 0;
  pages_max_capacity = 0;
  max_num_pages_in_mem_region = 0;
  maps = replicate initial_number_of_regions zero_map;
  pages = [];
  wmem = λ _. 0;
}

-- The part of `add_to_maps` that doubles a full array; the new half is cleared.
grow_maps : MemInfo → MemInfo
grow_maps ps =
    if leb_int (to_int ps.maps_max_capacity) (to_int ps.maps_count)
    then record ps {
      maps_max_capacity = mul64 ps.maps_max_capacity 2;
      maps = ps.maps ++ replicate (to_int ps.maps_max_capacity) zero_map;
    }
    else ps

-- `add_to_maps`
unfoldable pub add_to_maps : MemInfo → Map → MemInfo
unfolding grow_maps
add_to_maps ps map =
    let g = grow_maps ps in
    record g {
      pages_max_capacity = add64 g.pages_max_capacity map.total_num_pages;
      max_num_pages_in_mem_region = max map.total_num_pages g.max_num_pages_in_mem_region;
      maps = set g.maps (to_int ps.maps_count) map;
      maps_count = add64 g.maps_count 1;
      writable_pages_count =
          if map.w
          then add64 g.writable_pages_count map.total_num_pages
          else g.writable_pages_count;
      paged_pages_count = add64 g.paged_pages_count map.total_num_paged_pages;
    }

-- The maps in use.
abbrev pub live : MemInfo → List Map
live ps = take ps.maps_count ps.maps
