-- ===== src/Maps/Tests.antt =====
-- The table of maps after one map.
use faasafe.Prelude.{[], ◌∷◌, true, arith, ◌≡◌, ◌++◌, ◌<◌}
use faasafe.Types.{Map, zero_map}
use faasafe.Maps.{init_process_mem_info, add_to_maps, live}
use faasafe.Maps.Table.{IsTable, init-IsTable, live-add_to_maps, max_maps}
use faasafe.Maps.Counts.{IsCounted, init-IsCounted, add_to_maps-IsCounted}

abbrev heap : Map
heap = record zero_map {
  addr_start = 4096;
  addr_end = 12288;
  w = true;
  total_num_pages = 2;
  total_num_paged_pages = 1;
}

few : (init_process_mem_info 7).maps_count < max_maps
unfolding init_process_mem_info
few = omega arith

live-add_to_maps_example :
    IsTable (add_to_maps (init_process_mem_info 7) heap)
    × (live (add_to_maps (init_process_mem_info 7) heap)
        ≡ live (init_process_mem_info 7) ++ heap ∷ [])
live-add_to_maps_example = live-add_to_maps (init_process_mem_info 7) (init-IsTable 7) few heap

add_to_maps-IsCounted_example : IsCounted (add_to_maps (init_process_mem_info 7) heap)
add_to_maps-IsCounted_example =
    add_to_maps-IsCounted (init_process_mem_info 7) heap (init-IsTable 7) few (init-IsCounted 7)
