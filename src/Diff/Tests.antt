-- ===== src/Diff/Tests.antt =====
-- Two states of a process: its heap has grown, and a map has been added behind it.
use faasafe.Maps.Names.{same_start}
use faasafe.Diff.Merge.{merge, pair, fresh}
use faasafe.Prelude.{refl, [], ◌∷◌, true, arith, ◌≡◌, ℕ, List, inl, inr}
use mathlib.Core.Logic.{◌↔◌}
use faasafe.Types.{Map, MemInfo, MemDiff, zero_map}
use faasafe.Maps.{live}
use faasafe.Maps.Table.{IsTable}
use faasafe.Diff.{
  diff_process_maps, finished, classify, same_region, same_start, identical, added_and_removed,
}
use faasafe.Diff.Tables.{Result, diff_process_maps-Result}
use faasafe.Diff.Cover.{Kept, Accounted, modified_covers, added_covers}
use faasafe.Diff.Same.{AllSame, no_change_iff}

abbrev code : Map
code = record zero_map {
  addr_start = 4096;
  addr_end = 8192;
  r = true;
  x = true;
  total_num_pages = 1;
}

abbrev heap : Map
heap = record zero_map {
  addr_start = 8192;
  addr_end = 12288;
  r = true;
  w = true;
  total_num_pages = 1;
}

abbrev grown : Map
grown = record heap { addr_end = 16384; total_num_pages = 2 }

abbrev mapped : Map
mapped = record zero_map { addr_start = 20480; addr_end = 24576; r = true; total_num_pages = 1 }

abbrev table : List Map → ℕ → MemInfo
table maps count = record {
  pid = 7;
  maps_count = count;
  maps_max_capacity = 3;
  pages_count = 0;
  writable_pages_count = 0;
  paged_pages_count = 0;
  pages_max_capacity = 0;
  max_num_pages_in_mem_region = 2;
  maps = maps;
  pages = [];
  wmem = λ q. 0;
}

abbrev ini : MemInfo
ini = table (code ∷ heap ∷ zero_map ∷ []) 2

abbrev fin : MemInfo
fin = table (code ∷ grown ∷ mapped ∷ []) 3

ini-IsTable : IsTable ini
ini-IsTable = record {
  sized = refl;
  within = omega arith;
  nonempty = omega arith;
  small = omega arith;
}

fin-IsTable : IsTable fin
fin-IsTable = record {
  sized = refl;
  within = omega arith;
  nonempty = omega arith;
  small = omega arith;
}

events_test :
    merge (live ini) (live fin)
    ≡ pair identical code code ∷ pair added_and_removed heap grown ∷ fresh mapped ∷ []
unfolding merge classify same_region same_start
events_test = refl

diff_process_maps-Result_example :
    (d : MemDiff) × (diff_process_maps ini fin ≡ finished d) × Result (live ini) (live fin) d
diff_process_maps-Result_example =
    diff_process_maps-Result ini fin ini-IsTable fin-IsTable (omega arith)

-- The difference of the two states.
abbrev d : MemDiff
d = (diff_process_maps-Result ini fin ini-IsTable fin-IsTable (omega arith)).0

ends : diff_process_maps ini fin ≡ finished d
ends = (diff_process_maps-Result ini fin ini-IsTable fin-IsTable (omega arith)).1

modified_covers_example : Kept heap (live fin) (live d.modified)
modified_covers_example =
    modified_covers ini fin ini-IsTable fin-IsTable (omega arith) d ends heap (inr (inl refl))

added_covers_example : Accounted mapped (live ini) (live d.added)
added_covers_example =
    added_covers ini fin ini-IsTable fin-IsTable (omega arith) d ends mapped (inr (inr (inl refl)))

no_change_iff_example :
    AllSame (live ini) (live fin) ↔ ((live d.modified ≡ []) × (live d.added ≡ []))
no_change_iff_example = no_change_iff ini fin ini-IsTable fin-IsTable (omega arith) d ends
