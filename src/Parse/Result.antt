-- ===== src/Parse/Result.antt =====
-- The table that `read_maps` leaves for the maps of a process.
use faasafe.Prelude.{
  arith, ◌≡◌, ℕ, List, ◌+◌, ◌^◌, ◌<◌, ◌≤◌, length, ap, ◌∙◌, get_or, All, refl, [], ◌∷◌,
}
use faasafe.Types.{Bytes, Map, MemInfo, zero_map}
use faasafe.Maps.{init_process_mem_info}
use faasafe.Maps.Rows.{pid-add_to_maps}
use faasafe.Maps.Table.{map_at, pages_before, max_maps, IsTable}
use faasafe.Pagemap.Scan.{IsFresh}
use faasafe.Pagemap.Table.{IsLaidOut}
use faasafe.Parse.Entry.{Entry}
use faasafe.Parse.ReadMaps.{with_indexes, read_maps}
use faasafe.Parse.Chunks.{
  AllWhole, maps_of_all, count_maps, read_maps-count_maps, Totals, count_map,
}
use faasafe.Parse.LaidOut.{
  total_of, with_table, no_totals, no_totals-IsFilled, count_maps-IsFilled, count_maps-rows,
  IsFilled-IsLaidOut,
}

-- The table holds the maps `ms`, ready for the reading of the pagemap, and `npages` counts their pages.
pub record IsReadMaps (ms : List Map) (ps : MemInfo) (npages : ℕ) : Type 0 where
  pub table : IsTable ps
  pub laid : IsLaidOut (with_table ps)
  pub pages : npages ≡ pages_before ps ps.maps_count
  pub number : ps.maps_count ≡ length ms
  pub rows :
      (i : ℕ)
      → i < length ms
      → (a : ℕ) × (b : ℕ) × (map_at ps i ≡ with_indexes (get_or ms i zero_map) a b)

count_maps-IsReadMaps :
    (ms : List Map) (pid : ℕ)
    → All IsFresh ms
    → length ms ≤ max_maps
    → total_of ms < 2 ^ 31
    → IsReadMaps ms (count_maps ms (no_totals pid)).ps (count_maps ms (no_totals pid)).pages
unfolding init_process_mem_info
count_maps-IsReadMaps ms pid fresh room small =
    let t = no_totals pid in
    let (filled, total, number) =
      count_maps-IsFilled ms t (no_totals-IsFilled pid) fresh (omega arith) (omega arith) in
    let (_, rows) =
      count_maps-rows ms t (no_totals-IsFilled pid) fresh (omega arith) (omega arith) in
    record {
      table = filled.table;
      laid = IsFilled-IsLaidOut (count_maps ms t) filled (omega (arith, total));
      pages = filled.pages;
      number = omega (arith, number);
      rows = λ i lt.
          let (a, b, e) = rows i lt in
          let here : i ≡ 0 + i = omega arith in (a, b, ap (map_at (count_maps ms t).ps) here ∙ e);
    }

-- If each read of the maps delivers whole lines, none of a map that is skipped, and the lines
-- describe maps of whole pages in the lower half of the address space, each of less than 2 GiB,
-- with less than 2 ^ 31 pages and at most 2 ^ 29 maps in all, then `read_maps` fills an empty table
-- with the maps, in order, and their first pages are numbered one map after the other; its result
-- is the number of pages.
pub read_maps-IsReadMaps :
    (unread : Bytes) (chunks : List (List ℕ)) (lss : List (List Entry)) (pid : ℕ)
    → AllWhole chunks lss
    → All IsFresh (maps_of_all lss)
    → length (maps_of_all lss) ≤ max_maps
    → total_of (maps_of_all lss) < 2 ^ 31
    → IsReadMaps
        (maps_of_all lss)
        (read_maps unread chunks (init_process_mem_info pid)).0
        (read_maps unread chunks (init_process_mem_info pid)).1
read_maps-IsReadMaps unread chunks lss pid whole fresh room small =
    rw (read_maps-count_maps unread chunks lss (init_process_mem_info pid) whole)
      (count_maps-IsReadMaps (maps_of_all lss) pid fresh room small)

pid-count_maps : (ms : List Map) (t : Totals) → (count_maps ms t).ps.pid ≡ t.ps.pid
pid-count_maps [] t = refl
pid-count_maps (m ∷ ms) t = pid-count_maps ms (count_map m t) ∙ pid-add_to_maps t.ps _

-- The table is that of the process.
pub pid-read_maps :
    (unread : Bytes) (chunks : List (List ℕ)) (lss : List (List Entry)) (ps : MemInfo)
    → AllWhole chunks lss
    → (read_maps unread chunks ps).0.pid ≡ ps.pid
pid-read_maps unread chunks lss ps whole =
    rw (read_maps-count_maps unread chunks lss ps whole) (pid-count_maps (maps_of_all lss) _)
