-- ===== src/Parse/LaidOut.antt =====
-- The table that `read_maps` leaves is what the reading of the pagemap asks for.
use faasafe.Word.{to_int, add64, of_int}
use faasafe.Maps.Rows.{
  map_at-add_to_maps_new, pages_before-add_to_maps_all, counters-add_to_maps,
  pages_before-add_to_maps, map_at-add_to_maps_old,
}
use faasafe.Prelude.{
  refl, zero, suc, [], ◌∷◌, arith, ◌≡◌, ℕ, List, ◌+◌, ◌^◌, ◌<◌, ◌≤◌, length, ap, ◌∙◌, get_or,
  ℕ_discrete, replicate, length-replicate, sym, All,
}
use faasafe.Types.{Map, MemInfo, zero_page, zero_map}
use faasafe.Maps.{add_to_maps, init_process_mem_info}
use faasafe.Maps.Table.{
  map_at, pages_before, IsTable, max_maps, live-add_to_maps, maps_count-add_to_maps, init-IsTable,
}
use faasafe.Pagemap.Scan.{IsFresh}
use faasafe.Pagemap.Table.{IsLaidOut}
use faasafe.Parse.ReadMaps.{with_indexes}
use faasafe.Parse.Chunks.{Totals, count_map, count_maps}

-- The pages of the maps.
abbrev pub total_of : List Map → ℕ
total_of [] = 0
total_of (m ∷ ms) = m.total_num_pages + total_of ms

-- The table so far.
pub record IsFilled (t : Totals) : Type 0 where
  pub table : IsTable t.ps
  pub fresh : (i : ℕ) → i < t.ps.maps_count → IsFresh (map_at t.ps i)
  pub index : (i : ℕ) → i < t.ps.maps_count → (map_at t.ps i).first_page_index ≡ pages_before t.ps i
  pub pages : t.pages ≡ pages_before t.ps t.ps.maps_count
  pub capacity : t.ps.pages_max_capacity ≡ pages_before t.ps t.ps.maps_count
  pub no_pages : t.ps.pages_count ≡ 0
  pub no_paged : t.ps.paged_pages_count ≡ 0

IsFresh-with_indexes : (m : Map) (a b : ℕ) → IsFresh m → IsFresh (with_indexes m a b)
IsFresh-with_indexes m a b f = record {
  populated = f.populated;
  paged = f.paged;
  soft_dirty = f.soft_dirty;
  freed = f.freed;
  small = f.small;
  range = f.range;
  below = f.below;
}

add_pages : (a b : ℕ) → a + b < 2 ^ 31 → to_int (add64 (of_int a) b) ≡ a + b
add_pages a b h = ground arith

module _ (t : Totals) (filled : IsFilled t) (m : Map) (fresh : IsFresh m)
    (room : t.ps.maps_count < max_maps)
    (small : pages_before t.ps t.ps.maps_count + m.total_num_pages < 2 ^ 31) where
  abbrev added : Map
  added = with_indexes m t.pages t.writable_pages

  count_map-index :
      (i : ℕ)
      → i < t.ps.maps_count + 1
      → IsFresh (map_at (add_to_maps t.ps added) i)
        × ((map_at (add_to_maps t.ps added) i).first_page_index
            ≡ pages_before (add_to_maps t.ps added) i)
  count_map-index i lt = elim (ℕ_discrete i t.ps.maps_count) [
    | yes e ↦
        rw
          (
            e,
            map_at-add_to_maps_new t.ps filled.table room added,
            pages_before-add_to_maps t.ps filled.table room added t.ps.maps_count (omega arith),
          )
          (IsFresh-with_indexes m t.pages t.writable_pages fresh, ground (arith, filled.pages))
    | no ne ↦
        rw
          (
            map_at-add_to_maps_old t.ps filled.table room added i (omega arith),
            pages_before-add_to_maps t.ps filled.table room added i (omega arith),
          )
          (filled.fresh i (omega arith), filled.index i (omega arith))
  ]

  count_map-IsFilled : IsFilled (count_map m t)
  count_map-IsFilled =
      let count = maps_count-add_to_maps t.ps filled.table room added in
      let all = pages_before-add_to_maps_all t.ps filled.table room added in
      let counters = counters-add_to_maps t.ps filled.table room added in
      record {
        table = (live-add_to_maps t.ps filled.table room added).0;
        fresh = λ i lt. (count_map-index i (omega (arith, count))).0;
        index = λ i lt. (count_map-index i (omega (arith, count))).1;
        pages =
            ap (λ n. to_int (add64 (of_int n) m.total_num_pages)) filled.pages
            ∙ add_pages (pages_before t.ps t.ps.maps_count) m.total_num_pages small
            ∙ sym all;
        capacity = omega (arith, counters.0, all, filled.capacity, small);
        no_pages = counters.1 ∙ filled.no_pages;
        no_paged = omega (arith, counters.2, filled.no_paged, fresh.paged);
      }

pub count_maps-IsFilled :
    (ms : List Map) (t : Totals)
    → IsFilled t
    → All IsFresh ms
    → t.ps.maps_count + length ms ≤ max_maps
    → pages_before t.ps t.ps.maps_count + total_of ms < 2 ^ 31
    → IsFilled (count_maps ms t)
      × (pages_before (count_maps ms t).ps (count_maps ms t).ps.maps_count
          ≡ pages_before t.ps t.ps.maps_count + total_of ms)
      × ((count_maps ms t).ps.maps_count ≡ t.ps.maps_count + length ms)
count_maps-IsFilled [] t filled fresh room small = (filled, omega arith, omega arith)
count_maps-IsFilled (m ∷ ms) t filled fresh room small =
    let one = count_map-IsFilled t filled m fresh.0 (omega arith) (omega arith) in
    let v = with_indexes m t.pages t.writable_pages in
    let count = maps_count-add_to_maps t.ps filled.table (omega arith) v in
    let pages = pages_before-add_to_maps_all t.ps filled.table (omega arith) v in
    let (rest, total, number) =
      count_maps-IsFilled ms (count_map m t) one fresh.1 (omega (arith, count))
        (omega (arith, pages)) in
    (rest, omega (arith, total, pages), omega (arith, number, count))

abbrev pub no_totals : ℕ → Totals
no_totals pid = record { pages = 0; writable_pages = 0; ps = init_process_mem_info pid }

pub no_totals-IsFilled : (pid : ℕ) → IsFilled (no_totals pid)
unfolding init_process_mem_info
no_totals-IsFilled pid = record {
  table = init-IsTable pid;
  fresh = λ i lt. absurd (omega arith);
  index = λ i lt. absurd (omega arith);
  pages = refl;
  capacity = refl;
  no_pages = refl;
  no_paged = refl;
}

-- The table of pages that `init_pages_info` allocates.
abbrev pub with_table : MemInfo → MemInfo
with_table ps = record ps { pages = replicate ps.pages_max_capacity zero_page }

pages_before-with_table :
    (ps : MemInfo) (i : ℕ) → pages_before (with_table ps) i ≡ pages_before ps i
pages_before-with_table ps zero = refl
pages_before-with_table ps (suc i) =
    ap (λ n. n + (map_at ps i).total_num_pages) (pages_before-with_table ps i)

pub IsFilled-IsLaidOut :
    (t : Totals)
    → IsFilled t
    → pages_before t.ps t.ps.maps_count < 2 ^ 31
    → IsLaidOut (with_table t.ps)
IsFilled-IsLaidOut t filled small = record {
  fresh = filled.fresh;
  index = λ i lt. filled.index i lt ∙ sym (pages_before-with_table t.ps i);
  table = omega (arith, filled.table.sized, filled.table.within);
  sized = length-replicate t.ps.pages_max_capacity zero_page;
  room = omega (arith, pages_before-with_table t.ps t.ps.maps_count, filled.capacity);
  small = omega (arith, filled.capacity, small);
  no_pages = filled.no_pages;
  no_paged = filled.no_paged;
}

-- The first of the added maps, or one of the others.
count_maps-row :
    (m : Map) (ms : List Map) (t : Totals)
    → IsFilled t
    → t.ps.maps_count < max_maps
    → let t' = count_map m t in
      ((i : ℕ) → i < t'.ps.maps_count → map_at (count_maps ms t').ps i ≡ map_at t'.ps i)
      → ((i : ℕ)
          → i < length ms
          → (a : ℕ) × (b : ℕ) × (map_at (count_maps ms t').ps (t'.ps.maps_count + i)
              ≡ with_indexes (get_or ms i zero_map) a b))
      → t'.ps.maps_count ≡ t.ps.maps_count + 1
      → (i : ℕ) → i < length (m ∷ ms)
      → (a : ℕ) × (b : ℕ) × (map_at (count_maps ms t').ps (t.ps.maps_count + i)
          ≡ with_indexes (get_or (m ∷ ms) i zero_map) a b)
count_maps-row m ms t filled room before rows count zero lt =
    let here : t.ps.maps_count + 0 ≡ t.ps.maps_count = omega arith in
    (
      t.pages,
      t.writable_pages,
      ap (map_at (count_maps ms (count_map m t)).ps) here
          ∙ before t.ps.maps_count (omega (arith, count))
          ∙ map_at-add_to_maps_new t.ps filled.table room (with_indexes m t.pages t.writable_pages),
    )
count_maps-row m ms t filled room before rows count (suc i) lt =
    let (a, b, e) = rows i (omega arith) in
    let there : t.ps.maps_count + suc i ≡ (count_map m t).ps.maps_count + i =
      omega (arith, count) in
    (a, b, ap (map_at (count_maps ms (count_map m t)).ps) there ∙ e)

-- The maps before stay in place, and each added one stands in its row, with its indexes.
pub count_maps-rows :
    (ms : List Map) (t : Totals)
    → IsFilled t
    → All IsFresh ms
    → t.ps.maps_count + length ms ≤ max_maps
    → pages_before t.ps t.ps.maps_count + total_of ms < 2 ^ 31
    → ((i : ℕ) → i < t.ps.maps_count → map_at (count_maps ms t).ps i ≡ map_at t.ps i)
      × ((i : ℕ)
          → i < length ms
          → (a : ℕ) × (b : ℕ) × (map_at (count_maps ms t).ps (t.ps.maps_count + i)
              ≡ with_indexes (get_or ms i zero_map) a b))
count_maps-rows [] t filled fresh room small = (λ i lt. refl, λ i lt. absurd (omega arith))
count_maps-rows (m ∷ ms) t filled fresh room small =
    let one = count_map-IsFilled t filled m fresh.0 (omega arith) (omega arith) in
    let v = with_indexes m t.pages t.writable_pages in
    let count = maps_count-add_to_maps t.ps filled.table (omega arith) v in
    let pages = pages_before-add_to_maps_all t.ps filled.table (omega arith) v in
    let (before, rows) =
      count_maps-rows ms (count_map m t) one fresh.1 (omega (arith, count))
        (omega (arith, pages)) in
    (
      λ i lt.
          before i (omega (arith, count))
          ∙ map_at-add_to_maps_old t.ps filled.table (omega arith) v i lt,
      λ i lt. count_maps-row m ms t filled (omega arith) before rows count i lt,
    )
