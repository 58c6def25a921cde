-- ===== src/Pagemap.antt =====
-- groundhog_origin/src/proc_parsers.c and mem_helpers.c: reading the pagemap into the table of pages.
pub mod Scan
pub mod Table
mod Tests
use faasafe.Prelude.{
  refl, zero, suc, [], ◌∷◌, none, some, inl, inr, true, false, arith, ◌≡◌, ℕ, List, Bool, Option,
  get_or, if◌then◌else◌, ◌+◌, ◌||◌, leb, ltb, not, ◌&&◌, ◌==◌, ◌^◌, ◌*◌, ◌++◌, ◌-◌, ◌/◌, set,
  replicate,
}
use faasafe.Types.{
  Map, Page, MemInfo, page_size, zero_map, zero_page, page_pfn, is_page_present, is_page_in_swap,
  is_page_file_or_anon, is_page_exclusive, is_page_soft_dirty, is_page_freed, is_map_writeable_anon,
}
use faasafe.Word.{add64, sub64, mul64, of_int, to_int, add_int, mul_int}
use faasafe.Memory.{as_int}
use faasafe.Outcome.{Outcome, returned, aborted, ◌>>=◌}

-- The file /proc/PID/pagemap: how many bytes a `pread` at an offset delivers, the entry of each
-- page of the process, and what `malloc` leaves in a buffer that is not read into.
pub record PagemapFile : Type 0 where
  pub pread_count : ℕ → ℕ → Option ℕ
  pub entry : ℕ → ℕ
  pub unread : ℕ → ℕ

-- The updates of the map's counters in `add_page_to_map_at_index`.
unfoldable pub count_page : Page → Map → Map
count_page page m =
    let dirty_paged = page.soft_dirty && ltb 0 page.pfn in
    record m {
      total_num_paged_pages =
          if ltb 0 page.pfn then add64 m.total_num_paged_pages 1 else m.total_num_paged_pages;
      populated_num_pages = add64 m.populated_num_pages 1;
      has_freed = page.is_freed || m.has_freed;
      freed_count = if page.is_freed then add64 m.freed_count 1 else m.freed_count;
      soft_dirty_count = if page.soft_dirty then add64 m.soft_dirty_count 1 else m.soft_dirty_count;
      soft_dirty_paged_count =
          if dirty_paged then add64 m.soft_dirty_paged_count 1 else m.soft_dirty_paged_count;
      uffd_dirty_count =
          if dirty_paged && is_map_writeable_anon m
          then add64 m.uffd_dirty_count 1
          else m.uffd_dirty_count;
    }

-- `add_page_to_map_at_index`, with the `int` index.
unfoldable pub add_page_to_map_at_index : MemInfo → Page → ℕ → Outcome MemInfo
add_page_to_map_at_index ps page index =
    if ltb (of_int index) ps.pages_max_capacity
    then returned (record ps {
      pages = set ps.pages (of_int index) page;
      maps = set ps.maps page.map_index (count_page page (get_or ps.maps page.map_index zero_map));
    })
    else aborted

-- The part of `add_page_to_map` that doubles a full array; the new half is cleared.
grow_pages : ℕ → MemInfo → MemInfo
grow_pages index ps =
    if leb (of_int (to_int ps.pages_max_capacity)) index
    then record ps {
      pages_max_capacity = mul64 ps.pages_max_capacity 2;
      pages = ps.pages ++ replicate (to_int ps.pages_max_capacity) zero_page;
    }
    else ps

-- `add_page_to_map`
unfoldable pub add_page_to_map : MemInfo → Page → Outcome MemInfo
unfolding grow_pages
add_page_to_map ps page =
    let m = get_or ps.maps page.map_index zero_map in
    let index = add64 m.first_page_index m.populated_num_pages in
    add_page_to_map_at_index (grow_pages index ps) page (to_int index)

-- The page that the loop of `read_range_pagemap` makes of an entry.
unfoldable pub parse_page : ℕ → ℕ → ℕ → ℕ → Page
parse_page addr_start map_index i curr_data = record {
  addr_start = add64 addr_start (mul64 i page_size);
  page_bits = curr_data;
  pfn = page_pfn curr_data;
  soft_dirty = is_page_soft_dirty curr_data;
  file_or_anon = is_page_file_or_anon curr_data;
  exclusive = is_page_exclusive curr_data;
  swapped = is_page_in_swap curr_data;
  present = is_page_present curr_data;
  is_freed = is_page_freed curr_data;
  map_index = map_index;
}

-- The loop: `n` rounds are left, the next one is at `i`.
unfoldable pub read_entries : (ℕ → ℕ) → ℕ → ℕ → ℕ → ℕ → MemInfo → Outcome MemInfo
read_entries pagemap_bits addr_start map_index zero i ps = returned ps
read_entries pagemap_bits addr_start map_index (suc n) i ps =
    add_page_to_map ps (parse_page addr_start map_index i (pagemap_bits i)) >>= λ ps'.
    read_entries pagemap_bits addr_start map_index n (i + 1) ps'

-- The buffer `pagemap_bits` after a whole read.
abbrev pub buffer_of : PagemapFile → ℕ → ℕ → ℕ → ℕ
buffer_of f first num_entries i = if ltb i num_entries then f.entry (first + i) else f.unread i

-- `read_range_pagemap`, on map `map_index`; its result is not used.
unfoldable pub read_range_pagemap : PagemapFile → ℕ → MemInfo → Outcome MemInfo
read_range_pagemap f map_index ps =
    let m = get_or ps.maps map_index zero_map in
    let num_entries = sub64 m.addr_end m.addr_start / page_size in
    let first = m.addr_start / page_size in
    let r = as_int (f.pread_count (mul64 first 8) (mul64 num_entries 8)) in
    let bits = buffer_of f first num_entries in
    if of_int r == mul64 num_entries 8
    then (read_entries bits m.addr_start map_index m.total_num_pages 0 ps >>= λ ps'.
        returned (record ps' {
          pages_count = add64 ps'.pages_count m.total_num_pages;
          paged_pages_count =
              add64 ps'.paged_pages_count
                (get_or ps'.maps map_index zero_map).total_num_paged_pages;
        }))
    else returned ps

-- The loop of `populate_page_info`: `n` rounds are left, the next one is on map `i`.
unfoldable pub populate_page_maps : PagemapFile → ℕ → ℕ → MemInfo → Outcome MemInfo
populate_page_maps f zero i ps = returned ps
populate_page_maps f (suc n) i ps =
    read_range_pagemap f i ps >>= λ ps'. populate_page_maps f n (i + 1) ps'

-- `populate_page_info`
unfoldable pub populate_page_info : PagemapFile → MemInfo → Outcome MemInfo
populate_page_info f ps = populate_page_maps f ps.maps_count 0 ps
