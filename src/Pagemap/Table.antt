-- ===== src/Pagemap/Table.antt =====
-- All maps: the table of pages holds the pagemap, map by map.
use faasafe.Memory.{as_int}
use mathlib.Core.Path.{subst}
use native.Mathlib.Numerals.{add-one}
use faasafe.Prelude.{
  refl, zero, suc, some, inl, true, arith, ◌≡◌, ℕ, List, get_or, ◌+◌, ltb, ◌<◌, ◌≤◌, length,
  ℕ_discrete, ◌/◌, ◌^◌, ◌*◌, ◌∙◌, ap, ◌==◌,
}
use faasafe.Types.{Map, Page, MemInfo, page_size, zero_map, zero_page, page_pfn}
use faasafe.Word.{add64, sub64, mul64, of_int}
use faasafe.Outcome.{returned}
use faasafe.Maps.Table.{map_at, pages_before, pages_before_mono}
use faasafe.Pagemap.{
  PagemapFile, read_range_pagemap, populate_page_maps, populate_page_info, buffer_of, as_int,
  read_entries,
}
use faasafe.Pagemap.Scan.{
  Counts, IsFresh, ScannedTo, count_of, count_of-le, entry_page, scanned, scanned-Counts,
  read_entries-ScannedTo,
}

-- A `pread` of the pagemap delivers everything, as it does on the maps of a live process.
pub record DeliversAll (f : PagemapFile) : Type 0 where
  pub all : (off n : ℕ) → f.pread_count off n ≡ some n

-- The table as `read_maps` and `init_pages_info` leave it.
pub record IsLaidOut (ps : MemInfo) : Type 0 where
  pub fresh : (i : ℕ) → i < ps.maps_count → IsFresh (map_at ps i)
  pub index : (i : ℕ) → i < ps.maps_count → (map_at ps i).first_page_index ≡ pages_before ps i
  pub table : ps.maps_count ≤ length ps.maps
  pub sized : length ps.pages ≡ ps.pages_max_capacity
  pub room : pages_before ps ps.maps_count ≤ ps.pages_max_capacity
  pub small : ps.pages_max_capacity < 2 ^ 31
  pub no_pages : ps.pages_count ≡ 0
  pub no_paged : ps.paged_pages_count ≡ 0

-- The entries of a map.
abbrev pub bits_of : PagemapFile → Map → ℕ → ℕ
bits_of f m = buffer_of f (m.addr_start / page_size) m.total_num_pages

abbrev pub resident_of : PagemapFile → Map → ℕ
resident_of f m = count_of (λ i. ltb 0 (page_pfn (bits_of f m i))) m.total_num_pages

-- The resident pages of the maps before map `i`.
abbrev pub resident_before : PagemapFile → MemInfo → ℕ → ℕ
resident_before f ps zero = 0
resident_before f ps (suc i) = resident_before f ps i + resident_of f (map_at ps i)

pub resident_before-le :
    (f : PagemapFile) (ps : MemInfo) (i : ℕ) → resident_before f ps i ≤ pages_before ps i
resident_before-le f ps zero = omega arith
resident_before-le f ps (suc i) = omega (
  arith,
  resident_before-le f ps i,
  count_of-le (λ k. ltb 0 (page_pfn (bits_of f (map_at ps i) k))) (map_at ps i).total_num_pages,
)

-- The table once the whole pagemap has been read.
pub record IsRead (f : PagemapFile) (ps ps' : MemInfo) : Type 0 where
  pub same_maps : ps'.maps_count ≡ ps.maps_count
  pub same_pid : ps'.pid ≡ ps.pid
  pub same_capacity : ps'.maps_max_capacity ≡ ps.maps_max_capacity
  pub same_length : length ps'.maps ≡ length ps.maps
  pub long : ps'.maps_count ≤ length ps'.maps
  pub counts :
      (i : ℕ)
      → i < ps.maps_count
      → Counts (bits_of f (map_at ps i)) (map_at ps i) (map_at ps i).total_num_pages (map_at ps' i)
  pub stored :
      (i p : ℕ)
      → i < ps.maps_count
      → p < (map_at ps i).total_num_pages
      → get_or ps'.pages ((map_at ps i).first_page_index + p) zero_page
        ≡ entry_page (bits_of f (map_at ps i)) i (map_at ps i) p
  pub pages_counted : ps'.pages_count ≡ pages_before ps ps.maps_count
  pub paged_counted : ps'.paged_pages_count ≡ resident_before f ps ps.maps_count

module _ (f : PagemapFile) (delivers : DeliversAll f) where
  -- Reading the pagemap of one map.
  module _ (ps : MemInfo) (k : ℕ) (m : Map) (is_m : get_or ps.maps k zero_map ≡ m)
      (fresh : IsFresh m) (kl : k < length ps.maps)
      (room : m.first_page_index + m.total_num_pages ≤ length ps.pages)
      (sized : length ps.pages ≡ ps.pages_max_capacity)
      (small : ps.pages_max_capacity < 2 ^ 31) where
    abbrev read : List Page → List Map → MemInfo
    read pages maps = record ps {
      pages = pages;
      maps = maps;
      pages_count = add64 ps.pages_count m.total_num_pages;
      paged_pages_count = add64 ps.paged_pages_count (get_or maps k zero_map).total_num_paged_pages;
    }

    read_range_pagemap-read :
        (pages : List Page) (maps : List Map)
        → read_entries (bits_of f m) m.addr_start k m.total_num_pages 0 ps
          ≡ returned (record ps { pages = pages; maps = maps })
        → read_range_pagemap f k ps ≡ returned (read pages maps)
    unfolding read_range_pagemap
    read_range_pagemap-read pages maps runs =
        let entries : sub64 m.addr_end m.addr_start / page_size ≡ m.total_num_pages =
          omega (arith, fresh.range, fresh.below) in
        let bytes : mul64 m.total_num_pages 8 ≡ m.total_num_pages * 8 =
          omega (arith, fresh.small) in
        let whole : (of_int (as_int (some (m.total_num_pages * 8))) == m.total_num_pages * 8)
            ≡ true =
          ground (arith, fresh.small) in
        rw (is_m, entries, bytes, delivers.all, whole, runs) refl

    read_range_pagemap-ScannedTo :
        (pages : List Page) × (maps : List Map) × (read_range_pagemap f k ps
          ≡ returned (read pages maps))
        × ScannedTo (bits_of f m) k m fresh ps.pages ps.maps m.total_num_pages pages maps
    read_range_pagemap-ScannedTo =
        let (pages, maps, runs, s) =
          read_entries-ScannedTo (bits_of f m) k m fresh ps.pages ps.maps ps m.total_num_pages 0
            ps.pages ps.maps (omega arith) kl room sized small
            (record {
              pages_length = refl;
              maps_length = refl;
              here = is_m;
              other_maps = λ j ne. refl;
              stored = λ j lt. absurd (omega arith);
              other_pages = λ q out. refl;
            }) in
        (pages, maps, read_range_pagemap-read pages maps runs, s)

  module _ (ps : MemInfo) (laid : IsLaidOut ps) where
    -- The table once the maps before `i` have been read.
    record ReadTo (i : ℕ) (pages : List Page) (maps : List Map) (count paged : ℕ) : Type 0 where
      pages_length : length pages ≡ length ps.pages
      maps_length : length maps ≡ length ps.maps
      before :
          (j : ℕ)
          → j < i
          → get_or maps j zero_map
            ≡ scanned (bits_of f (map_at ps j)) j (map_at ps j) (map_at ps j).total_num_pages
      behind : (j : ℕ) → i ≤ j → get_or maps j zero_map ≡ map_at ps j
      stored :
          (j : ℕ)
          → j < i
          → (p : ℕ) → p < (map_at ps j).total_num_pages
          → get_or pages ((map_at ps j).first_page_index + p) zero_page
            ≡ entry_page (bits_of f (map_at ps j)) j (map_at ps j) p
      counted : count ≡ pages_before ps i
      paged_counted : paged ≡ resident_before f ps i

    ReadTo-next :
        (i : ℕ) (pages : List Page) (maps : List Map) (pages' : List Page) (maps' : List Map)
        → (h : i < ps.maps_count)
        → (r : ReadTo i pages maps (pages_before ps i) (resident_before f ps i))
        → ScannedTo
            (bits_of f (map_at ps i))
            i
            (map_at ps i)
            (laid.fresh i h)
            pages
            maps
            (map_at ps i).total_num_pages
            pages'
            maps'
        → ReadTo
            (suc i)
            pages'
            maps'
            (add64 (pages_before ps i) (map_at ps i).total_num_pages)
            (add64 (resident_before f ps i) (get_or maps' i zero_map).total_num_paged_pages)
    ReadTo-next i pages maps pages' maps' h r s = record {
      pages_length = s.pages_length ∙ r.pages_length;
      maps_length = s.maps_length ∙ r.maps_length;
      before = λ j lt. elim (ℕ_discrete j i) [
        | yes e ↦ rw e s.here
        | no ne ↦ s.other_maps j ne ∙ r.before j (omega arith)
      ];
      behind = λ j le. s.other_maps j (omega arith) ∙ r.behind j (omega arith);
      stored = λ j lt p pl. elim (ℕ_discrete j i) [
        | yes e ↦
            let pl' : p < (map_at ps i).total_num_pages =
              subst (λ n. p < (map_at ps n).total_num_pages) e pl in
            rw e (s.stored p pl')
        | no ne ↦
            s.other_pages ((map_at ps j).first_page_index + p) (
              inl (
                omega (
                  arith,
                  laid.index i h,
                  laid.index j (omega arith),
                  pages_before_mono ps (suc j) i (omega arith),
                )))
            ∙ r.stored j (omega arith) p pl
      ];
      counted = omega (arith, laid.room, laid.small, pages_before_mono ps (suc i) ps.maps_count h);
      paged_counted =
          let c =
            scanned-Counts (bits_of f (map_at ps i)) i (map_at ps i) (laid.fresh i h)
              (map_at ps i).total_num_pages (omega arith) in
          let here : (get_or maps' i zero_map).total_num_paged_pages ≡ resident_of f (map_at ps i) =
            ap (λ (x : Map). x.total_num_paged_pages) s.here ∙ c.paged in
          omega (
            arith,
            here,
            laid.room,
            laid.small,
            pages_before_mono ps (suc i) ps.maps_count h,
            resident_before-le f ps (suc i),
          );
    }

    abbrev state : List Page → List Map → ℕ → ℕ → MemInfo
    state pages maps count paged = record ps {
      pages = pages;
      maps = maps;
      pages_count = count;
      paged_pages_count = paged;
    }

    state_cong :
        (pages : List Page) (maps : List Map) (c d c' d' : ℕ)
        → c ≡ c'
        → d ≡ d'
        → returned (state pages maps c d) ≡ returned (state pages maps c' d')
    state_cong pages maps c d c' d' e e' = rw (e, e') refl

    ReadTo-cong :
        (i : ℕ) (pages : List Page) (maps : List Map) (c d c' d' : ℕ)
        → c ≡ c'
        → d ≡ d'
        → ReadTo i pages maps c d
        → ReadTo i pages maps c' d'
    ReadTo-cong i pages maps c d c' d' e e' r = rw (← e, ← e') r

    -- Reading the next map.
    read_range_pagemap-ReadTo :
        (i : ℕ) (pages : List Page) (maps : List Map)
        → i < ps.maps_count
        → ReadTo i pages maps (pages_before ps i) (resident_before f ps i)
        → (pages' : List Page) × (maps' : List Map) × (read_range_pagemap f i
              (state pages maps (pages_before ps i) (resident_before f ps i))
            ≡ returned
                (state pages' maps' (pages_before ps (suc i)) (resident_before f ps (suc i))))
          × ReadTo (suc i) pages' maps' (pages_before ps (suc i)) (resident_before f ps (suc i))
    read_range_pagemap-ReadTo i pages maps h r =
        let (pages1, maps1, runs, s) =
          read_range_pagemap-ScannedTo
            (state pages maps (pages_before ps i) (resident_before f ps i)) i (map_at ps i)
            (r.behind i (omega arith)) (laid.fresh i h) (omega (arith, r.maps_length, laid.table))
            (omega (
              arith,
              r.pages_length,
              laid.index i h,
              laid.sized,
              laid.room,
              pages_before_mono ps (suc i) ps.maps_count h,
            ))
            (omega (arith, r.pages_length, laid.sized)) laid.small in
        let next = ReadTo-next i pages maps pages1 maps1 h r s in
        (
          pages1,
          maps1,
          runs ∙ state_cong pages1 maps1 _ _ _ _ next.counted next.paged_counted,
          ReadTo-cong (suc i) pages1 maps1 _ _ _ _ next.counted next.paged_counted next,
        )

    populate_page_maps-ReadTo :
        (n i : ℕ) (pages : List Page) (maps : List Map)
        → i + n ≡ ps.maps_count
        → ReadTo i pages maps (pages_before ps i) (resident_before f ps i)
        → (pages' : List Page) × (maps' : List Map) × (populate_page_maps f n i
              (state pages maps (pages_before ps i) (resident_before f ps i))
            ≡ returned (
                state pages' maps'
                  (pages_before ps ps.maps_count)
                  (resident_before f ps ps.maps_count)))
          × ReadTo ps.maps_count pages' maps'
              (pages_before ps ps.maps_count)
              (resident_before f ps ps.maps_count)
    unfolding populate_page_maps
    populate_page_maps-ReadTo zero i pages maps e r =
        let e' : i ≡ ps.maps_count = omega arith in
        (
          pages,
          maps,
          rw e' refl,
          subst (λ k. ReadTo k pages maps (pages_before ps k) (resident_before f ps k)) e' r,
        )
    populate_page_maps-ReadTo (suc n) i pages maps e r =
        let (pages1, maps1, runs, r1) = read_range_pagemap-ReadTo i pages maps (omega arith) r in
        let (pages', maps', rest, done) =
          populate_page_maps-ReadTo n (suc i) pages1 maps1 (omega arith) r1 in
        (pages', maps', rw (runs, add-one) rest, done)

    -- On a table as it is laid out, with a pagemap that delivers everything, `populate_page_info`
    -- returns. The pages of every map are in its part of the table of pages,
    -- in order, as the pagemap says; its counters count them; and the state counts the pages, and
    -- the resident pages, of all maps.
    pub populate_page_info-IsRead :
        (ps' : MemInfo) × (populate_page_info f ps ≡ returned ps') × IsRead f ps ps'
    unfolding populate_page_info
    populate_page_info-IsRead =
        let (pages, maps, runs, r) =
          populate_page_maps-ReadTo ps.maps_count 0 ps.pages ps.maps (omega arith) (record {
            pages_length = refl;
            maps_length = refl;
            before = λ j lt. absurd (omega arith);
            behind = λ j le. refl;
            stored = λ j lt. absurd (omega arith);
            counted = refl;
            paged_counted = refl;
          }) in
        let from : ps ≡ state ps.pages ps.maps 0 0 = rw (laid.no_pages, laid.no_paged) refl in
        (
          state pages maps (pages_before ps ps.maps_count) (resident_before f ps ps.maps_count),
          ap (populate_page_maps f ps.maps_count 0) from ∙ runs,
          record {
            same_maps = refl;
            same_pid = refl;
            same_capacity = refl;
            same_length = r.maps_length;
            long = omega (arith, r.maps_length, laid.table);
            counts = λ i h. rw (r.before i h) (
                scanned-Counts (bits_of f (map_at ps i)) i (map_at ps i) (laid.fresh i h)
                  (map_at ps i).total_num_pages (omega arith));
            stored = λ i p h lt. r.stored i h p lt;
            pages_counted = refl;
            paged_counted = refl;
          },
        )
