-- ===== src/Snapshot/Capture.antt =====
-- A checkpoint reads the pagemap, then copies what it found resident.
use faasafe.Prelude.{
  refl, zero, suc, arith, ◌≡◌, ℕ, List, get_or, ◌+◌, ltb, ◌<◌, ◌≤◌, ◌∙◌, ap, false, sym, length,
  true, ◌/◌,
}
use faasafe.Types.{Map, MemInfo, Bytes, zero_map, page_pfn, zero_page, Page, page_size}
use faasafe.Outcome.{returned}
use faasafe.Memory.{MemFile, Delivers}
use faasafe.Maps.Table.{map_at, pages_before_mono}
use faasafe.Pagemap.{PagemapFile, parse_page}
use faasafe.Pagemap.Scan.{count_of}
use faasafe.Pagemap.Table.{IsLaidOut, IsRead, bits_of, resident_before, resident_before-le}
use faasafe.Snapshot.{populate_memory_copy_info}
use faasafe.Snapshot.Pages.{IsCaptured, Holds, rank, page_of, is_resident}
use faasafe.Snapshot.Layout.{offset, placed, populate_memory_copy_info-Stored}

module _ (f : PagemapFile) (ps ps' : MemInfo) (laid : IsLaidOut ps) (read : IsRead f ps ps') where
  pfn_at :
      (i p : ℕ)
      → i < ps.maps_count
      → p < (map_at ps i).total_num_pages
      → (page_of ps' (map_at ps' i) p).pfn ≡ page_pfn (bits_of f (map_at ps i) p)
  unfolding parse_page
  pfn_at i p h lt =
      ap (λ n. (get_or ps'.pages (n + p) zero_page).pfn) (read.counts i h).page_index
      ∙ ap (λ (x : Page). x.pfn) (read.stored i p h lt)

  -- The rank of a page is the number of resident entries before it.
  rank-count_of :
      (i : ℕ)
      → i < ps.maps_count
      → (n : ℕ) → n ≤ (map_at ps i).total_num_pages
      → rank ps' (map_at ps' i) n ≡ count_of (λ k. ltb 0 (page_pfn (bits_of f (map_at ps i) k))) n
  rank-count_of i h zero le = refl
  rank-count_of i h (suc n) le =
      rw (rank-count_of i h n (omega arith), pfn_at i n h (omega arith)) refl

  offset-resident_before : (i : ℕ) → i ≤ ps.maps_count → offset ps' i ≡ resident_before f ps i
  offset-resident_before zero h = refl
  offset-resident_before (suc i) h =
      omega (arith, offset-resident_before i (omega arith), (read.counts i (omega arith)).paged)

  placed-IsCaptured : (i : ℕ) → i < ps'.maps_count → IsCaptured ps' (placed ps' i)
  placed-IsCaptured i h' =
      let h : i < ps.maps_count = omega (arith, read.same_maps) in
      let c = read.counts i h in
      let fresh = laid.fresh i h in
      let ranks : rank ps' (map_at ps' i) (map_at ps i).total_num_pages
          ≡ (map_at ps' i).total_num_paged_pages =
        rank-count_of i h (map_at ps i).total_num_pages (omega arith) ∙ sym c.paged in
      let total : rank ps' (map_at ps' i) (map_at ps' i).total_num_pages
          ≡ (map_at ps' i).total_num_paged_pages =
        rw c.pages ranks in
      record {
        range = omega (arith, c.end, c.start, c.pages, fresh.range);
        below = omega (arith, c.end, fresh.below);
        small = omega (arith, c.pages, fresh.small);
        paged = sym total;
        page_table = omega (
          arith,
          c.page_index,
          laid.index i h,
          pages_before_mono ps i ps.maps_count (omega arith),
          laid.room,
          laid.small,
        );
        buffer = omega (
          arith,
          offset-resident_before i (omega arith),
          resident_before-le f ps i,
          pages_before_mono ps i ps.maps_count (omega arith),
          laid.room,
          laid.small,
        );
      }

-- The checkpointed map `i` of `ps` is that of the table `before`, its resident pages are those
-- whose entries in the pagemap have a page frame number, and the buffer holds them.
pub record IsCheckpointed (pf : PagemapFile) (before ps : MemInfo) (memory : Bytes) (i : ℕ)
    : Type 0 where
  pub start : (map_at ps i).addr_start ≡ (map_at before i).addr_start
  pub pages : (map_at ps i).total_num_pages ≡ (map_at before i).total_num_pages
  pub resident :
      (p : ℕ)
      → p < (map_at before i).total_num_pages
      → is_resident ps (map_at ps i) p
        ≡ ltb 0 (page_pfn (pf.entry ((map_at before i).addr_start / page_size + p)))
  pub captured : IsCaptured ps (map_at ps i)
  pub holds : Holds ps (map_at ps i) (map_at ps i).total_num_pages memory ps.wmem

module _ (pf : PagemapFile) (f : MemFile) (delivers : Delivers f) (memory : Bytes) (ps : MemInfo)
    (laid : IsLaidOut ps) where
  copied-IsCheckpointed :
      (i : ℕ)
      → i < ps.maps_count
      → (read : MemInfo) (ms : List Map) (wmem : Bytes) → IsRead pf ps read
      → get_or ms i zero_map ≡ placed read i
      → Holds read (placed read i) (placed read i).total_num_pages memory wmem
      → IsCheckpointed pf ps (record read { maps = ms; wmem = wmem }) memory i
  copied-IsCheckpointed i h read ms wmem is_read is_placed holds =
      let c = is_read.counts i h in
      let d = placed-IsCaptured pf ps read laid is_read i (omega (arith, is_read.same_maps)) in
      record {
        start = rw is_placed c.start;
        pages = rw is_placed c.pages;
        resident = λ p lt.
            let inside : ltb p (map_at ps i).total_num_pages ≡ true = ground arith in
            rw is_placed (ap (ltb 0) (pfn_at pf ps read laid is_read i p h lt ∙ rw inside refl));
        captured = rw is_placed (record {
          range = d.range;
          below = d.below;
          small = d.small;
          paged = d.paged;
          page_table = d.page_table;
          buffer = d.buffer;
        });
        holds = rw is_placed holds;
      }

  -- Copying the memory after the pagemap has been read.
  pub populate_memory_copy_info-IsCheckpointed :
      (read : MemInfo)
      → IsRead pf ps read
      → (ps' : MemInfo) × (populate_memory_copy_info f memory read false ≡ returned ps')
        × (ps'.maps_count ≡ ps.maps_count)
        × (ps'.maps_count ≤ length ps'.maps)
        × ((i : ℕ) → i < ps.maps_count → IsCheckpointed pf ps ps' memory i)
  populate_memory_copy_info-IsCheckpointed read is_read =
      let (ms, wmem, copies, stored, long) =
        populate_memory_copy_info-Stored f delivers memory read
          (placed-IsCaptured pf ps read laid is_read) is_read.long in
      (
        record read { maps = ms; wmem = wmem },
        copies,
        is_read.same_maps,
        long,
        λ i h.
            let (is_placed, holds) = stored i (omega (arith, is_read.same_maps)) in
            copied-IsCheckpointed i h read ms wmem is_read is_placed holds,
      )
