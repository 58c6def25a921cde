-- ===== src/Cycle/Reread.antt =====
-- What `capture_process_state` reads of a process that still has the maps of its checkpoint.
use faasafe.Restore.Table.{on_map}
use faasafe.Word.{add64, mul64}
use faasafe.Checkpoint.Clean.{AllClean}
use faasafe.Cycle.Written.{IsWritten}
use faasafe.Restore.Round.{is_stale}
use faasafe.Restore.Whole.{AgreesIfClean}
use faasafe.Snapshot.Pages.{page_of, IsCaptured, Holds}
use faasafe.Pagemap.Scan.{Counts, IsFresh, count_of-none, entry_page}
use faasafe.Parse.LaidOut.{with_table}
use faasafe.Pagemap.Table.{IsRead, bits_of}
use faasafe.Maps.Table.{map_at, pages_before, IsTable}
use faasafe.Parse.Chunks.{maps_of_all}
use faasafe.Parse.Result.{IsReadMaps}
use faasafe.Mappings.Kept.{SameOutline, SameOutlines}
use faasafe.Parse.ReadMaps.{with_indexes}
use faasafe.Pagemap.{PagemapFile, parse_page}
use faasafe.Parse.Entry.{Entry}
use faasafe.Prelude.{
  refl, ◌≡◌, ℕ, List, zero, suc, true, false, arith, length, ◌<◌, get_or, ◌/◌, ◌∙◌, ◌≤◌, ap, sym,
  ◌+◌, ltb, ◌*◌, ◌^◌,
}
use faasafe.Types.{
  Map, MemInfo, zero_map, Bytes, is_page_soft_dirty, page_size, is_page_freed, zero_page, Page,
}

-- A checkpointed state of a process with these maps, whose resident memory was `old`: clean, with
-- the pages of the maps in order in the table of pages, and the resident ones in the buffer; the
-- maps are not empty, and lie apart.
pub record IsCheckpointOf (lss : List (List Entry)) (old : Bytes) (ini : MemInfo) : Type 0 where
  pub number : ini.maps_count ≡ length (maps_of_all lss)
  pub outlines :
      (i : ℕ)
      → i < ini.maps_count
      → SameOutline (map_at ini i) (get_or (maps_of_all lss) i zero_map)
  pub index : (i : ℕ) → i < ini.maps_count → (map_at ini i).first_page_index ≡ pages_before ini i
  pub table : IsTable ini
  pub clean : AllClean ini
  pub nonempty : (i : ℕ) → i < ini.maps_count → 0 < (map_at ini i).total_num_pages
  pub captured : (i : ℕ) → i < ini.maps_count → IsCaptured ini (map_at ini i)
  pub addresses :
      (i : ℕ)
      → i < ini.maps_count
      → (j : ℕ) → j < (map_at ini i).total_num_pages
      → (page_of ini (map_at ini i) j).addr_start ≡ (map_at ini i).addr_start + j * page_size
  pub holds :
      (i : ℕ)
      → i < ini.maps_count
      → Holds ini (map_at ini i) (map_at ini i).total_num_pages old ini.wmem
  pub apart :
      (i j : ℕ)
      → i < ini.maps_count
      → j < ini.maps_count
      → ¬ (i ≡ j)
      → (q : ℕ) → on_map ini i q ≡ true
      → on_map ini j q ≡ false
  pub few_pages : pages_before ini ini.maps_count ≤ ini.pages_count
  pub page_count : ini.pages_count < 2 ^ 64

-- The promise of the pagemap: a page whose entry is neither soft-dirty nor freed is as it was in `old`.
abbrev pub IsTracked : PagemapFile → MemInfo → Bytes → Bytes → Type 0
IsTracked pf ini old memory =
    (i : ℕ)
    → i < ini.maps_count
    → (j : ℕ) → j < (map_at ini i).total_num_pages
    → is_page_soft_dirty (pf.entry ((map_at ini i).addr_start / page_size + j)) ≡ false
    → is_page_freed (pf.entry ((map_at ini i).addr_start / page_size + j)) ≡ false
    → (k : ℕ) → k < page_size
    → memory ((map_at ini i).addr_start + j * page_size + k)
      ≡ old ((map_at ini i).addr_start + j * page_size + k)

SameOutline-with_indexes :
    (m m' c : Map) (a b : ℕ) → c ≡ with_indexes m' a b → SameOutline m m' → SameOutline m c
SameOutline-with_indexes m m' c a b e o =
    rw e (record { start = o.start; end = o.end; r = o.r; w = o.w; x = o.x; name = o.name })

module _ (pf : PagemapFile) (lss : List (List Entry)) (old memory : Bytes) (ini cur fin : MemInfo)
    (npages : ℕ) (base : IsCheckpointOf lss old ini)
    (parsed : IsReadMaps (maps_of_all lss) cur npages) (read : IsRead pf (with_table cur) fin)
    (tracked : IsTracked pf ini old memory) where
  same_count : ini.maps_count ≡ cur.maps_count
  same_count = base.number ∙ sym parsed.number

  cur-SameOutline : (i : ℕ) → i < ini.maps_count → SameOutline (map_at ini i) (map_at cur i)
  cur-SameOutline i lt =
      let (a, b, e) = parsed.rows i (omega (arith, base.number)) in
      SameOutline-with_indexes (map_at ini i) _ (map_at cur i) a b e (base.outlines i lt)

  pub cur-SameOutlines : SameOutlines ini cur
  cur-SameOutlines = record { count = same_count; outlines = cur-SameOutline }

  counts :
      (i : ℕ)
      → i < ini.maps_count
      → Counts
          (bits_of pf (map_at cur i))
          (map_at cur i)
          (map_at cur i).total_num_pages
          (map_at fin i)
  counts i lt = read.counts i (omega (arith, same_count))

  pub fin-SameOutlines : SameOutlines ini fin
  fin-SameOutlines = record {
    count = same_count ∙ sym read.same_maps;
    outlines = λ i lt.
        let o = cur-SameOutline i lt in
        let c = counts i lt in
        record {
          start = o.start ∙ sym c.start;
          end = o.end ∙ sym c.end;
          r = o.r ∙ sym c.r;
          w = o.w ∙ sym c.w;
          x = o.x ∙ sym c.x;
          name = o.name ∙ sym c.name;
        };
  }

  pub fin-IsTable : IsTable fin
  fin-IsTable =
      let t = parsed.table in
      record {
        sized = omega (arith, read.same_length, read.same_capacity, t.sized);
        within = omega (arith, read.same_maps, read.same_capacity, t.within);
        nonempty = omega (arith, read.same_capacity, t.nonempty);
        small = omega (arith, read.same_capacity, t.small);
      }

  fresh : (i : ℕ) → i < ini.maps_count → IsFresh (map_at cur i)
  fresh i lt = parsed.laid.fresh i (omega (arith, same_count))

  same_pages :
      (i : ℕ) → i < ini.maps_count → (map_at ini i).total_num_pages ≡ (map_at cur i).total_num_pages
  same_pages i lt =
      let o = cur-SameOutline i lt in
      omega (arith, o.start, o.end, (fresh i lt).range, (base.captured i lt).range)

  same_before : (i : ℕ) → i ≤ ini.maps_count → pages_before ini i ≡ pages_before (with_table cur) i
  same_before zero le = refl
  same_before (suc i) le = omega (arith, same_before i (omega arith), same_pages i (omega arith))

  same_index :
      (i : ℕ)
      → i < ini.maps_count
      → (map_at ini i).first_page_index ≡ (map_at cur i).first_page_index
  same_index i lt =
      base.index i lt
      ∙ same_before i (omega arith)
      ∙ sym (parsed.laid.index i (omega (arith, same_count)))

  -- Page `j` of the map `i`, as it is read now.
  page_now :
      (i j : ℕ)
      → i < ini.maps_count
      → j < (map_at ini i).total_num_pages
      → page_of fin (map_at ini i) j ≡ entry_page (bits_of pf (map_at cur i)) i (map_at cur i) j
  page_now i j lt jl =
      ap (λ n. get_or fin.pages (n + j) zero_page) (same_index i lt)
      ∙ read.stored i j (omega (arith, same_count)) (omega (arith, same_pages i lt))

  entry_now :
      (i j : ℕ)
      → i < ini.maps_count
      → j < (map_at ini i).total_num_pages
      → bits_of pf (map_at cur i) j ≡ pf.entry ((map_at ini i).addr_start / page_size + j)
  entry_now i j lt jl =
      let within : ltb j (map_at cur i).total_num_pages ≡ true = ground (arith, same_pages i lt) in
      rw (within, (cur-SameOutline i lt).start) refl

  bits_now :
      (i j : ℕ)
      → i < ini.maps_count
      → j < (map_at ini i).total_num_pages
      → ((page_of fin (map_at ini i) j).soft_dirty
          ≡ is_page_soft_dirty (bits_of pf (map_at cur i) j))
        × ((page_of fin (map_at ini i) j).is_freed ≡ is_page_freed (bits_of pf (map_at cur i) j))
        × ((page_of fin (map_at ini i) j).addr_start ≡ (map_at ini i).addr_start + j * page_size)
  unfolding parse_page
  bits_now i j lt jl =
      let f = fresh i lt in
      let o = cur-SameOutline i lt in
      let at : (page_of fin (map_at ini i) j).addr_start
          ≡ add64 (map_at cur i).addr_start (mul64 j page_size) =
        ap (λ (p : Page). p.addr_start) (page_now i j lt jl) in
      (
        ap (λ (p : Page). p.soft_dirty) (page_now i j lt jl),
        ap (λ (p : Page). p.is_freed) (page_now i j lt jl),
        omega (arith, at, o.start, f.small, f.below, f.range, same_pages i lt),
      )

  fin-AgreesIfClean : (i : ℕ) → i < ini.maps_count → AgreesIfClean ini fin (map_at ini i) old memory
  fin-AgreesIfClean i lt j jl res clean k kl =
      let (dirty, freed, _) = bits_now i j lt jl in
      let both : ((page_of fin (map_at ini i) j).soft_dirty ≡ false)
          × ((page_of fin (map_at ini i) j).is_freed ≡ false) =
        ground (arith, res, clean) in
      tracked i lt j jl (ap is_page_soft_dirty (sym (entry_now i j lt jl)) ∙ sym dirty ∙ both.0)
        (ap is_page_freed (sym (entry_now i j lt jl)) ∙ sym freed ∙ both.1) k kl

  fin-counted :
      (i : ℕ)
      → i < ini.maps_count
      → (map_at fin i).soft_dirty_count ≡ 0
      → (map_at fin i).freed_count ≡ 0
      → (j : ℕ) → j < (map_at ini i).total_num_pages
      → is_stale ini fin (map_at ini i) j ≡ false
  fin-counted i lt no_dirty no_freed j jl =
      let c = counts i lt in
      let n = (map_at cur i).total_num_pages in
      let jl' : j < n = omega (arith, same_pages i lt) in
      let (dirty, freed, _) = bits_now i j lt jl in
      let d =
        dirty
        ∙ count_of-none (λ p. is_page_soft_dirty (bits_of pf (map_at cur i) p)) n j
            (sym c.soft_dirty ∙ no_dirty) jl' in
      let e =
        freed
        ∙ count_of-none (λ p. is_page_freed (bits_of pf (map_at cur i) p)) n j
            (sym c.freed ∙ no_freed) jl' in
      rw (d, e) ground arith

  -- The two states are those of a process that has only written to its memory.
  pub reread-IsWritten : IsWritten ini fin old memory
  reread-IsWritten = record {
    outlines = fin-SameOutlines;
    clean = base.clean;
    nonempty = base.nonempty;
    aligned = λ i lt. record {
      captured = base.captured i lt;
      ini_addr = base.addresses i lt;
      fin_addr = λ j jl. let (_, _, at) = bits_now i j lt jl in at;
    };
    holds = base.holds;
    unchanged = fin-AgreesIfClean;
    counted = fin-counted;
    apart = base.apart;
    few_pages = base.few_pages;
    page_count = base.page_count;
  }
