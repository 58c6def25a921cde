-- ===== src/Pagemap/Scan.antt =====
-- One map: its pages go into the table in order, and its counters count them.
use mathlib.Core.Path.{subst}
use native.Mathlib.Numerals.{add-one}
use faasafe.Prelude.{
  refl, zero, suc, true, false, arith, ◌≡◌, ℕ, List, Bool, get_or, if◌then◌else◌, ◌+◌, leb, ltb,
  ◌<◌, ◌≤◌, set, length, length-set, get_or-set_self, get_or-set_ne, ℕ_discrete, sym, ◌^◌, ◌≢◌, ◌*◌,
  ◌∙◌, ◌⊎◌, ap,
}
use faasafe.Types.{
  Map, Page, MemInfo, page_size, zero_map, zero_page, page_pfn, is_page_soft_dirty, is_page_freed,
}
use faasafe.Word.{add64, of_int, to_int}
use faasafe.Outcome.{returned}
use faasafe.Pagemap.{
  count_page, add_page_to_map_at_index, add_page_to_map, grow_pages, parse_page, read_entries,
}

-- The number of entries before `n` for which a test holds.
abbrev pub count_of : (ℕ → Bool) → ℕ → ℕ
count_of test zero = 0
count_of test (suc n) = count_of test n + (if test n then 1 else 0)

pub count_of-le : (test : ℕ → Bool) (n : ℕ) → count_of test n ≤ n
count_of-le test zero = omega arith
count_of-le test (suc n) = ground (arith, count_of-le test n)

-- If none is counted, the test holds of none.
pub count_of-none : (test : ℕ → Bool) (n i : ℕ) → count_of test n ≡ 0 → i < n → test i ≡ false
count_of-none test zero i e lt = absurd (omega arith)
count_of-none test (suc n) i e lt = elim (ℕ_discrete i n) [
  | yes here ↦ rw here (ground (arith, e))
  | no ne ↦ count_of-none test n i (omega (arith, e)) (omega arith)
]

-- The map `m`, number `k`, after the entries before `n` of `bits` have been counted.
abbrev pub scanned : (ℕ → ℕ) → ℕ → Map → ℕ → Map
scanned bits k m zero = m
scanned bits k m (suc n) = count_page (parse_page m.addr_start k n (bits n)) (scanned bits k m n)

-- A map as `read_maps` leaves it.
pub record IsFresh (m : Map) : Type 0 where
  pub populated : m.populated_num_pages ≡ 0
  pub paged : m.total_num_paged_pages ≡ 0
  pub soft_dirty : m.soft_dirty_count ≡ 0
  pub freed : m.freed_count ≡ 0
  pub small : m.total_num_pages < 2 ^ 19
  pub range : m.addr_end ≡ m.addr_start + m.total_num_pages * page_size
  pub below : m.addr_end < 2 ^ 63

-- What the counting leaves as it was, and the counters.
pub record Counts (bits : ℕ → ℕ) (m : Map) (n : ℕ) (m' : Map) : Type 0 where
  pub paged : m'.total_num_paged_pages ≡ count_of (λ i. ltb 0 (page_pfn (bits i))) n
  pub soft_dirty : m'.soft_dirty_count ≡ count_of (λ i. is_page_soft_dirty (bits i)) n
  pub freed : m'.freed_count ≡ count_of (λ i. is_page_freed (bits i)) n
  pub populated : m'.populated_num_pages ≡ n
  pub start : m'.addr_start ≡ m.addr_start
  pub end : m'.addr_end ≡ m.addr_end
  pub pages : m'.total_num_pages ≡ m.total_num_pages
  pub page_index : m'.first_page_index ≡ m.first_page_index
  pub wmem_index : m'.first_wmem_index ≡ m.first_wmem_index
  pub r : m'.r ≡ m.r
  pub w : m'.w ≡ m.w
  pub x : m'.x ≡ m.x
  pub p : m'.p ≡ m.p
  pub name : m'.name ≡ m.name

module _ (bits : ℕ → ℕ) (k : ℕ) (m : Map) (fresh : IsFresh m) where
  count_page-Counts :
      (n : ℕ)
      → n < 2 ^ 19
      → (m' : Map) → Counts bits m n m'
      → Counts bits m (suc n) (count_page (parse_page m.addr_start k n (bits n)) m')
  unfolding count_page parse_page
  count_page-Counts n h m' c = record {
    paged = ground (arith, c.paged, count_of-le (λ i. ltb 0 (page_pfn (bits i))) n);
    soft_dirty = ground (arith, c.soft_dirty, count_of-le (λ i. is_page_soft_dirty (bits i)) n);
    freed = ground (arith, c.freed, count_of-le (λ i. is_page_freed (bits i)) n);
    populated = ground (arith, c.populated);
    start = c.start;
    end = c.end;
    pages = c.pages;
    page_index = c.page_index;
    wmem_index = c.wmem_index;
    r = c.r;
    w = c.w;
    x = c.x;
    p = c.p;
    name = c.name;
  }

  -- The counters of the map count its entries.
  pub scanned-Counts : (n : ℕ) → n ≤ m.total_num_pages → Counts bits m n (scanned bits k m n)
  scanned-Counts zero h = record {
    paged = fresh.paged;
    soft_dirty = fresh.soft_dirty;
    freed = fresh.freed;
    populated = fresh.populated;
    start = refl;
    end = refl;
    pages = refl;
    page_index = refl;
    wmem_index = refl;
    r = refl;
    w = refl;
    x = refl;
    p = refl;
    name = refl;
  }
  scanned-Counts (suc n) h =
      count_page-Counts n (omega (arith, fresh.small)) (scanned bits k m n)
        (scanned-Counts n (omega arith))

-- With room in the table, `add_page_to_map` stores the page at its index and counts it.
add_page_to_map-stored :
    (ps : MemInfo) (page : Page) (m : Map) (index : ℕ)
    → get_or ps.maps page.map_index zero_map ≡ m
    → m.first_page_index + m.populated_num_pages ≡ index
    → index < ps.pages_max_capacity
    → ps.pages_max_capacity < 2 ^ 31
    → add_page_to_map ps page
      ≡ returned (record ps {
        pages = set ps.pages index page;
        maps = set ps.maps page.map_index (count_page page m);
      })
unfolding add_page_to_map add_page_to_map_at_index grow_pages
add_page_to_map-stored ps page m index is_m is_index room small =
    let at : add64 m.first_page_index m.populated_num_pages ≡ index = omega arith in
    let room' : ltb index ps.pages_max_capacity ≡ true = ground arith in
    let full : leb ps.pages_max_capacity index ≡ false = ground arith in
    let word : of_int (to_int ps.pages_max_capacity) ≡ ps.pages_max_capacity = ground arith in
    let word' : of_int (to_int index) ≡ index = ground arith in
    rw (is_m, at, word, full, word', room')
      (ap
        (λ (x : Map). returned (record ps {
          pages = set ps.pages index page;
          maps = set ps.maps page.map_index (count_page page x);
        }))
        is_m)

-- Page `j` of the map `k` that begins at `addr_start`.
abbrev pub entry_page : (ℕ → ℕ) → ℕ → Map → ℕ → Page
entry_page bits k m j = parse_page m.addr_start k j (bits j)

map_index_of : (bits : ℕ → ℕ) (k : ℕ) (m : Map) (j : ℕ) → (entry_page bits k m j).map_index ≡ k
unfolding parse_page
map_index_of bits k m j = refl

module _ (bits : ℕ → ℕ) (k : ℕ) (m : Map) (fresh : IsFresh m) (pages0 : List Page)
    (maps0 : List Map) where
  -- The two arrays once the entries before `n` have been stored.
  pub record ScannedTo (n : ℕ) (pages : List Page) (maps : List Map) : Type 0 where
    pub pages_length : length pages ≡ length pages0
    pub maps_length : length maps ≡ length maps0
    pub here : get_or maps k zero_map ≡ scanned bits k m n
    pub other_maps : (j : ℕ) → j ≢ k → get_or maps j zero_map ≡ get_or maps0 j zero_map
    pub stored :
        (j : ℕ) → j < n → get_or pages (m.first_page_index + j) zero_page ≡ entry_page bits k m j
    pub other_pages :
        (q : ℕ)
        → ((q < m.first_page_index) ⊎ (m.first_page_index + m.total_num_pages ≤ q))
        → get_or pages q zero_page ≡ get_or pages0 q zero_page

  ScannedTo-next :
      (n : ℕ) (pages : List Page) (maps : List Map)
      → n < m.total_num_pages
      → k < length maps0
      → m.first_page_index + n < length pages0
      → ScannedTo n pages maps
      → ScannedTo
          (suc n)
          (set pages (m.first_page_index + n) (entry_page bits k m n))
          (set maps k (scanned bits k m (suc n)))
  ScannedTo-next n pages maps h kl room s = record {
    pages_length =
        omega (
          arith,
          length-set pages (m.first_page_index + n) (entry_page bits k m n),
          s.pages_length,
        );
    maps_length = omega (arith, length-set maps k (scanned bits k m (suc n)), s.maps_length);
    here =
        get_or-set_self maps k (scanned bits k m (suc n)) zero_map (omega (arith, s.maps_length));
    other_maps = λ j ne.
        get_or-set_ne maps k j (scanned bits k m (suc n)) zero_map (λ e. ne (sym e))
        ∙ s.other_maps j ne;
    stored = λ j lt. elim (ℕ_discrete j n) [
      | yes e ↦ rw e (
          get_or-set_self pages (m.first_page_index + n) (entry_page bits k m n) zero_page
            (omega (arith, s.pages_length)))
      | no ne ↦
          get_or-set_ne pages (m.first_page_index + n) (m.first_page_index + j)
            (entry_page bits k m n) zero_page (omega arith)
          ∙ s.stored j (omega arith)
    ];
    other_pages = λ q out.
        get_or-set_ne pages (m.first_page_index + n) q (entry_page bits k m n) zero_page
          (omega arith)
        ∙ s.other_pages q out;
  }

  -- The loop stores and counts every entry, and nothing else changes.
  pub read_entries-ScannedTo :
      (ps : MemInfo) (n i : ℕ) (pages : List Page) (maps : List Map)
      → i + n ≡ m.total_num_pages
      → k < length maps0
      → m.first_page_index + m.total_num_pages ≤ length pages0
      → length pages0 ≡ ps.pages_max_capacity
      → ps.pages_max_capacity < 2 ^ 31
      → ScannedTo i pages maps
      → (pages' : List Page) × (maps' : List Map) × (read_entries bits m.addr_start k n i
            (record ps { pages = pages; maps = maps })
          ≡ returned (record ps { pages = pages'; maps = maps' }))
        × ScannedTo m.total_num_pages pages' maps'
  unfolding read_entries parse_page
  read_entries-ScannedTo ps zero i pages maps e kl room sized small s =
      let e' : i ≡ m.total_num_pages = omega arith in
      (pages, maps, refl, subst (λ n. ScannedTo n pages maps) e' s)
  read_entries-ScannedTo ps (suc n) i pages maps e kl room sized small s =
      let c = scanned-Counts bits k m fresh i (omega arith) in
      let once : add_page_to_map (record ps { pages = pages; maps = maps }) (entry_page bits k m i)
          ≡ returned (record ps {
            pages = set pages (m.first_page_index + i) (entry_page bits k m i);
            maps = set maps k (scanned bits k m (suc i));
          }) =
        add_page_to_map-stored (record ps { pages = pages; maps = maps }) (entry_page bits k m i)
          (scanned bits k m i) (m.first_page_index + i) (rw (map_index_of bits k m i) s.here)
          (omega (arith, c.page_index, c.populated)) (omega arith) small in
      let (pages', maps', rest, done) =
        read_entries-ScannedTo ps n (suc i) _ _ (omega arith) kl room sized small
          (ScannedTo-next i pages maps (omega arith) kl (omega arith) s) in
      (pages', maps', rw (once, add-one) rest, done)
