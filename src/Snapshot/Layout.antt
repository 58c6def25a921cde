-- ===== src/Snapshot/Layout.antt =====
-- The buffer as a whole: the maps lie one behind the other, and each holds its resident pages.
use mathlib.Core.Path.{subst}
use faasafe.Prelude.{
  refl, zero, suc, inl, false, arith, ◌≡◌, ℕ, List, get_or, ◌+◌, ◌<◌, ◌≤◌, ℕ_discrete, length, set,
  ◌*◌, length-set, ◌∙◌, get_or-set_self, get_or-set_ne, dec_lt, ◌^◌,
}
use native.Mathlib.Numerals.{add-one}
use faasafe.Types.{Map, MemInfo, Bytes, page_size, zero_map}
use faasafe.Memory.{MemFile, Delivers}
use faasafe.Outcome.{returned}
use faasafe.Snapshot.{
  populate_maps, populate_round, populate_memory_copy_info, populate_memory_copy_info_map,
}
use faasafe.Snapshot.Pages.{
  IsCaptured, Holds, Untouched, rank, rank_lt, rank-le, populate_map-Holds,
}

-- The resident pages of the maps before map `i`.
abbrev pub offset : MemInfo → ℕ → ℕ
offset ps zero = 0
offset ps (suc i) = offset ps i + (get_or ps.maps i zero_map).total_num_paged_pages

-- Map `i` with its place in the buffer.
abbrev pub placed : MemInfo → ℕ → Map
placed ps i = record (get_or ps.maps i zero_map) { first_wmem_index = offset ps i }

offset_mono : (ps : MemInfo) (i j : ℕ) → i ≤ j → offset ps i ≤ offset ps j
offset_mono ps i zero h = let e : i ≡ 0 = omega arith in rw e (omega arith)
offset_mono ps i (suc j) h = elim (ℕ_discrete i (suc j)) [
  | yes e ↦ rw e (omega arith)
  | no ne ↦ omega (arith, offset_mono ps i j (omega arith))
]

-- One round of the loop, for a map with resident pages and for one without.
module _ (f : MemFile) (memory : Bytes) (ps : MemInfo) (i at_page : ℕ) (a : Map)
    (is_a : get_or ps.maps i zero_map ≡ a) (fits : at_page + a.total_num_paged_pages < 2 ^ 64) where
  abbrev moved_in : MemInfo
  moved_in = record ps { maps = set ps.maps i (record a { first_wmem_index = at_page }) }

  populate_round-copied :
      (wmem : Bytes)
      → 0 < a.total_num_paged_pages
      → populate_memory_copy_info_map f memory moved_in (record a { first_wmem_index = at_page })
        ≡ returned wmem
      → populate_round f memory false i at_page ps
        ≡ returned (record moved_in { wmem = wmem }, at_page + a.total_num_paged_pages)
  unfolding populate_round
  populate_round-copied wmem pos runs = rw (is_a, runs) ground arith

  populate_round-unpaged :
      ¬ (0 < a.total_num_paged_pages)
      → populate_round f memory false i at_page ps
        ≡ returned (moved_in, at_page + a.total_num_paged_pages)
  unfolding populate_round
  populate_round-unpaged zero_pages = rw is_a ground arith

module _ (f : MemFile) (delivers : Delivers f) (memory : Bytes) (ps : MemInfo)
    (captured : (i : ℕ) → i < ps.maps_count → IsCaptured ps (placed ps i)) where
  -- The resident pages of map `i` are in `wmem`.
  abbrev Stored : ℕ → Bytes → Type 0
  Stored i wmem = Holds ps (placed ps i) (placed ps i).total_num_pages memory wmem

  -- Copying a later map leaves the earlier ones in place.
  Stored-Untouched :
      (i j : ℕ) (wmem wmem' : Bytes)
      → i < j
      → j < ps.maps_count
      → Untouched ps (placed ps j) (placed ps j).total_num_pages wmem wmem'
      → Stored i wmem
      → Stored i wmem'
  Stored-Untouched i j wmem wmem' h hj out stored p lt r k kl =
      let a = placed ps i in
      out ((a.first_wmem_index + rank ps a p) * page_size + k) (
        inl omega (
          arith,
          offset_mono ps (suc i) j h,
          rank_lt ps a p a.total_num_pages lt r,
          (captured i (omega arith)).paged,
        ))
      ∙ stored p lt r k kl

  -- The table and the buffer while the maps before `i` have been copied.
  record Partly (i : ℕ) (ms : List Map) (wmem : Bytes) : Type 0 where
    long : ps.maps_count ≤ length ms
    before : (j : ℕ) → j < i → get_or ms j zero_map ≡ placed ps j
    behind : (j : ℕ) → i ≤ j → get_or ms j zero_map ≡ get_or ps.maps j zero_map
    stored : (j : ℕ) → j < i → Stored j wmem

  Partly-next :
      (i : ℕ) (ms : List Map) (wmem wmem' : Bytes)
      → i < ps.maps_count
      → Partly i ms wmem
      → Untouched ps (placed ps i) (placed ps i).total_num_pages wmem wmem'
      → Stored i wmem'
      → Partly (suc i) (set ms i (placed ps i)) wmem'
  Partly-next i ms wmem wmem' h p out here = record {
    long = omega (arith, p.long, length-set ms i (placed ps i));
    before = λ j lt. elim (ℕ_discrete j i) [
      | yes e ↦ rw e (get_or-set_self ms i (placed ps i) zero_map (omega (arith, p.long)))
      | no ne ↦ get_or-set_ne ms i j (placed ps i) zero_map (omega arith) ∙ p.before j (omega arith)
    ];
    behind = λ j le.
        get_or-set_ne ms i j (placed ps i) zero_map (omega arith) ∙ p.behind j (omega arith);
    stored = λ j lt. elim (ℕ_discrete j i) [
      | yes e ↦ rw e here
      | no ne ↦ Stored-Untouched j i wmem wmem' (omega arith) h out (p.stored j (omega arith))
    ];
  }

  populate_maps-Partly :
      (n i : ℕ) (ms : List Map) (wmem : Bytes)
      → i + n ≡ ps.maps_count
      → Partly i ms wmem
      → (ms' : List Map) × (wmem' : Bytes) × (populate_maps f memory false n i
            (offset ps i)
            (record ps { maps = ms; wmem = wmem })
          ≡ returned (record ps { maps = ms'; wmem = wmem' }))
        × Partly ps.maps_count ms' wmem'
  unfolding populate_maps
  populate_maps-Partly zero i ms wmem e p =
      let e' : i ≡ ps.maps_count = omega arith in
      (ms, wmem, refl, subst (λ n. Partly n ms wmem) e' p)
  populate_maps-Partly (suc n) i ms wmem e p = elim (dec_lt 0 m.total_num_paged_pages) [
    | yes pos ↦
        let (wmem1, runs, here, out) =
          populate_map-Holds f delivers memory (record ps { maps = ms1; wmem = wmem }) m c
            (omega (arith, c.paged, rank-le ps m m.total_num_pages)) in
        let (ms', wmem', rest, done) =
          populate_maps-Partly n (suc i) ms1 wmem1 (omega arith)
            (Partly-next i ms wmem wmem1 h p out here) in
        (
          ms',
          wmem',
          rw
              (
                populate_round-copied f memory state i (offset ps i) a is_a fits wmem1 pos runs,
                add-one,
              )
              rest,
          done,
        )
    | no zero_pages ↦
        let here : Stored i wmem =
          λ j lt r k kl. absurd (omega (arith, rank_lt ps m j m.total_num_pages lt r, c.paged)) in
        let (ms', wmem', rest, done) =
          populate_maps-Partly n (suc i) ms1 wmem (omega arith)
            (Partly-next i ms wmem wmem h p (λ q o. refl) here) in
        (
          ms',
          wmem',
          rw (populate_round-unpaged f memory state i (offset ps i) a is_a fits zero_pages, add-one)
              rest,
          done,
        )
  ]
    where
      state : MemInfo
      state = record ps { maps = ms; wmem = wmem }

      a : Map
      a = get_or ps.maps i zero_map

      is_a : get_or ms i zero_map ≡ a
      is_a = p.behind i (omega arith)

      m : Map
      m = placed ps i

      ms1 : List Map
      ms1 = set ms i m

      h : i < ps.maps_count
      h = omega arith

      c : IsCaptured (record ps { maps = ms1; wmem = wmem }) m
      c =
          let d = captured i h in
          record {
            range = d.range;
            below = d.below;
            small = d.small;
            paged = d.paged;
            page_table = d.page_table;
            buffer = d.buffer;
          }

      fits : offset ps i + a.total_num_paged_pages < 2 ^ 64
      fits = omega (arith, c.buffer, c.small, c.paged, rank-le ps m m.total_num_pages)

  -- For captured maps in a table that holds them, and a memory file that delivers,
  -- `populate_memory_copy_info` returns: every map keeps its fields and gets its place behind the
  -- resident pages of the maps before it, and the buffer holds every resident page of every map;
  -- the table still has room for its maps.
  pub populate_memory_copy_info-Stored :
      ps.maps_count ≤ length ps.maps
      → (ms : List Map) × (wmem : Bytes) × (populate_memory_copy_info f memory ps false
          ≡ returned (record ps { maps = ms; wmem = wmem }))
        × ((i : ℕ) → i < ps.maps_count → (get_or ms i zero_map ≡ placed ps i) × Stored i wmem)
        × (ps.maps_count ≤ length ms)
  unfolding populate_memory_copy_info
  populate_memory_copy_info-Stored long =
      let (ms, wmem, runs, p) =
        populate_maps-Partly ps.maps_count 0 ps.maps ps.wmem (omega arith) (record {
          long = long;
          before = λ j h. absurd (omega arith);
          behind = λ j h. refl;
          stored = λ j h. absurd (omega arith);
        }) in
      (ms, wmem, runs, (λ i h. (p.before i h, p.stored i h)), p.long)
