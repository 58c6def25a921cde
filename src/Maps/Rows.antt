-- ===== src/Maps/Rows.antt =====
-- Where the maps stand after another one has been added.
use faasafe.Prelude.{
  refl, zero, suc, [], ◌∷◌, ◌++◌, arith, ◌≡◌, ℕ, ◌+◌, ◌%◌, ◌^◌, ◌<◌, ◌≤◌, length, ap, ◌∙◌, sym,
  get_or, get_or-take, length-take, get_or-append_left, get_or-append_last,
}
use faasafe.Types.{Map, MemInfo, zero_map}
use faasafe.Maps.{add_to_maps, grow_maps, live}
use faasafe.Maps.Table.{
  map_at, pages_before, IsTable, max_maps, live-add_to_maps, maps_count-add_to_maps,
}

-- The maps before the added one stay in place.
module _ (ps : MemInfo) (v : IsTable ps) (h : ps.maps_count < max_maps) (m : Map) where
  map_at-live :
      (i : ℕ)
      → i < ps.maps_count + 1
      → map_at (add_to_maps ps m) i ≡ get_or (live ps ++ m ∷ []) i zero_map
  map_at-live i lt =
      let count = maps_count-add_to_maps ps v h m in
      sym (
        get_or-take (add_to_maps ps m).maps_count (add_to_maps ps m).maps i zero_map
          (omega (arith, count)))
      ∙ ap (λ ms. get_or ms i zero_map) (live-add_to_maps ps v h m).1

  length-live : length (live ps) ≡ ps.maps_count
  length-live = length-take ps.maps_count ps.maps (omega (arith, v.sized, v.within))

  pub map_at-add_to_maps_old :
      (i : ℕ) → i < ps.maps_count → map_at (add_to_maps ps m) i ≡ map_at ps i
  map_at-add_to_maps_old i lt =
      map_at-live i (omega arith)
      ∙ get_or-append_left (live ps) (m ∷ []) i zero_map (omega (arith, length-live))
      ∙ get_or-take ps.maps_count ps.maps i zero_map lt

  pub map_at-add_to_maps_new : map_at (add_to_maps ps m) ps.maps_count ≡ m
  map_at-add_to_maps_new =
      map_at-live ps.maps_count (omega arith)
      ∙ get_or-append_last (live ps) m zero_map ps.maps_count (sym length-live)

  pub pages_before-add_to_maps :
      (i : ℕ) → i ≤ ps.maps_count → pages_before (add_to_maps ps m) i ≡ pages_before ps i
  pages_before-add_to_maps zero le = refl
  pages_before-add_to_maps (suc i) le =
      rw (pages_before-add_to_maps i (omega arith), map_at-add_to_maps_old i (omega arith)) refl

  pub pages_before-add_to_maps_all :
      pages_before (add_to_maps ps m) (add_to_maps ps m).maps_count
      ≡ pages_before ps ps.maps_count + m.total_num_pages
  pages_before-add_to_maps_all =
      let count : (add_to_maps ps m).maps_count ≡ suc ps.maps_count =
        maps_count-add_to_maps ps v h m ∙ omega arith in
      rw (count, pages_before-add_to_maps ps.maps_count (omega arith), map_at-add_to_maps_new) refl

  -- The other fields.
  pub counters-add_to_maps :
      ((add_to_maps ps m).pages_max_capacity ≡ (ps.pages_max_capacity + m.total_num_pages) % 2 ^ 64)
      × ((add_to_maps ps m).pages_count ≡ ps.pages_count)
      × ((add_to_maps ps m).paged_pages_count
          ≡ (ps.paged_pages_count + m.total_num_paged_pages) % 2 ^ 64)
  unfolding add_to_maps grow_maps
  counters-add_to_maps = ground arith

pub pid-add_to_maps : (ps : MemInfo) (m : Map) → (add_to_maps ps m).pid ≡ ps.pid
unfolding add_to_maps grow_maps
pid-add_to_maps ps m = ground arith
