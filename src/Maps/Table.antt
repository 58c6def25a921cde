-- ===== src/Maps/Table.antt =====
-- The table of maps behaves as a list that grows at its end, and its counters are the sums.
use faasafe.Prelude.{
  ℕ, ◌%◌, ◌^◌, ◌≤◌, ◌<◌, ◌≡◌, arith, [], ◌∷◌, ◌++◌, length, replicate, length-append, length-set,
  length-replicate, take-append, take-set, ◌+◌, zero, suc, get_or, ℕ_discrete,
}
use faasafe.Types.{Map, MemInfo, zero_map}
use faasafe.Maps.{init_process_mem_info, grow_maps, add_to_maps, live}

-- Map `i`, or a cleared slot.
abbrev pub map_at : MemInfo → ℕ → Map
map_at ps i = get_or ps.maps i zero_map

-- The pages of the maps before map `i`.
abbrev pub pages_before : MemInfo → ℕ → ℕ
pages_before ps zero = 0
pages_before ps (suc i) = pages_before ps i + (map_at ps i).total_num_pages

pub pages_before_mono : (ps : MemInfo) (i j : ℕ) → i ≤ j → pages_before ps i ≤ pages_before ps j
pages_before_mono ps i zero h = let e : i ≡ 0 = omega arith in rw e (omega arith)
pages_before_mono ps i (suc j) h = elim (ℕ_discrete i (suc j)) [
  | yes e ↦ rw e (omega arith)
  | no ne ↦ omega (arith, pages_before_mono ps i j (omega arith))
]

-- The bound on the number of maps below which no `int` of `add_to_maps` overflows.
abbrev pub max_maps : ℕ
max_maps = 2 ^ 29

-- The array has the size that the header says, and the used slots are within it.
pub record IsTable (ps : MemInfo) : Type 0 where
  pub sized : length ps.maps ≡ ps.maps_max_capacity
  pub within : ps.maps_count ≤ ps.maps_max_capacity
  pub nonempty : 0 < ps.maps_max_capacity
  pub small : ps.maps_max_capacity ≤ 2 ^ 30

pub init-IsTable : (pid : ℕ) → IsTable (init_process_mem_info pid)
unfolding init_process_mem_info
init-IsTable pid = omega arith

module _ (ps : MemInfo) (v : IsTable ps) (h : ps.maps_count < max_maps) where
  grow_maps-IsTable : IsTable (grow_maps ps) × (ps.maps_count < (grow_maps ps).maps_max_capacity)
  unfolding grow_maps
  grow_maps-IsTable = ground (
    arith,
    length-append ps.maps (replicate (ps.maps_max_capacity % 2 ^ 32) zero_map),
    length-replicate (ps.maps_max_capacity % 2 ^ 32) zero_map,
  )

  live-grow_maps : live (grow_maps ps) ≡ live ps
  unfolding grow_maps
  live-grow_maps = ground (
    arith,
    take-append ps.maps_count ps.maps (replicate (ps.maps_max_capacity % 2 ^ 32) zero_map),
  )

  maps_count-grow_maps : (grow_maps ps).maps_count ≡ ps.maps_count
  unfolding grow_maps
  maps_count-grow_maps = ground arith

  -- Below the bound, the table is well formed after another map, and its maps are the old ones
  -- followed by the new one.
  pub live-add_to_maps :
      (m : Map) → IsTable (add_to_maps ps m) × (live (add_to_maps ps m) ≡ live ps ++ m ∷ [])
  unfolding add_to_maps
  live-add_to_maps m = ground (
    arith,
    grow_maps-IsTable,
    live-grow_maps,
    maps_count-grow_maps,
    length-set (grow_maps ps).maps (ps.maps_count % 2 ^ 32) m,
    take-set ps.maps_count (grow_maps ps).maps m,
  )

  pub maps_count-add_to_maps : (m : Map) → (add_to_maps ps m).maps_count ≡ ps.maps_count + 1
  unfolding add_to_maps
  maps_count-add_to_maps m = omega (arith, maps_count-grow_maps)
