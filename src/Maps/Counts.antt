-- ===== src/Maps/Counts.antt =====
-- The counters that the table of maps keeps beside its entries.
use faasafe.Prelude.{ℕ, ◌+◌, ◌%◌, ◌<◌, ◌≡◌, ap, arith, List, [], ◌∷◌, ◌++◌, if◌then◌else◌}
use faasafe.Word.{u64_mod}
use faasafe.Types.{Map, MemInfo}
use faasafe.Maps.{init_process_mem_info, grow_maps, add_to_maps, live}
use faasafe.Maps.Table.{IsTable, max_maps, live-add_to_maps}

-- The sum of a number that each map contributes.
abbrev pub sum : (Map → ℕ) → List Map → ℕ
sum f [] = 0
sum f (m ∷ ms) = f m + sum f ms

sum-snoc : (f : Map → ℕ) (ms : List Map) (m : Map) → sum f (ms ++ m ∷ []) ≡ sum f ms + f m
sum-snoc f [] m = omega arith
sum-snoc f (x ∷ ms) m = omega (arith, sum-snoc f ms m)

abbrev pub pages_of : Map → ℕ
pages_of m = m.total_num_pages

abbrev pub writable_pages_of : Map → ℕ
writable_pages_of m = if m.w then m.total_num_pages else 0

abbrev pub paged_pages_of : Map → ℕ
paged_pages_of m = m.total_num_paged_pages

-- Each counter is the sum over the maps in use, as a `uint64_t`.
pub record IsCounted (ps : MemInfo) : Type 0 where
  pub pages : ps.pages_max_capacity ≡ sum pages_of (live ps) % u64_mod
  pub writable : ps.writable_pages_count ≡ sum writable_pages_of (live ps) % u64_mod
  pub paged : ps.paged_pages_count ≡ sum paged_pages_of (live ps) % u64_mod

pub init-IsCounted : (pid : ℕ) → IsCounted (init_process_mem_info pid)
unfolding init_process_mem_info
init-IsCounted pid = omega arith

module _ (ps : MemInfo) (m : Map) where
  -- What `add_to_maps` adds to each counter, whatever the table holds.
  counters-add_to_maps :
      ps.writable_pages_count < u64_mod
      → ((add_to_maps ps m).pages_max_capacity ≡ (ps.pages_max_capacity + pages_of m) % u64_mod)
        × ((add_to_maps ps m).writable_pages_count
            ≡ (ps.writable_pages_count + writable_pages_of m) % u64_mod)
        × ((add_to_maps ps m).paged_pages_count
            ≡ (ps.paged_pages_count + paged_pages_of m) % u64_mod)
  unfolding add_to_maps grow_maps
  counters-add_to_maps h = ground arith

  -- On a well-formed table of fewer than 2 ^ 29 maps, `add_to_maps` keeps the counters exact, each the
  -- sum over the maps in use as a `uint64_t`.
  pub add_to_maps-IsCounted :
      IsTable ps → ps.maps_count < max_maps → IsCounted ps → IsCounted (add_to_maps ps m)
  add_to_maps-IsCounted v h c = ground (
    arith,
    counters-add_to_maps (omega arith),
    (live-add_to_maps ps v h m).1,
    ap (sum pages_of) (live-add_to_maps ps v h m).1,
    ap (sum writable_pages_of) (live-add_to_maps ps v h m).1,
    ap (sum paged_pages_of) (live-add_to_maps ps v h m).1,
    sum-snoc pages_of (live ps) m,
    sum-snoc writable_pages_of (live ps) m,
    sum-snoc paged_pages_of (live ps) m,
  )
