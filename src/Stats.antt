-- ===== src/Stats.antt =====
-- groundhog_origin/src/stat_helper.c: `aggregate_dirty_stats`, the numbers that a restoration reports.
pub mod Dirty
use faasafe.Prelude.{
  zero, suc, ℕ, List, if◌then◌else◌, ◌+◌, get_or, refl, [], ◌∷◌, none, some, inl, inr, true, false,
  arith, ◌≡◌, Bool, Option,
}
use faasafe.Types.{Map, MemInfo, zero_map, is_map_writeable_non_anon}
use faasafe.Word.{add64}

-- `count_soft_dirty`, `count_soft_dirty_paged` and `count_non_anon`
pub record DirtyStats : Type 0 where
  pub soft_dirty : ℕ
  pub soft_dirty_paged : ℕ
  pub non_anon : ℕ

-- The body of the loop.
unfoldable pub add_stats : Map → DirtyStats → DirtyStats
add_stats m c = record {
  soft_dirty = add64 c.soft_dirty m.soft_dirty_count;
  soft_dirty_paged = add64 c.soft_dirty_paged m.soft_dirty_paged_count;
  non_anon = if is_map_writeable_non_anon m then add64 c.non_anon m.total_num_pages else c.non_anon;
}

-- The loop: `n` rounds are left, the next one is on map `i`.
unfoldable pub add_all_stats : List Map → ℕ → ℕ → DirtyStats → DirtyStats
add_all_stats maps zero i c = c
add_all_stats maps (suc n) i c = add_all_stats maps n (i + 1) (add_stats (get_or maps i zero_map) c)

-- `aggregate_dirty_stats`
unfoldable pub aggregate_dirty_stats : MemInfo → DirtyStats
aggregate_dirty_stats ps =
    add_all_stats ps.maps ps.maps_count 0
      (record { soft_dirty = 0; soft_dirty_paged = 0; non_anon = 0 })
