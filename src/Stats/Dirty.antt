-- ===== src/Stats/Dirty.antt =====
-- The reported number is that of the soft-dirty pages in the pagemap.
use faasafe.Prelude.{refl, zero, suc, arith, ◌≡◌, ℕ, ◌+◌, ◌^◌, ◌<◌, ◌≤◌, ap, ◌∙◌}
use faasafe.Types.{MemInfo, is_page_soft_dirty}
use faasafe.Outcome.{returned}
use faasafe.Maps.Table.{map_at, pages_before, pages_before_mono}
use faasafe.Pagemap.{PagemapFile, populate_page_info}
use faasafe.Pagemap.Scan.{count_of, count_of-le}
use faasafe.Pagemap.Table.{IsRead, IsLaidOut, DeliversAll, populate_page_info-IsRead, bits_of}
use faasafe.Stats.{DirtyStats, add_stats, add_all_stats, aggregate_dirty_stats}

-- The soft-dirty pages of the maps before map `i`.
abbrev pub dirty_before : PagemapFile → MemInfo → ℕ → ℕ
dirty_before f ps zero = 0
dirty_before f ps (suc i) =
    dirty_before f ps i
    + count_of (λ k. is_page_soft_dirty (bits_of f (map_at ps i) k)) (map_at ps i).total_num_pages

dirty_before-le : (f : PagemapFile) (ps : MemInfo) (i : ℕ) → dirty_before f ps i ≤ pages_before ps i
dirty_before-le f ps zero = omega arith
dirty_before-le f ps (suc i) = omega (
  arith,
  dirty_before-le f ps i,
  count_of-le (λ k. is_page_soft_dirty (bits_of f (map_at ps i) k)) (map_at ps i).total_num_pages,
)

module _ (f : PagemapFile) (ps ps' : MemInfo) (laid : IsLaidOut ps) (read : IsRead f ps ps') where
  small : (i : ℕ) → i ≤ ps.maps_count → dirty_before f ps i < 2 ^ 31
  small i le = omega (
    arith,
    dirty_before-le f ps i,
    pages_before_mono ps i ps.maps_count le,
    laid.room,
    laid.small,
  )

  step_count :
      (i : ℕ)
      → i < ps.maps_count
      → (c : DirtyStats) → c.soft_dirty ≡ dirty_before f ps i
      → (add_stats (map_at ps' i) c).soft_dirty ≡ dirty_before f ps (i + 1)
  unfolding add_stats
  step_count i lt c e =
      let next : dirty_before f ps (i + 1) ≡ dirty_before f ps (suc i) =
        let at : i + 1 ≡ suc i = omega arith in ap (dirty_before f ps) at in
      omega (arith, e, (read.counts i lt).soft_dirty, small (suc i) (omega arith), next)

  add_all_stats-dirty :
      (n i : ℕ) (c : DirtyStats)
      → i + n ≡ ps.maps_count
      → c.soft_dirty ≡ dirty_before f ps i
      → (add_all_stats ps'.maps n i c).soft_dirty ≡ dirty_before f ps ps.maps_count
  unfolding add_all_stats add_stats
  add_all_stats-dirty zero i c size e =
      let all : i ≡ ps.maps_count = omega (arith, size) in e ∙ ap (dirty_before f ps) all
  add_all_stats-dirty (suc n) i c size e =
      add_all_stats-dirty n (i + 1) (add_stats (map_at ps' i) c) (omega (arith, size))
        (step_count i (omega (arith, size)) c e)

  read-dirty : (aggregate_dirty_stats ps').soft_dirty ≡ dirty_before f ps ps.maps_count
  unfolding aggregate_dirty_stats
  read-dirty = add_all_stats-dirty ps'.maps_count 0 _ (omega (arith, read.same_maps)) refl

-- From a table of maps as it is parsed, and with a pagemap that delivers, the number of soft-dirty
-- pages that `aggregate_dirty_stats` reports after the pagemap has been read is that of the
-- soft-dirty entries of all maps.
pub aggregate_dirty_stats-dirty :
    (f : PagemapFile) (ps : MemInfo)
    → DeliversAll f
    → IsLaidOut ps
    → (ps' : MemInfo) × (populate_page_info f ps ≡ returned ps')
      × ((aggregate_dirty_stats ps').soft_dirty ≡ dirty_before f ps ps.maps_count)
aggregate_dirty_stats-dirty f ps all laid =
    let (ps', reads, read) = populate_page_info-IsRead f all ps laid in
    (ps', reads, read-dirty f ps ps' laid read)
