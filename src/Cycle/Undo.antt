-- ===== src/Cycle/Undo.antt =====
-- From the two states of a process that has only written to its memory: the comparison, and the writing back.
use faasafe.Restore.{restore_soft_dirty_memory}
use faasafe.Restore.Discard.{Discards, restore_soft_dirty_memory-undoes}
use faasafe.Outcome.{Outcome, returned}
use faasafe.Memory.{MemFile, Delivers}
use faasafe.Restore.Whole.{Agrees, inside}
use faasafe.Restore.Round.{in_range}
use faasafe.Diff.{same_region, with_counts_of, diff_process_states, finished}
use faasafe.Mappings.Kept.{length-live, live-AllOutline}
use mathlib.Core.Path.{subst}
use faasafe.Restore.Table.{IsReady, on_map, is_touched}
use faasafe.Cycle.Picked.{Picked, merge-Picked}
use faasafe.Maps.{live}
use faasafe.Diff.Tables.{Result, diff_process_maps-Result}
use faasafe.Cycle.Written.{
  IsWritten, IsAligned-counts, Holds-counts, AgreesIfClean-counts, pages-counts, range-counts,
  same_region-counts, is_touched-counts, Agrees-counts,
}
use faasafe.Maps.Table.{IsTable, map_at, pages_before, pages_before_mono, max_maps}
use faasafe.Prelude.{
  refl, ◌≡◌, ℕ, zero, suc, some, inl, inr, true, false, arith, length, ◌<◌, ◌≤◌, dec_lt, get_or, ap,
  get_or-take, sym, ◌∙◌, ◌⊎◌, ◌+◌, ◌*◌, true≢false, ◌||◌, ◌==◌, ==-refl,
}
use faasafe.Types.{Map, MemInfo, MemDiff, zero_map, Bytes, page_size}

module _ (ini fin : MemInfo) (old memory : Bytes) (ti : IsTable ini) (tf : IsTable fin)
    (written : IsWritten ini fin old memory) (d : MemDiff)
    (r : Result (live ini) (live fin) d) where
  abbrev md : MemInfo
  md = d.modified

  picked : Picked (live ini) (live fin) (live md)
  picked =
      subst (Picked (live ini) (live fin)) (sym r.modified_are)
        (merge-Picked (live ini) (live fin) (live-AllOutline ini fin ti tf written.outlines))

  tm : IsTable md
  tm = let (ta, tr, table, tp) = r.tables in table

  -- The modified map `k` is the map `ix k` of the checkpoint.
  ix : ℕ → ℕ
  ix k = picked.index k

  length-md : length (live md) ≡ md.maps_count
  length-md = length-live md tm

  ix_lt : (k : ℕ) → k < md.maps_count → ix k < ini.maps_count
  unfolding ix
  ix_lt k lt = omega (arith, picked.within k (omega (arith, length-md)), length-live ini ti)

  live_at : (ps : MemInfo) (i : ℕ) → i < ps.maps_count → get_or (live ps) i zero_map ≡ map_at ps i
  live_at ps i lt = get_or-take ps.maps_count ps.maps i zero_map lt

  ix_lt_fin : (k : ℕ) → k < md.maps_count → ix k < fin.maps_count
  ix_lt_fin k lt = omega (arith, ix_lt k lt, written.outlines.count)

  at :
      (k : ℕ)
      → k < md.maps_count
      → map_at md k ≡ with_counts_of (map_at fin (ix k)) (map_at ini (ix k))
  unfolding ix
  at k lt =
      sym (live_at md k lt)
      ∙ picked.is k (omega (arith, length-md))
      ∙ rw (live_at fin (ix k) (ix_lt_fin k lt), live_at ini (ix k) (ix_lt k lt)) refl

  ix_ordered : (k l : ℕ) → k < l → l < md.maps_count → ix k < ix l
  unfolding ix
  ix_ordered k l lt lt' = picked.ordered k l lt (omega (arith, length-md))

  ix_differs :
      (k : ℕ) → k < md.maps_count → same_region (map_at ini (ix k)) (map_at fin (ix k)) ≡ false
  unfolding ix
  ix_differs k lt =
      let h = picked.differs k (omega (arith, length-md)) in
      rw (live_at fin (ix k) (ix_lt_fin k lt), live_at ini (ix k) (ix_lt k lt)) at h

  ix_ne : (k l : ℕ) → k < md.maps_count → l < md.maps_count → ¬ (k ≡ l) → ¬ (ix k ≡ ix l)
  ix_ne k l lt lt' ne e = elim (dec_lt k l) [
    | yes h ↦ omega (arith, ix_ordered k l h lt', e)
    | no h ↦ omega (arith, ix_ordered l k (omega (arith, ne)) lt, e)
  ]

  on_at : (k q : ℕ) → k < md.maps_count → on_map md k q ≡ on_map ini (ix k) q
  on_at k q lt =
      ap (λ (m : Map). in_range m.addr_start m.total_num_pages q) (at k lt)
      ∙ range-counts ini fin (map_at ini (ix k)) (map_at fin (ix k)) old memory q

  modified_pages :
      (k i : ℕ)
      → k ≤ md.maps_count
      → i ≤ ini.maps_count
      → ((l : ℕ) → l < k → ix l < i)
      → pages_before md k ≤ pages_before ini i
  modified_pages zero i kl il below = omega arith
  modified_pages (suc k) i kl il below =
      let before =
        modified_pages k (ix k) (omega arith) (omega (arith, ix_lt k (omega arith)))
          (λ l lt. ix_ordered l k lt (omega arith)) in
      let here : (map_at md k).total_num_pages ≡ (map_at ini (ix k)).total_num_pages =
        ap (λ (m : Map). m.total_num_pages) (at k (omega arith))
        ∙ pages-counts ini fin (map_at ini (ix k)) (map_at fin (ix k)) old memory in
      let later = pages_before_mono ini (suc (ix k)) i (below k (omega arith)) in
      omega (arith, before, here, later)

  ready : IsReady md ini fin old memory
  ready = record {
    nonempty = λ k lt. rw (at k lt) (
        omega (
          arith,
          pages-counts ini fin (map_at ini (ix k)) (map_at fin (ix k)) old memory,
          written.nonempty (ix k) (ix_lt k lt),
        ));
    aligned = λ k lt.
        rw (at k lt)
          (IsAligned-counts ini fin _ _ old memory (written.aligned (ix k) (ix_lt k lt)));
    holds = λ k lt.
        rw (at k lt) (Holds-counts ini fin _ _ old memory (written.holds (ix k) (ix_lt k lt)));
    clean = λ k lt.
        rw (at k lt)
          (AgreesIfClean-counts ini fin _ _ old memory (written.unchanged (ix k) (ix_lt k lt)));
    apart = λ k l lt lt' ne q on.
        on_at l q lt'
        ∙ written.apart (ix k) (ix l) (ix_lt k lt) (ix_lt l lt') (ix_ne k l lt lt' ne) q
            (sym (on_at k q lt) ∙ on);
    few_pages = omega (
      arith,
      modified_pages md.maps_count ini.maps_count (omega arith) (omega arith) (λ l lt. ix_lt l lt),
      written.few_pages,
    );
    page_count = written.page_count;
  }

  -- Each map of the checkpoint is identical, or one of the modified ones.
  identical_or_modified :
      (i : ℕ)
      → i < ini.maps_count
      → (same_region (map_at ini i) (map_at fin i) ≡ true)
        ⊎ ((k : ℕ) × (k < md.maps_count) × (ix k ≡ i))
  unfolding ix
  identical_or_modified i lt =
      let within : i < fin.maps_count = omega (arith, written.outlines.count) in
      elim (picked.all i (omega (arith, length-live ini ti))) [
        | inl same ↦ inl (rw (live_at fin i within, live_at ini i lt) at same)
        | inr (k, kl, e) ↦ inr (k, omega (arith, length-md), e)
      ]

  -- An identical map has not been written to, and is not restored.
  identical-Agrees :
      (memory' : Bytes)
      → ((q : ℕ) → ((k : ℕ) → k < md.maps_count → on_map md k q ≡ false) → memory' q ≡ memory q)
      → (i : ℕ) → i < ini.maps_count
      → same_region (map_at ini i) (map_at fin i) ≡ true
      → Agrees ini (map_at ini i) old memory'
  identical-Agrees memory' elsewhere i lt same j jl res k kl =
      let m = map_at ini i in
      let q = m.addr_start + j * page_size + k in
      let (dirty_count, freed_count) = same_region-counts m (map_at fin i) same in
      let (no_dirty, no_freed, _) = written.clean i lt in
      let fresh =
        written.counted i lt (sym dirty_count ∙ no_dirty) (sym freed_count ∙ no_freed) j jl in
      elsewhere q (λ l ll.
        let other : ¬ (i ≡ ix l) = λ e. true≢false (sym same ∙ rw e (ix_differs l ll)) in
        on_at l q ll ∙ written.apart i (ix l) lt (ix_lt l ll) other q (inside m j k jl kl))
      ∙ written.unchanged i lt j jl res fresh k kl

  module _ (f : MemFile) (delivers : Delivers f) (madvise : Bytes → ℕ → ℕ → Outcome Bytes)
      (discards : Discards madvise) where
    restore-Agrees :
        (memory' : Bytes) × (count : ℕ) × (restore_soft_dirty_memory f madvise d ini fin memory
          ≡ returned (memory', count))
        × ((i : ℕ)
            → i < ini.maps_count
            → ((map_at ini i).r || (map_at ini i).w) ≡ true
            → Agrees ini (map_at ini i) old memory')
        × ((q : ℕ) → ((i : ℕ) → i < ini.maps_count → on_map ini i q ≡ false) → memory' q ≡ memory q)
    restore-Agrees =
        let (memory', count, runs, agrees, elsewhere, few) =
          restore_soft_dirty_memory-undoes f delivers madvise discards d ini fin old memory ready in
        (
          memory',
          count,
          runs,
          (λ i lt usable. elim (identical_or_modified i lt) [
            | inl same ↦ identical-Agrees memory' elsewhere i lt same
            | inr (k, kl, e) ↦
                let touched : is_touched (map_at md k) ≡ true =
                  ap is_touched (at k kl)
                  ∙ is_touched-counts ini fin (map_at ini (ix k)) (map_at fin (ix k)) old memory
                  ∙ ap (λ n. (map_at ini n).r || (map_at ini n).w) e
                  ∙ usable in
                subst (λ n. Agrees ini (map_at ini n) old memory') e
                  (Agrees-counts ini fin (map_at ini (ix k)) (map_at fin (ix k)) old memory'
                    (subst (λ m. Agrees ini m old memory') (at k kl) (agrees k kl touched)))
          ]),
          λ q off. elsewhere q (λ k kl. on_at k q kl ∙ off (ix k) (ix_lt k kl)),
        )

-- If a process has only written to its memory since the checkpoint, and its files and `madvise` do
-- what they are to do, then the comparison of the checkpoint with its current state returns, and
-- restoring from its result returns. Every page of a readable or writable map that was resident at
-- the checkpoint is then as it was, and no byte outside the maps has changed. (Two tables of fewer
-- than 2 ^ 29 maps together.)
pub restore_soft_dirty_memory-diff_process_states :
    (ini fin : MemInfo) (old memory : Bytes) (f : MemFile) (madvise : Bytes → ℕ → ℕ → Outcome Bytes)
    → IsTable ini
    → IsTable fin
    → ini.pid ≡ fin.pid
    → ini.maps_count + fin.maps_count < max_maps
    → IsWritten ini fin old memory
    → Delivers f
    → Discards madvise
    → (d : MemDiff) × (diff_process_states ini fin ≡ some (finished d))
      × (memory' : Bytes) × (count : ℕ) × (restore_soft_dirty_memory f madvise d ini fin memory
          ≡ returned (memory', count))
      × ((i : ℕ)
          → i < ini.maps_count
          → ((map_at ini i).r || (map_at ini i).w) ≡ true
          → Agrees ini (map_at ini i) old memory')
      × ((q : ℕ) → ((i : ℕ) → i < ini.maps_count → on_map ini i q ≡ false) → memory' q ≡ memory q)
unfolding diff_process_states
restore_soft_dirty_memory-diff_process_states ini fin old memory f madvise ti tf pids few written
      delivers discards =
    let (d, ends, r) = diff_process_maps-Result ini fin ti tf few in
    let same_pid : (ini.pid == fin.pid) ≡ true = rw pids (==-refl fin.pid) in
    let (memory', count, runs, agrees, elsewhere) =
      restore-Agrees ini fin old memory ti tf written d r f delivers madvise discards in
    (d, rw (same_pid, ends) refl, memory', count, runs, agrees, elsewhere)
