-- ===== src/Restore/Table.antt =====
-- All modified maps: `restore_soft_dirty_memory` undoes what the request did to the memory.
use faasafe.Word.{add64}
use mathlib.Core.Path.{subst}
use native.Mathlib.Numerals.{add-one}
use faasafe.Prelude.{
  true≢false, refl, zero, suc, inl, inr, true, false, arith, ◌≡◌, ℕ, List, Bool, ◌+◌, ◌||◌, ◌&&◌,
  Bool-cases, ℕ_discrete, ◌<◌, ◌≤◌, All, ◌*◌, ◌^◌, not, ◌∙◌, sym, ap,
}
use faasafe.Maps.Table.{map_at, pages_before, pages_before_mono}
use faasafe.Types.{Map, MemInfo, Bytes, page_size}
use faasafe.Outcome.{returned}
use faasafe.Memory.{MemFile, Delivers}
use faasafe.Snapshot.Pages.{Holds, is_resident}
use faasafe.Restore.{restore_maps, add64}
use faasafe.Restore.Round.{IsAligned, in_range, page_at, covers, IsSmallRun}
use faasafe.Restore.Whole.{Agrees, AgreesIfClean, Undone, restore_map-undoes, inside}

-- The maps that the first loop does not skip.
abbrev pub is_touched : Map → Bool
is_touched m = m.dirty && (m.r || m.w)

abbrev pub on_map : MemInfo → ℕ → ℕ → Bool
on_map ps i q = in_range (map_at ps i).addr_start (map_at ps i).total_num_pages q

-- The modified maps are as the checkpoint and the difference leave them: disjoint, seen alike by
-- both states, with their resident pages in the buffer, and their clean pages unchanged.
pub record IsReady (mod_maps ini fin : MemInfo) (old memory : Bytes) : Type 0 where
  pub nonempty : (i : ℕ) → i < mod_maps.maps_count → 0 < (map_at mod_maps i).total_num_pages
  pub aligned : (i : ℕ) → i < mod_maps.maps_count → IsAligned ini fin (map_at mod_maps i)
  pub holds :
      (i : ℕ)
      → i < mod_maps.maps_count
      → Holds ini (map_at mod_maps i) (map_at mod_maps i).total_num_pages old ini.wmem
  pub clean :
      (i : ℕ) → i < mod_maps.maps_count → AgreesIfClean ini fin (map_at mod_maps i) old memory
  pub apart :
      (i j : ℕ)
      → i < mod_maps.maps_count
      → j < mod_maps.maps_count
      → ¬ (i ≡ j)
      → (q : ℕ) → on_map mod_maps i q ≡ true
      → on_map mod_maps j q ≡ false
  pub few_pages : pages_before mod_maps mod_maps.maps_count ≤ ini.pages_count
  pub page_count : ini.pages_count < 2 ^ 64

not_skipped : (m : Map) → is_touched m ≡ true → (not m.dirty || (not m.r && not m.w)) ≡ false
not_skipped m h = ground arith

is_skipped : (m : Map) → is_touched m ≡ false → (not m.dirty || (not m.r && not m.w)) ≡ true
is_skipped m h = ground arith

module _ (f : MemFile) (delivers : Delivers f) (ps ini fin : MemInfo) (old memory : Bytes)
    (ready : IsReady ps ini fin old memory) where
  -- The memory, queue and count once the maps before `i` are restored.
  pub record RestoredTo (i : ℕ) (now : Bytes) (queue : List (ℕ × ℕ)) (count : ℕ) : Type 0 where
    pub agrees :
        (j : ℕ) → j < i → is_touched (map_at ps j) ≡ true → Agrees ini (map_at ps j) old now
    pub pending :
        (j : ℕ) → i ≤ j → j < ps.maps_count → (q : ℕ) → on_map ps j q ≡ true → now q ≡ memory q
    pub elsewhere :
        (q : ℕ) → ((j : ℕ) → j < ps.maps_count → on_map ps j q ≡ false) → now q ≡ memory q
    pub few : count ≤ pages_before ps i
    pub runs_small : All IsSmallRun queue
    pub discards :
        (q : ℕ)
        → covers queue q ≡ true
        → (j : ℕ) × (j < i)
          × (on_map ps j q ≡ true)
          × (is_resident ini (map_at ps j) (page_at ini fin (map_at ps j) q) ≡ false)

  RestoredTo-skip :
      (i : ℕ) (now : Bytes) (queue : List (ℕ × ℕ)) (count : ℕ)
      → is_touched (map_at ps i) ≡ false
      → RestoredTo i now queue count
      → RestoredTo (suc i) now queue count
  RestoredTo-skip i now queue count skipped r = record {
    agrees = λ j h t. elim (ℕ_discrete j i) [
      | yes e ↦ absurd (true≢false (sym t ∙ ap (λ k. is_touched (map_at ps k)) e ∙ skipped))
      | no ne ↦ r.agrees j (omega arith) t
    ];
    pending = λ j le. r.pending j (omega arith);
    elsewhere = r.elsewhere;
    few = omega (arith, r.few);
    runs_small = r.runs_small;
    discards = λ q c. let (j, lt, on, gone) = r.discards q c in (j, omega arith, on, gone);
  }

  clean_now :
      (i : ℕ) (now : Bytes) (queue : List (ℕ × ℕ)) (count : ℕ)
      → i < ps.maps_count
      → RestoredTo i now queue count
      → AgreesIfClean ini fin (map_at ps i) old now
  clean_now i now queue count h r j lt res fresh k kl =
      r.pending i (omega arith) h ((map_at ps i).addr_start + j * page_size + k)
        (inside (map_at ps i) j k lt kl)
      ∙ ready.clean i h j lt res fresh k kl

  RestoredTo-touch :
      (i : ℕ) (now : Bytes) (queue : List (ℕ × ℕ)) (count : ℕ) (now' : Bytes)
      (queue' : List (ℕ × ℕ)) (more : ℕ)
      → i < ps.maps_count
      → RestoredTo i now queue count
      → Undone ini fin (map_at ps i) old now queue now' queue' more
      → RestoredTo (suc i) now' queue' (count + more)
  RestoredTo-touch i now queue count now' queue' more h r u = record {
    agrees = λ j lt t. elim (ℕ_discrete j i) [
      | yes e ↦ rw e u.agrees
      | no ne ↦ λ p pl res k kl.
          u.elsewhere ((map_at ps j).addr_start + p * page_size + k) (
            ready.apart j i (omega arith) h ne ((map_at ps j).addr_start + p * page_size + k)
              (inside (map_at ps j) p k pl kl))
          ∙ r.agrees j (omega arith) t p pl res k kl
    ];
    pending = λ j le lt q on.
        u.elsewhere q (ready.apart j i lt h (omega arith) q on) ∙ r.pending j (omega arith) lt q on;
    elsewhere = λ q out. u.elsewhere q (out i h) ∙ r.elsewhere q out;
    few = omega (arith, r.few, u.few);
    runs_small = u.runs_small;
    discards = λ q c. elim (u.discards q c) [
      | inl before ↦ let (j, lt, on, gone) = r.discards q before in (j, omega arith, on, gone)
      | inr (on, gone) ↦ (i, omega arith, on, gone)
    ];
  }

  pub restore_maps-RestoredTo :
      (n i : ℕ) (now : Bytes) (queue : List (ℕ × ℕ)) (count : ℕ)
      → i + n ≡ ps.maps_count
      → RestoredTo i now queue count
      → (now' : Bytes) × (queue' : List (ℕ × ℕ)) × (count' : ℕ) × (restore_maps f ps ini fin n i
            (now, queue, count)
          ≡ returned (now', queue', count'))
        × RestoredTo ps.maps_count now' queue' count'
  unfolding restore_maps
  restore_maps-RestoredTo zero i now queue count e r =
      let e' : i ≡ ps.maps_count = omega arith in
      (now, queue, count, refl, subst (λ k. RestoredTo k now queue count) e' r)
  restore_maps-RestoredTo (suc n) i now queue count e r =
      elim (Bool-cases (is_touched (map_at ps i))) [
        | inl touched ↦
            let h : i < ps.maps_count = omega arith in
            let (now1, queue1, more, runs, u) =
              restore_map-undoes ini fin (map_at ps i) (ready.aligned i h) f delivers old now queue
                (ready.holds i h) r.runs_small (ready.nonempty i h)
                (clean_now i now queue count h r) in
            let (now', queue', count', rest, done) =
              restore_maps-RestoredTo n (suc i) now1 queue1 (count + more) (omega arith)
                (RestoredTo-touch i now queue count now1 queue1 more h r u) in
            let total : add64 count more ≡ count + more = omega (
              arith,
              r.few,
              u.few,
              pages_before_mono ps (suc i) ps.maps_count h,
              ready.few_pages,
              ready.page_count,
            ) in
            (
              now',
              queue',
              count',
              rw (not_skipped (map_at ps i) touched, runs, add-one, total) rest,
              done,
            )
        | inr skipped ↦
            let (now', queue', count', rest, done) =
              restore_maps-RestoredTo n (suc i) now queue count (omega arith)
                (RestoredTo-skip i now queue count skipped r) in
            let total : add64 count 0 ≡ count = omega (
              arith,
              r.few,
              pages_before_mono ps i ps.maps_count (omega arith),
              ready.few_pages,
              ready.page_count,
            ) in
            (now', queue', count', rw (is_skipped (map_at ps i) skipped, add-one, total) rest, done)
      ]
