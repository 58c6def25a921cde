-- ===== src/Cycle/Written.antt =====
-- The comparison and the writing back, when the request has only written to memory.
use faasafe.Maps.Table.{map_at, pages_before}
use faasafe.Restore.Table.{is_touched, on_map}
use faasafe.Restore.Round.{in_range, IsAligned, is_stale}
use faasafe.Restore.Whole.{Agrees, AgreesIfClean}
use faasafe.Snapshot.Pages.{Holds}
use faasafe.Checkpoint.Clean.{AllClean}
use faasafe.Mappings.Kept.{SameOutlines}
use faasafe.Diff.{same_region, with_counts_of}
use faasafe.Prelude.{refl, ◌≡◌, ℕ, true, false, arith, ◌<◌, ◌||◌, ◌≤◌, ◌^◌}
use faasafe.Types.{Map, MemInfo, Bytes}

-- The two states of a process that has only written to its memory since the checkpoint: the
-- checkpointed one is clean, holds the resident pages as they were in `old`, and its maps lie
-- apart; the kernel counts, and marks, what has been written to since.
pub record IsWritten (ini fin : MemInfo) (old memory : Bytes) : Type 0 where
  pub outlines : SameOutlines ini fin
  pub clean : AllClean ini
  pub nonempty : (i : ℕ) → i < ini.maps_count → 0 < (map_at ini i).total_num_pages
  pub aligned : (i : ℕ) → i < ini.maps_count → IsAligned ini fin (map_at ini i)
  pub holds :
      (i : ℕ)
      → i < ini.maps_count
      → Holds ini (map_at ini i) (map_at ini i).total_num_pages old ini.wmem
  pub unchanged : (i : ℕ) → i < ini.maps_count → AgreesIfClean ini fin (map_at ini i) old memory
  pub counted :
      (i : ℕ)
      → i < ini.maps_count
      → (map_at fin i).soft_dirty_count ≡ 0
      → (map_at fin i).freed_count ≡ 0
      → (j : ℕ) → j < (map_at ini i).total_num_pages
      → is_stale ini fin (map_at ini i) j ≡ false
  pub apart :
      (i j : ℕ)
      → i < ini.maps_count
      → j < ini.maps_count
      → ¬ (i ≡ j)
      → (q : ℕ) → on_map ini i q ≡ true
      → on_map ini j q ≡ false
  pub few_pages : pages_before ini ini.maps_count ≤ ini.pages_count
  pub page_count : ini.pages_count < 2 ^ 64

-- New counts leave the place of a map as it is.
module _ (ini fin : MemInfo) (a b : Map) (old memory : Bytes) where
  pub IsAligned-counts : IsAligned ini fin a → IsAligned ini fin (with_counts_of b a)
  unfolding with_counts_of
  IsAligned-counts aligned =
      let d = aligned.captured in
      record {
        captured = record {
          range = d.range;
          below = d.below;
          small = d.small;
          paged = d.paged;
          page_table = d.page_table;
          buffer = d.buffer;
        };
        ini_addr = aligned.ini_addr;
        fin_addr = aligned.fin_addr;
      }

  pub pages-counts : (with_counts_of b a).total_num_pages ≡ a.total_num_pages
  unfolding with_counts_of
  pages-counts = refl

  pub Holds-counts :
      Holds ini a a.total_num_pages old ini.wmem
      → Holds ini (with_counts_of b a) (with_counts_of b a).total_num_pages old ini.wmem
  unfolding with_counts_of
  Holds-counts h = h

  pub AgreesIfClean-counts :
      AgreesIfClean ini fin a old memory → AgreesIfClean ini fin (with_counts_of b a) old memory
  unfolding with_counts_of
  AgreesIfClean-counts h = h

  pub Agrees-counts : Agrees ini (with_counts_of b a) old memory → Agrees ini a old memory
  unfolding with_counts_of
  Agrees-counts h = h

  pub range-counts :
      (q : ℕ)
      → in_range (with_counts_of b a).addr_start (with_counts_of b a).total_num_pages q
        ≡ in_range a.addr_start a.total_num_pages q
  unfolding with_counts_of
  range-counts q = refl

  pub is_touched-counts : is_touched (with_counts_of b a) ≡ (a.r || a.w)
  unfolding with_counts_of
  is_touched-counts = refl

pub same_region-counts :
    (a b : Map)
    → same_region a b ≡ true
    → (a.soft_dirty_count ≡ b.soft_dirty_count) × (a.freed_count ≡ b.freed_count)
unfolding same_region
same_region-counts a b h = ground (arith, h)
