-- ===== src/Restore/Whole.antt =====
-- One map, by either branch: what was resident at the checkpoint is as it was then.
use faasafe.Word.{mul64}
use faasafe.Memory.Loops.{write_loop-Finished}
use faasafe.Prelude.{
  refl, suc, some, inl, inr, true, false, arith, ◌≡◌, ℕ, List, Bool, ◌+◌, ◌||◌, ◌&&◌, Bool-cases,
  ◌*◌, ◌<◌, if◌then◌else◌, ◌-◌, ◌≤◌, ◌%◌, ◌/◌, ◌∙◌, ap, sym, All, not, ◌⊎◌,
}
use faasafe.Types.{Map, MemInfo, Bytes, page_size}
use faasafe.Outcome.{returned}
use faasafe.Memory.{MemFile, Delivers, Transfer, write_loop}
use faasafe.Snapshot.Pages.{Holds, rank, is_resident, rank-le, rank_gap}
use faasafe.Restore.{restores_whole, restore_whole, restore_soft_dirty_memory_map, mul64}
use faasafe.Restore.Round.{
  IsAligned, in_range, is_stale, page_at, repaired, stale_count, stale_count-le, IsSmallRun, covers,
}
use faasafe.Restore.OneMap.{restore_map-repairs}

-- What was resident in `m` at the checkpoint is in `memory` as it is in `old`.
abbrev pub Agrees : MemInfo → Map → Bytes → Bytes → Type 0
Agrees ini m old memory =
    (j : ℕ)
    → j < m.total_num_pages
    → is_resident ini m j ≡ true
    → (k : ℕ) → k < page_size
    → memory (m.addr_start + j * page_size + k) ≡ old (m.addr_start + j * page_size + k)

-- The kernel's promise: a page that is neither soft-dirty nor freed has not changed.
abbrev pub AgreesIfClean : MemInfo → MemInfo → Map → Bytes → Bytes → Type 0
AgreesIfClean ini fin m old memory =
    (j : ℕ)
    → j < m.total_num_pages
    → is_resident ini m j ≡ true
    → is_stale ini fin m j ≡ false
    → (k : ℕ) → k < page_size
    → memory (m.addr_start + j * page_size + k) ≡ old (m.addr_start + j * page_size + k)

pub page_at-offset :
    (ini : MemInfo) (fin : MemInfo) (m : Map) (j k : ℕ)
    → k < page_size
    → page_at ini fin m (m.addr_start + j * page_size + k) ≡ j
page_at-offset ini fin m j k h = omega arith

repaired_at :
    (ini fin : MemInfo) (m : Map) (old memory : Bytes) (j k : ℕ)
    → j < m.total_num_pages
    → k < page_size
    → let q = m.addr_start + j * page_size + k in
      repaired ini fin m old memory m.total_num_pages q
      ≡ (if is_stale ini fin m j then old q else memory q)
repaired_at ini fin m old memory j k h kl =
    let inside : in_range m.addr_start m.total_num_pages (m.addr_start + j * page_size + k) ≡ true =
      ground arith in
    rw (inside, page_at-offset ini fin m j k kl) refl

split_or :
    (a b c d : Bool) → (a || (b && (not c && d))) ≡ true → (a ≡ true) ⊎ ((b ≡ true) × (c ≡ false))
split_or a b c d h = ground arith

pub inside :
    (m : Map) (j k : ℕ)
    → j < m.total_num_pages
    → k < page_size
    → in_range m.addr_start m.total_num_pages (m.addr_start + j * page_size + k) ≡ true
inside m j k h kl = ground arith

-- What the restoration of a map promises of the new memory, queue and count.
pub record Undone (ini fin : MemInfo) (m : Map) (old memory : Bytes) (madvises : List (ℕ × ℕ))
    (memory' : Bytes) (queue : List (ℕ × ℕ)) (count : ℕ) : Type 0 where
  pub agrees : Agrees ini m old memory'
  pub elsewhere : (q : ℕ) → in_range m.addr_start m.total_num_pages q ≡ false → memory' q ≡ memory q
  pub few : count ≤ m.total_num_pages
  pub runs_small : All IsSmallRun queue
  pub discards :
      (q : ℕ)
      → covers queue q ≡ true
      → (covers madvises q ≡ true)
        ⊎ ((in_range m.addr_start m.total_num_pages q ≡ true)
            × (is_resident ini m (page_at ini fin m q) ≡ false))

module _ (ini fin : MemInfo) (m : Map) (aligned : IsAligned ini fin m) (f : MemFile)
    (delivers : Delivers f) (old memory : Bytes) (madvises : List (ℕ × ℕ))
    (holds : Holds ini m m.total_num_pages old ini.wmem)
    (runs_small : All IsSmallRun madvises) where
  -- If all pages were resident, each has as many resident pages before it as pages.
  rank_full :
      rank ini m m.total_num_pages ≡ m.total_num_pages
      → (j : ℕ) → j < m.total_num_pages
      → (rank ini m j ≡ j) × (is_resident ini m j ≡ true)
  rank_full e j lt =
      let here : rank ini m j ≡ j =
        omega (arith, rank-le ini m j, rank_gap ini m j m.total_num_pages (omega arith)) in
      let next : rank ini m (suc j) ≡ suc j =
        omega
          (arith, rank-le ini m (suc j), rank_gap ini m (suc j) m.total_num_pages (omega arith)) in
      (here, ground arith)

  -- If every page was resident, the buffer holds the whole map as one piece.
  holds_all :
      rank ini m m.total_num_pages ≡ m.total_num_pages
      → (q : ℕ) → m.addr_start ≤ q
      → q < m.addr_start + m.total_num_pages * page_size
      → ini.wmem (m.first_wmem_index * page_size + (q - m.addr_start)) ≡ old q
  holds_all e q pos below =
      let j = (q - m.addr_start) / page_size in
      let k = (q - m.addr_start) % page_size in
      let lt : j < m.total_num_pages = omega arith in
      let kl : k < page_size = omega arith in
      let (r, res) = rank_full e j lt in
      let back : m.addr_start + j * page_size + k ≡ q = omega arith in
      let there : (m.first_wmem_index + rank ini m j) * page_size + k
          ≡ m.first_wmem_index * page_size + (q - m.addr_start) =
        omega arith in
      ap ini.wmem (sym there) ∙ holds j lt res k kl ∙ ap old back

  restore_whole-runs :
      (t : Transfer)
      → write_loop f ini.wmem
          (m.first_wmem_index * page_size)
          m.addr_start
          (m.total_num_pages * page_size)
          (m.total_num_pages * page_size + 1)
          (record { into = memory; r = 0 })
        ≡ some t
      → t.r ≡ m.total_num_pages * page_size
      → restore_whole f ini m memory madvises ≡ returned (t.into, madvises, m.total_num_pages)
  unfolding restore_whole
  restore_whole-runs t runs e =
      let c = aligned.captured in
      let total : mul64 page_size m.total_num_pages ≡ m.total_num_pages * page_size =
        omega (arith, c.small) in
      let base : mul64 m.first_wmem_index page_size ≡ m.first_wmem_index * page_size =
        omega (arith, c.buffer) in
      rw (total, base, runs) ground (arith, c.small)

  full_of_whole : restores_whole m ≡ true → m.total_num_paged_pages ≡ m.total_num_pages
  unfolding restores_whole
  full_of_whole whole = ground arith

  -- The branch that writes the whole map makes it as it was at the checkpoint.
  restore_map-whole :
      restores_whole m ≡ true
      → 0 < m.total_num_pages
      → (memory' : Bytes) × (restore_soft_dirty_memory_map f ini fin m memory madvises
          ≡ returned (memory', madvises, m.total_num_pages))
        × ((q : ℕ)
            → memory' q ≡ (if in_range m.addr_start m.total_num_pages q then old q else memory q))
  unfolding restore_soft_dirty_memory_map
  restore_map-whole whole pos =
      let c = aligned.captured in
      let full : rank ini m m.total_num_pages ≡ m.total_num_pages =
        omega (arith, c.paged, full_of_whole whole) in
      let base = m.first_wmem_index * page_size in
      let total = m.total_num_pages * page_size in
      let begin : Transfer = record { into = memory; r = 0 } in
      let (t, runs, done) =
        write_loop-Finished f delivers memory ini.wmem base m.addr_start total
          (omega (arith, c.small)) (omega (arith, c.range, c.below)) (total + 1) begin (omega arith)
          (omega arith) (λ q. ground arith) in
      (
        t.into,
        rw whole (restore_whole-runs t runs done.all_moved),
        λ q. done.copied q ∙ ground (arith, holds_all full q),
      )

  -- For an aligned map that is not empty, whose resident pages are in the buffer, and a memory file
  -- that delivers, the restoration returns by either branch. If the pages that are neither soft-dirty
  -- nor freed have not changed, then every page of the map that was resident at the checkpoint is
  -- as it was then, no byte outside the map changes, at most as many pages as the map has are
  -- counted, and of the map only pages that were not resident are queued to be discarded, in runs
  -- of less than 2 GiB.
  pub restore_map-undoes :
      0 < m.total_num_pages
      → AgreesIfClean ini fin m old memory
      → (memory' : Bytes) × (queue : List (ℕ × ℕ)) × (count : ℕ) × (restore_soft_dirty_memory_map f
            ini fin m memory madvises
          ≡ returned (memory', queue, count))
        × Undone ini fin m old memory madvises memory' queue count
  restore_map-undoes pos clean = elim (Bool-cases (restores_whole m)) [
    | inl whole ↦
        let (memory', runs, is) = restore_map-whole whole pos in
        (
          memory',
          madvises,
          m.total_num_pages,
          runs,
          record {
            agrees =
                λ j h r k kl. is (m.addr_start + j * page_size + k) ∙ rw (inside m j k h kl) refl;
            elsewhere = λ q out. ground (arith, is q);
            few = omega arith;
            runs_small = runs_small;
            discards = λ q c. inl c;
          },
        )
    | inr paged ↦
        let (memory', queue, runs, small, is, queued) =
          restore_map-repairs ini fin m aligned f delivers old memory madvises holds runs_small
            paged in
        (
          memory',
          queue,
          stale_count ini fin m m.total_num_pages,
          runs,
          record {
            agrees = λ j h r k kl.
                is (m.addr_start + j * page_size + k)
                ∙ repaired_at ini fin m old memory j k h kl
                ∙ elim (Bool-cases (is_stale ini fin m j)) [
                  | inl stale ↦ rw stale refl
                  | inr fresh ↦ rw fresh (clean j h r fresh k kl)
                ];
            elsewhere = λ q out. is q ∙ rw out refl;
            few = stale_count-le ini fin m m.total_num_pages;
            runs_small = small;
            discards = λ q c.
                split_or (covers madvises q) (in_range m.addr_start m.total_num_pages q)
                  (is_resident ini m (page_at ini fin m q))
                  (is_resident fin m (page_at ini fin m q)) (sym (queued q) ∙ c);
          },
        )
  ]
