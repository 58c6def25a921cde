-- ===== src/Snapshot/Pages.antt =====
-- Where the copy of each resident page of a map lies in `wmem`.
use faasafe.Memory.Loops.{Copied, read_loop-Finished}
use mathlib.Core.Path.{subst}
use faasafe.Outcome.{returned}
use faasafe.Snapshot.{copy_paged, populate_memory_copy_info_map}
use faasafe.Memory.{MemFile, Delivers, store, Transfer}
use faasafe.Prelude.{
  zero, suc, true, arith, ◌≡◌, ℕ, Bool, get_or, ltb, ◌+◌, ◌<◌, ◌≤◌, if◌then◌else◌, ◌*◌, ◌^◌, refl,
  ℕ_discrete, ◌⊎◌, ◌∙◌, ◌-◌,
}
use faasafe.Types.{Map, Page, MemInfo, Bytes, page_size, zero_page}

-- Page `j` of the map `m`, in the table of pages of `ps`.
abbrev pub page_of : MemInfo → Map → ℕ → Page
page_of ps m j = get_or ps.pages (m.first_page_index + j) zero_page

abbrev pub is_resident : MemInfo → Map → ℕ → Bool
is_resident ps m j = ltb 0 (page_of ps m j).pfn

-- The number of resident pages before page `j`.
abbrev pub rank : MemInfo → Map → ℕ → ℕ
rank ps m zero = 0
rank ps m (suc j) = rank ps m j + (if is_resident ps m j then 1 else 0)

pub rank-le : (ps : MemInfo) (m : Map) (j : ℕ) → rank ps m j ≤ j
rank-le ps m zero = omega arith
rank-le ps m (suc j) = ground (arith, rank-le ps m j)

-- A map as the parsing leaves it, of less than 2 GiB: no `int` of the copying loops overflows.
pub record IsCaptured (ps : MemInfo) (m : Map) : Type 0 where
  pub range : m.addr_end ≡ m.addr_start + m.total_num_pages * page_size
  pub below : m.addr_end < 2 ^ 63
  pub small : m.total_num_pages < 2 ^ 19
  pub paged : m.total_num_paged_pages ≡ rank ps m m.total_num_pages
  pub page_table : m.first_page_index < 2 ^ 32
  pub buffer : m.first_wmem_index < 2 ^ 40

-- `wmem` holds the pages of `m` before `n` that are resident, in order, as they are in `memory`.
abbrev pub Holds : MemInfo → Map → ℕ → Bytes → Bytes → Type 0
Holds ps m n memory wmem =
    (j : ℕ)
    → j < n
    → is_resident ps m j ≡ true
    → (k : ℕ) → k < page_size
    → wmem ((m.first_wmem_index + rank ps m j) * page_size + k)
      ≡ memory (m.addr_start + j * page_size + k)

module _ (ps : MemInfo) (m : Map) where
  -- Where the copy of page `j` goes, if it is resident.
  abbrev pub slot : ℕ → ℕ
  slot j = (m.first_wmem_index + rank ps m j) * page_size

  -- Nothing is written outside the slots of the map.
  abbrev pub Untouched : ℕ → Bytes → Bytes → Type 0
  Untouched n wmem wmem' =
      (q : ℕ) → ((q < m.first_wmem_index * page_size) ⊎ (slot n ≤ q)) → wmem' q ≡ wmem q

  pub rank_mono : (j n : ℕ) → j ≤ n → rank ps m j ≤ rank ps m n
  rank_mono j zero h = let e : j ≡ 0 = omega arith in rw e (omega arith)
  rank_mono j (suc n) h = elim (ℕ_discrete j (suc n)) [
    | yes e ↦ rw e (omega arith)
    | no ne ↦ ground (arith, rank_mono j n (omega arith))
  ]

  -- A resident page comes before every later one.
  pub rank_lt : (j n : ℕ) → j < n → is_resident ps m j ≡ true → rank ps m j < rank ps m n
  rank_lt j zero h r = absurd (omega arith)
  rank_lt j (suc n) h r = elim (ℕ_discrete j n) [
    | yes e ↦ rw (← e, r) (omega arith)
    | no ne ↦ ground (arith, rank_lt j n (omega arith) r)
  ]

  -- Between two pages there are at most as many resident pages as pages.
  pub rank_gap : (j n : ℕ) → j ≤ n → rank ps m n ≤ rank ps m j + (n - j)
  rank_gap j zero h = let e : j ≡ 0 = omega arith in rw e (omega arith)
  rank_gap j (suc n) h = elim (ℕ_discrete j (suc n)) [
    | yes e ↦ rw e (omega arith)
    | no ne ↦ ground (arith, rank_gap j n (omega arith))
  ]

module _ (f : MemFile) (delivers : Delivers f) (memory : Bytes) (ps : MemInfo) (m : Map)
    (c : IsCaptured ps m) where
  abbrev copy_page : ℕ → Bytes → Bytes
  copy_page i wmem =
      if is_resident ps m i
      then store wmem (slot ps m i) memory (m.addr_start + i * page_size) page_size
      else wmem

  copy_paged-step :
      (n i : ℕ) (wmem : Bytes)
      → i < m.total_num_pages
      → copy_paged f memory ps m (suc n) i (rank ps m i) wmem
        ≡ copy_paged f memory ps m n (suc i) (rank ps m (suc i)) (copy_page i wmem)
  unfolding copy_paged
  copy_paged-step n i wmem h =
      ground (arith, delivers.pread_page memory (m.addr_start + i * page_size), rank-le ps m i)

  Holds-copy_page :
      (i : ℕ) (wmem : Bytes)
      → Holds ps m i memory wmem
      → Holds ps m (suc i) memory (copy_page i wmem)
  Holds-copy_page i wmem h j lt r k kl = elim (ℕ_discrete j i) [
    | yes e ↦ let r' : is_resident ps m i ≡ true = rw e at r in rw e ground arith
    | no ne ↦ ground (arith, h j (omega arith) r k kl, rank_lt ps m j i (omega arith) r)
  ]

  Untouched-copy_page : (i n : ℕ) (wmem : Bytes) → i < n → Untouched ps m n wmem (copy_page i wmem)
  Untouched-copy_page i n wmem h q out = ground (arith, rank_mono ps m (suc i) n h)

  -- The pages from `i` on are copied behind those before.
  copy_paged-Holds :
      (n i : ℕ) (wmem : Bytes)
      → i + n ≡ m.total_num_pages
      → Holds ps m i memory wmem
      → let wmem' = copy_paged f memory ps m n i (rank ps m i) wmem in
        Holds ps m m.total_num_pages memory wmem' × Untouched ps m m.total_num_pages wmem wmem'
  unfolding copy_paged
  copy_paged-Holds zero i wmem e h =
      let e' : i ≡ m.total_num_pages = omega arith in
      (subst (λ n. Holds ps m n memory wmem) e' h, λ q o. refl)
  copy_paged-Holds (suc n) i wmem e h =
      let (holds, out) =
        copy_paged-Holds n (suc i) (copy_page i wmem) (omega arith) (Holds-copy_page i wmem h) in
      rw (copy_paged-step n i wmem (omega arith))
        (holds, λ q o. out q o ∙ Untouched-copy_page i m.total_num_pages wmem (omega arith) q o)

  -- A map that is wholly resident is copied as it stands.
  Holds-whole :
      (wmem wmem' : Bytes)
      → rank ps m m.total_num_pages ≡ m.total_num_pages
      → Copied wmem
          (m.first_wmem_index * page_size)
          memory
          m.addr_start
          (m.total_num_pages * page_size)
          wmem'
      → Holds ps m m.total_num_pages memory wmem' × Untouched ps m m.total_num_pages wmem wmem'
  Holds-whole wmem wmem' full copied = (
    λ j h r k kl. ground (
      arith,
      copied ((m.first_wmem_index + rank ps m j) * page_size + k),
      rank-le ps m j,
      rank_gap ps m j m.total_num_pages (omega arith),
    ),
    λ q o. ground (arith, copied q),
  )

  -- For a captured map that is not empty, and a memory file that delivers,
  -- `populate_memory_copy_info_map` returns: afterwards the buffer holds every resident page of the
  -- map in its slot, and nothing outside the slots of the map has changed.
  pub populate_map-Holds :
      0 < m.total_num_pages
      → (wmem : Bytes) × (populate_memory_copy_info_map f memory ps m ≡ returned wmem)
        × Holds ps m m.total_num_pages memory wmem
        × Untouched ps m m.total_num_pages ps.wmem wmem
  unfolding populate_memory_copy_info_map
  populate_map-Holds pos = elim (ℕ_discrete m.total_num_paged_pages m.total_num_pages) [
    | yes e ↦
        let base = m.first_wmem_index * page_size in
        let total = m.total_num_pages * page_size in
        let start : Transfer = record { into = ps.wmem; r = 0 } in
        let (t, runs, fin) =
          read_loop-Finished f delivers ps.wmem memory base m.addr_start total (omega arith)
            (omega arith) (total + 1) start (omega arith) (omega arith) (λ q. ground arith) in
        let (holds, out) = Holds-whole ps.wmem t.into (omega arith) fin.copied in
        (t.into, ground arith, holds, out)
    | no ne ↦
        let (holds, out) =
          copy_paged-Holds m.total_num_pages 0 ps.wmem (omega arith)
            (λ j h. absurd (omega arith)) in
        (copy_paged f memory ps m m.total_num_pages 0 0 ps.wmem, ground arith, holds, out)
  ]
