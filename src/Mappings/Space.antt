-- ===== src/Mappings/Space.antt =====
-- What the restoration of the mappings does to the address space.
use faasafe.Prelude.{
  refl, zero, suc, none, some, inl, inr, true, false, arith, ◌≡◌, ℕ, Bool, Option, if◌then◌else◌,
  ◌+◌, ◌||◌, not, ◌&&◌, leb, ltb, ◌∙◌, Bool-cases, ap, ◌%◌, ◌<◌, ◌≤◌, ◌^◌, sym, ◌/◌, ◌==◌,
}
use faasafe.Types.{Map, MemInfo, MemDiff, page_size}
use faasafe.Maps.Table.{map_at}
use faasafe.Outcome.{Outcome, returned}
use faasafe.Inject.Calls.{Calls}
use faasafe.Mappings.{
  is_heap_or_stack, prot_of, map_flags_of, size_of, for_maps, remove_map, remap_map,
  remove_added_memory, restore_removed_memory,
}

abbrev pub inside : ℕ → ℕ → ℕ → Bool
inside start size q = leb start q && ltb q (start + size)

-- A range that the calls accept: not empty, aligned, and in user space.
abbrev pub IsRange : ℕ → ℕ → Type 0
IsRange start size = (start % page_size ≡ 0) × (0 < size) × (start + size < 2 ^ 47)

-- How an address is mapped.
pub record Mapping : Type 0 where
  pub read : Bool
  pub write : Bool
  pub exec : Bool
  pub private : Bool

-- What `PROT_READ`, `PROT_WRITE` and `PROT_EXEC` allow, which are 1, 2 and 4.
abbrev pub protected : ℕ → Mapping → Mapping
protected prot now = record now {
  read = prot % 2 == 1;
  write = prot / 2 % 2 == 1;
  exec = prot / 4 % 2 == 1;
}

-- `MAP_FIXED`, 16, with one of `MAP_SHARED`, 1, and `MAP_PRIVATE`, 2.
abbrev pub IsFixed : ℕ → Bool → Type 0
IsFixed flags private =
    (flags / 16 % 2 ≡ 1) × ((flags % 2 == 1) ≡ not private) × ((flags / 2 % 2 == 1) ≡ private)

-- How a map of the tables is mapped.
abbrev pub mapping_of : Map → Mapping
mapping_of m = record { read = m.r; write = m.w; exec = m.x; private = m.p }

-- How each address is mapped, if it is, and the documented effect of the calls on it, on ranges
-- that they accept: `mmap` at a fixed address, where the wrapper adds `MAP_ANONYMOUS` to a file
-- descriptor of -1.
pub record HasSpace {S : Type 0} (c : Calls S) : Type 0 where
  pub mapping_at : S → ℕ → Option Mapping
  pub unmaps :
      (s : S) (start size : ℕ)
      → IsRange start size
      → (s' : S) × (c.munmap s start size ≡ returned s')
        × ((q : ℕ) → mapping_at s' q ≡ (if inside start size q then none else mapping_at s q))
  pub maps :
      (s : S) (start size prot flags : ℕ) (private : Bool)
      → IsRange start size
      → IsFixed flags private
      → (s' : S) × (c.mmap s start size prot flags 4294967295 ≡ returned s')
        × ((q : ℕ)
            → mapping_at s' q ≡ (
                if inside start size q
                then some (
                    protected prot
                      (record { read = false; write = false; exec = false; private = private }))
                else mapping_at s q))

-- The loops work on a map at an address of it, unless it is the heap or a stack.
abbrev pub works_on : Map → ℕ → Bool
works_on m q = not (is_heap_or_stack m) && inside m.addr_start (size_of m) q

-- What stands at `q` after a loop over the maps `i` to `i + n`, each of which sets what it works
-- on to its value: the last one wins.
abbrev pub after_maps :
    (Map → Option Mapping) → MemInfo → ℕ → ℕ → ℕ → Option Mapping → Option Mapping
after_maps value ps zero i q now = now
after_maps value ps (suc n) i q now =
    after_maps value ps n (i + 1) q (if works_on (map_at ps i) q then value (map_at ps i) else now)

-- Some of the maps works on `q`.
abbrev pub any_works_on : MemInfo → ℕ → ℕ → ℕ → Bool
any_works_on ps zero i q = false
any_works_on ps (suc n) i q = works_on (map_at ps i) q || any_works_on ps n (i + 1) q

map_flags_of-IsFixed : (m : Map) → IsFixed (map_flags_of m) m.p
unfolding map_flags_of
map_flags_of-IsFixed m = elim (Bool-cases m.p) [
  | inl private ↦ rw private (refl, refl, refl)
  | inr shared ↦ rw shared (refl, refl, refl)
]

-- The bits of the protection are those of the map.
pub read-prot_of : (m : Map) → (prot_of m % 2 == 1) ≡ m.r
unfolding prot_of
read-prot_of m = ground arith

pub write-prot_of : (m : Map) → (prot_of m / 2 % 2 == 1) ≡ m.w
unfolding prot_of
write-prot_of m = ground arith

pub exec-prot_of : (m : Map) → (prot_of m / 4 % 2 == 1) ≡ m.x
unfolding prot_of
exec-prot_of m = ground arith

protected-prot_of :
    (m : Map)
    → protected (prot_of m) (record { read = false; write = false; exec = false; private = m.p })
      ≡ mapping_of m
protected-prot_of m = rw (read-prot_of m, write-prot_of m, exec-prot_of m) refl

if_same : (b : Bool) (x : Option Mapping) → (if b then x else x) ≡ x
if_same true x = refl
if_same false x = refl

module _ {S : Type 0} (c : Calls S) (space : HasSpace c) where
  -- A body that sets the addresses of its map.
  abbrev Sets : (Map → S → Outcome S) → (Map → Option Mapping) → Type 0
  Sets body value =
      (m : Map) (s : S)
      → IsRange m.addr_start (size_of m)
      → (s' : S) × (body m s ≡ returned s')
        × ((q : ℕ)
            → space.mapping_at s' q ≡ (if works_on m q then value m else space.mapping_at s q))

  for_maps-Sets :
      (body : Map → S → Outcome S) (value : Map → Option Mapping)
      → Sets body value
      → (ps : MemInfo) (n i : ℕ) (s : S)
      → ((j : ℕ) → i ≤ j → j < i + n → IsRange (map_at ps j).addr_start (size_of (map_at ps j)))
      → (s' : S) × (for_maps c body ps n i s ≡ returned s')
        × ((q : ℕ) → space.mapping_at s' q ≡ after_maps value ps n i q (space.mapping_at s q))
  unfolding for_maps
  for_maps-Sets body value sets ps zero i s ranges = (s, refl, λ q. refl)
  for_maps-Sets body value sets ps (suc n) i s ranges =
      let (s1, runs, is) = sets (map_at ps i) s (ranges i (omega arith) (omega arith)) in
      let (s', rest, done) =
        for_maps-Sets body value sets ps n (i + 1) s1
          (λ j le lt. ranges j (omega arith) (omega arith)) in
      (s', rw runs rest, λ q. done q ∙ ap (after_maps value ps n (i + 1) q) (is q))

  remove_map-Sets : Sets (remove_map c) (λ m. none)
  unfolding remove_map
  remove_map-Sets m s range = elim (Bool-cases (is_heap_or_stack m)) [
    | inl skip ↦ (s, rw skip refl, λ q. rw skip refl)
    | inr work ↦
        let (s', runs, is) = space.unmaps s m.addr_start (size_of m) range in
        (s', rw work runs, λ q. rw work (is q))
  ]

  remap_map-Sets : Sets (remap_map c) (λ m. some (mapping_of m))
  unfolding remap_map
  remap_map-Sets m s range = elim (Bool-cases (is_heap_or_stack m)) [
    | inl skip ↦ (s, rw skip refl, λ q. rw skip refl)
    | inr work ↦
        let (s', runs, is) =
          space.maps s m.addr_start (size_of m) (prot_of m) (map_flags_of m) m.p range
            (map_flags_of-IsFixed m) in
        (s', rw work runs, λ q. rw work (rw (sym (protected-prot_of m)) (is q)))
  ]

  after_maps-none :
      (ps : MemInfo) (n i q : ℕ) (now : Option Mapping)
      → after_maps (λ m. none) ps n i q now ≡ (if any_works_on ps n i q then none else now)
  after_maps-none ps zero i q now = refl
  after_maps-none ps (suc n) i q now = elim (Bool-cases (works_on (map_at ps i) q)) [
    | inl work ↦
        rw work (after_maps-none ps n (i + 1) q none ∙ if_same (any_works_on ps n (i + 1) q) none)
    | inr skip ↦ rw skip (after_maps-none ps n (i + 1) q now)
  ]

  -- If the added maps have ranges that the calls accept, `remove_added_memory` returns. It unmaps
  -- exactly the addresses of the added maps that are neither heap nor stack, and changes no other
  -- mapping.
  pub remove_added_memory-unmaps :
      (p_diff : MemDiff) (s : S)
      → ((i : ℕ)
          → i < p_diff.added.maps_count
          → IsRange (map_at p_diff.added i).addr_start (size_of (map_at p_diff.added i)))
      → (s' : S) × (remove_added_memory c p_diff s ≡ returned s')
        × ((q : ℕ)
            → space.mapping_at s' q ≡ (
                if any_works_on p_diff.added p_diff.added.maps_count 0 q
                then none
                else space.mapping_at s q))
  unfolding remove_added_memory
  remove_added_memory-unmaps p_diff s ranges =
      let (s', runs, is) =
        for_maps-Sets (remove_map c) (λ m. none) remove_map-Sets p_diff.added
          p_diff.added.maps_count 0 s (λ i le lt. ranges i (omega arith)) in
      (
        s',
        runs,
        λ q. is q ∙ after_maps-none p_diff.added p_diff.added.maps_count 0 q (space.mapping_at s q),
      )

  -- If the removed maps have ranges that the calls accept, `restore_removed_memory` returns. It maps
  -- the addresses of the removed maps that are neither heap nor stack, each readable,
  -- writable, executable and private as the last such map that has it, and changes no other mapping.
  pub restore_removed_memory-remaps :
      (p_diff : MemDiff) (s : S)
      → ((i : ℕ)
          → i < p_diff.removed.maps_count
          → IsRange (map_at p_diff.removed i).addr_start (size_of (map_at p_diff.removed i)))
      → (s' : S) × (restore_removed_memory c p_diff s ≡ returned s')
        × ((q : ℕ)
            → space.mapping_at s' q
              ≡ after_maps
                  (λ m. some (mapping_of m))
                  p_diff.removed
                  p_diff.removed.maps_count
                  0
                  q
                  (space.mapping_at s q))
  unfolding restore_removed_memory
  restore_removed_memory-remaps p_diff s ranges =
      for_maps-Sets (remap_map c) (λ m. some (mapping_of m)) remap_map-Sets p_diff.removed
        p_diff.removed.maps_count 0 s (λ i le lt. ranges i (omega arith))
