-- ===== src/Mappings/Protection.antt =====
-- What the restoration of the protections does to the address space.
use faasafe.Maps.Table.{map_at}
use faasafe.Outcome.{returned}
use faasafe.Mappings.{for_maps, restore_memory_protection, protect_map, size_of, prot_of, Map}
use faasafe.Types.{MemInfo, MemDiff, Map}
use faasafe.Mappings.Space.{
  HasSpace, IsRange, inside, Mapping, protected, read-prot_of, write-prot_of, exec-prot_of,
}
use faasafe.Inject.Calls.{Calls}
use faasafe.Prelude.{
  refl, zero, suc, ◌≡◌, ℕ, some, inl, inr, true, arith, Option, if◌then◌else◌, Bool-cases, ◌+◌, ◌<◌,
  ◌∙◌, ◌≤◌, ap, none,
}

-- A mapping with a new protection.
abbrev pub set_protection : ℕ → Option Mapping → Option Mapping
set_protection prot none = none
set_protection prot (some now) = some (protected prot now)

-- A mapping that may be read, written and executed as a map of the tables may.
abbrev pub with_rights_of : Map → Option Mapping → Option Mapping
with_rights_of m none = none
with_rights_of m (some now) = some (record now { read = m.r; write = m.w; exec = m.x })

set_protection-prot_of :
    (m : Map) (now : Option Mapping) → set_protection (prot_of m) now ≡ with_rights_of m now
set_protection-prot_of m none = refl
set_protection-prot_of m (some now) = rw (read-prot_of m, write-prot_of m, exec-prot_of m) refl

module _ {S : Type 0} (c : Calls S) (space : HasSpace c) where
  -- All addresses of a range are mapped.
  abbrev pub IsMapped : S → ℕ → ℕ → Type 0
  IsMapped s start size =
      (q : ℕ) → inside start size q ≡ true → (now : Mapping) × (space.mapping_at s q ≡ some now)

  -- The documented effect of `mprotect`, on a range that it accepts and that is mapped.
  pub record CanProtect : Type 0 where
    pub protects :
        (s : S) (start size prot : ℕ)
        → IsRange start size
        → IsMapped s start size
        → (s' : S) × (c.mprotect s start size prot ≡ returned s')
          × ((q : ℕ)
              → space.mapping_at s' q ≡ (
                  if inside start size q
                  then set_protection prot (space.mapping_at s q)
                  else space.mapping_at s q))

  -- What stands at `q` after the maps `i` to `i + n` have been protected: the last one that has it wins.
  abbrev pub after_protection : MemInfo → ℕ → ℕ → ℕ → Option Mapping → Option Mapping
  after_protection ps zero i q now = now
  after_protection ps (suc n) i q now =
      let m = map_at ps i in
      after_protection ps n (i + 1) q
        (if inside m.addr_start (size_of m) q then with_rights_of m now else now)

  module _ (can : CanProtect) where
    -- A range stays mapped.
    IsMapped-protect :
        (s s' : S) (start size start' size' prot : ℕ)
        → ((q : ℕ)
            → space.mapping_at s' q ≡ (
                if inside start size q
                then set_protection prot (space.mapping_at s q)
                else space.mapping_at s q))
        → IsMapped s start' size'
        → IsMapped s' start' size'
    IsMapped-protect s s' start size start' size' prot is mapped q here =
        let (now, e) = mapped q here in
        elim (Bool-cases (inside start size q)) [
          | inl changed ↦ (protected prot now, is q ∙ rw (changed, e) refl)
          | inr kept ↦ (now, is q ∙ rw kept e)
        ]

    for_maps-protect :
        (ps : MemInfo) (n i : ℕ) (s : S)
        → ((j : ℕ) → i ≤ j → j < i + n → IsRange (map_at ps j).addr_start (size_of (map_at ps j)))
        → ((j : ℕ)
            → i ≤ j
            → j < i + n
            → IsMapped s (map_at ps j).addr_start (size_of (map_at ps j)))
        → (s' : S) × (for_maps c (protect_map c) ps n i s ≡ returned s')
          × ((q : ℕ) → space.mapping_at s' q ≡ after_protection ps n i q (space.mapping_at s q))
    unfolding for_maps protect_map
    for_maps-protect ps zero i s ranges mapped = (s, refl, λ q. refl)
    for_maps-protect ps (suc n) i s ranges mapped =
        let m = map_at ps i in
        let (s1, runs, is) =
          can.protects s m.addr_start (size_of m) (prot_of m) (ranges i (omega arith) (omega arith))
            (mapped i (omega arith) (omega arith)) in
        let (s', rest, done) =
          for_maps-protect ps n (i + 1) s1 (λ j le lt. ranges j (omega arith) (omega arith))
            (λ j le lt.
              IsMapped-protect s s1 m.addr_start (size_of m) (map_at ps j).addr_start
                (size_of (map_at ps j)) (prot_of m) is (mapped j (omega arith) (omega arith))) in
        (
          s',
          rw runs rest,
          λ q.
              done q
              ∙ ap (after_protection ps n (i + 1) q) (
                  is q
                  ∙ ap (λ x. if inside m.addr_start (size_of m) q then x else space.mapping_at s q)
                      (set_protection-prot_of m (space.mapping_at s q))),
        )

    -- If the maps whose protection has changed have ranges that `mprotect` accepts and that are
    -- mapped, `restore_memory_protection` returns. Each address of these maps may be read, written
    -- and executed as the last of them that has it says, stays private or shared, and nothing else
    -- changes.
    pub restore_memory_protection-protects :
        (p_diff : MemDiff) (s : S)
        → ((i : ℕ)
            → i < p_diff.modified_protection.maps_count
            → IsRange
                (map_at p_diff.modified_protection i).addr_start
                (size_of (map_at p_diff.modified_protection i)))
        → ((i : ℕ)
            → i < p_diff.modified_protection.maps_count
            → IsMapped s
                (map_at p_diff.modified_protection i).addr_start
                (size_of (map_at p_diff.modified_protection i)))
        → (s' : S) × (restore_memory_protection c p_diff s ≡ returned s')
          × ((q : ℕ)
              → space.mapping_at s' q
                ≡ after_protection p_diff.modified_protection p_diff.modified_protection.maps_count
                    0 q
                    (space.mapping_at s q))
    unfolding restore_memory_protection
    restore_memory_protection-protects p_diff s ranges mapped =
        for_maps-protect p_diff.modified_protection p_diff.modified_protection.maps_count 0 s
          (λ i le lt. ranges i (omega arith)) (λ i le lt. mapped i (omega arith))
