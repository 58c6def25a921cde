-- ===== src/Mappings/Kept.antt =====
-- When the request has mapped nothing, unmapped nothing and changed no protection.
use faasafe.Word.{to_int, sub64}
use faasafe.Diff.Tables.{diff_process_maps-Result}
use faasafe.Outcome.{returned}
use faasafe.Mappings.{
  named, restore_brk, restore_mappings, zero_stack, heap_name, remove_added_memory, stack_name,
  restore_removed_memory, returned, restore_memory_protection, for_maps, to_int, sub64,
}
use faasafe.Inject.Calls.{Calls}
use faasafe.Maps.Names.{
  SameNames, get_map_index_by_name, get_map_index_by_name-same, get_map_index_by_name-within,
}
use faasafe.Maps.{live}
use faasafe.Maps.Table.{map_at, IsTable, max_maps}
use faasafe.Diff.Merge.{Event, merge, collect, added_of, removed_of, modified_protection_of, pair}
use faasafe.Diff.{State, classify, identical, modified, same_region, diff_process_states, finished}
use faasafe.Prelude.{
  refl, ◌≡◌, ℕ, List, [], ◌∷◌, suc, some, inl, inr, true, false, arith, Bool, length, ◌<◌, get_or,
  ◌⊎◌, ◌==◌, Bool-cases, get_or-take, length-take, sym, eqb_refl, ◌∙◌, ap, ◌+◌, ==-refl,
}
use faasafe.Types.{Map, MemInfo, MemDiff, zero_map}

-- A map has kept its range, its protection and its name.
pub record SameOutline (a b : Map) : Type 0 where
  pub start : a.addr_start ≡ b.addr_start
  pub end : a.addr_end ≡ b.addr_end
  pub r : a.r ≡ b.r
  pub w : a.w ≡ b.w
  pub x : a.x ≡ b.x
  pub name : a.name ≡ b.name

-- All maps have, and there are no others.
pub record SameOutlines (ini fin : MemInfo) : Type 0 where
  pub count : ini.maps_count ≡ fin.maps_count
  pub outlines : (i : ℕ) → i < ini.maps_count → SameOutline (map_at ini i) (map_at fin i)

abbrev pub AllOutline : List Map → List Map → Type 0
AllOutline [] [] = Unit
AllOutline [] (b ∷ bs) = ⊥
AllOutline (a ∷ as_) [] = ⊥
AllOutline (a ∷ as_) (b ∷ bs) = SameOutline a b × AllOutline as_ bs

AllOutline-at :
    (as_ bs : List Map)
    → length as_ ≡ length bs
    → ((i : ℕ) → i < length as_ → SameOutline (get_or as_ i zero_map) (get_or bs i zero_map))
    → AllOutline as_ bs
AllOutline-at [] [] e h = tt
AllOutline-at [] (b ∷ bs) e h = absurd (omega (arith, e))
AllOutline-at (a ∷ as_) [] e h = absurd (omega (arith, e))
AllOutline-at (a ∷ as_) (b ∷ bs) e h =
    (h 0 (omega arith), AllOutline-at as_ bs (omega (arith, e)) (λ i lt. h (suc i) (omega arith)))

-- Two such maps are identical, or the map has been modified.
pub classify_outline :
    (a b : Map) → SameOutline a b → ((classify a b).0 ≡ identical) ⊎ ((classify a b).0 ≡ modified)
unfolding classify
classify_outline a b o =
    let at_start : (a.addr_start == b.addr_start) ≡ true = ground (arith, o.start) in
    let at_end : (a.addr_end == b.addr_end) ≡ true = ground (arith, o.end) in
    elim (Bool-cases (same_region a b)) [
      | inl same ↦ inl (rw same refl)
      | inr other ↦ inr (
          rw (other, at_start, at_end, o.r, o.w, o.x, eqb_refl b.r, eqb_refl b.w, eqb_refl b.x)
            refl)
    ]

pub classify_moves :
    (a b : Map) → SameOutline a b → ((classify a b).1 ≡ true) × ((classify a b).2 ≡ true)
unfolding classify
classify_moves a b o =
    let at_start : (a.addr_start == b.addr_start) ≡ true = ground (arith, o.start) in
    let at_end : (a.addr_end == b.addr_end) ≡ true = ground (arith, o.end) in
    elim (Bool-cases (same_region a b)) [
      | inl same ↦ rw same (refl, refl)
      | inr other ↦
          rw (other, at_start, at_end, o.r, o.w, o.x, eqb_refl b.r, eqb_refl b.w, eqb_refl b.x)
            (refl, refl)
    ]

-- Nothing is recorded but modified maps.
abbrev OnlyModified : List Event → Type 0
OnlyModified es =
    (collect added_of es ≡ [])
    × (collect removed_of es ≡ [])
    × (collect modified_protection_of es ≡ [])

pair-OnlyModified :
    (code : State) (a b : Map) (es : List Event)
    → (code ≡ identical) ⊎ (code ≡ modified)
    → OnlyModified es
    → OnlyModified (pair code a b ∷ es)
pair-OnlyModified code a b es (inl e) h = rw e h
pair-OnlyModified code a b es (inr e) h = rw e h

merge-OnlyModified : (as_ bs : List Map) → AllOutline as_ bs → OnlyModified (merge as_ bs)
unfolding merge
merge-OnlyModified [] [] h = (refl, refl, refl)
merge-OnlyModified [] (b ∷ bs) h = absurd h
merge-OnlyModified (a ∷ as_) [] h = absurd h
merge-OnlyModified (a ∷ as_) (b ∷ bs) (o, rest) =
    let moves = classify_moves a b o in
    rw (moves.0, moves.1, merge)
      (pair-OnlyModified (classify a b).0 a b (merge as_ bs) (classify_outline a b o)
        (merge-OnlyModified as_ bs rest))

pub length-live : (ps : MemInfo) → IsTable ps → length (live ps) ≡ ps.maps_count
length-live ps v = length-take ps.maps_count ps.maps (omega (arith, v.sized, v.within))

empty_table : (ps : MemInfo) → IsTable ps → live ps ≡ [] → ps.maps_count ≡ 0
empty_table ps v e = sym (length-live ps v) ∙ ap (λ ms. length ms) e

module _ (ini fin : MemInfo) (ti : IsTable ini) (tf : IsTable fin)
    (same : SameOutlines ini fin) where
  pub live-AllOutline : AllOutline (live ini) (live fin)
  live-AllOutline =
      let n = length-live ini ti in
      let n' = length-live fin tf in
      AllOutline-at (live ini) (live fin) (omega (arith, n, n', same.count)) (λ i lt.
        let within : i < ini.maps_count = omega (arith, n) in
        let within' : i < fin.maps_count = omega (arith, same.count) in
        rw
          (
            get_or-take ini.maps_count ini.maps i zero_map within,
            get_or-take fin.maps_count fin.maps i zero_map within',
          )
          (same.outlines i within))

  same_names : SameNames ini fin
  same_names = record { count = same.count; names = λ i lt. (same.outlines i lt).name }

  module _ {S : Type 0} (c : Calls S) (before before' : Map) where
    -- The heap and the stack are found where they were.
    named-same :
        (name : List ℕ) (start_low : Bool) (i : ℕ)
        → get_map_index_by_name ini name start_low ≡ some i
        → SameOutline (named c before ini name start_low) (named c before' fin name start_low)
    named-same name start_low i found =
        let found' : get_map_index_by_name fin name start_low ≡ some i =
          sym (get_map_index_by_name-same ini fin same_names name start_low) ∙ found in
        rw (named, found, found')
          (same.outlines i (get_map_index_by_name-within ini name start_low i found))

    restore_brk-kept :
        (i : ℕ) (s : S)
        → get_map_index_by_name ini heap_name true ≡ some i
        → restore_brk c before before' ini fin s ≡ returned s
    unfolding restore_brk
    restore_brk-kept i s found =
        let o = named-same heap_name true i found in
        let at_end : ((named c before ini heap_name true).addr_end
              == (named c before' fin heap_name true).addr_end)
            ≡ true =
          rw (o.end) (==-refl _) in
        rw at_end refl

    zero_stack-kept :
        (i : ℕ) (s : S)
        → get_map_index_by_name ini stack_name false ≡ some i
        → zero_stack c before before' ini fin s ≡ returned s
    unfolding zero_stack
    zero_stack-kept i s found =
        let o = named-same stack_name false i found in
        let no_growth : (to_int (
                sub64 (named c before ini stack_name false).addr_start
                  (named c before' fin stack_name false).addr_start)
              == 0)
            ≡ true =
          rw (o.start) ground arith in
        rw no_growth refl

  -- Two states of one process, in well-formed tables of fewer than 2 ^ 29 maps together, whose maps
  -- have the same ranges, protections and names, and in the first of which a heap and a stack are
  -- found: `diff_process_states` returns a difference, and to restore the mappings from it makes no
  -- system call in the tracee.
  pub restore_mappings-kept :
      {S : Type 0} (c : Calls S) (heap heap' stack stack' : Map) (i j : ℕ)
      → ini.pid ≡ fin.pid
      → ini.maps_count + fin.maps_count < max_maps
      → get_map_index_by_name ini heap_name true ≡ some i
      → get_map_index_by_name ini stack_name false ≡ some j
      → (d : MemDiff) × (diff_process_states ini fin ≡ some (finished d))
        × ((s : S) → restore_mappings c heap heap' stack stack' ini fin d s ≡ returned s)
  unfolding restore_mappings remove_added_memory restore_removed_memory restore_memory_protection
      diff_process_states for_maps
  restore_mappings-kept c heap heap' stack stack' i j pids few has_heap has_stack =
      let (d, ends, r) = diff_process_maps-Result ini fin ti tf few in
      let (no_added, no_removed, no_protection) =
        merge-OnlyModified (live ini) (live fin) live-AllOutline in
      let (ta, tr, tm, tp) = r.tables in
      let added_none = empty_table d.added ta (r.added_are ∙ no_added) in
      let removed_none = empty_table d.removed tr (r.removed_are ∙ no_removed) in
      let protection_none =
        empty_table d.modified_protection tp (r.modified_protection_are ∙ no_protection) in
      let same_pid : (ini.pid == fin.pid) ≡ true = ground (arith, pids) in
      (
        d,
        rw (same_pid, ends) refl,
        λ s.
            rw
              (
                added_none,
                removed_none,
                protection_none,
                restore_brk-kept c heap heap' i s has_heap,
              )
              (zero_stack-kept c stack stack' j s has_stack),
      )
