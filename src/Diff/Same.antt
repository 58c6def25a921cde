-- ===== src/Diff/Same.antt =====
-- An empty difference says exactly that the maps are pairwise identical.
use faasafe.Prelude.{
  refl, zero, suc, [], ◌∷◌, inl, inr, true, arith, ◌≡◌, ℕ, List, ◌++◌, Bool-cases, ◌+◌, eqb_refl,
  ◌<◌,
}
use mathlib.Core.Logic.{◌↔◌}
use faasafe.Types.{Map, MemInfo, MemDiff, name_size}
use faasafe.Maps.{live}
use faasafe.Maps.Names.{same_start}
use faasafe.Maps.Table.{IsTable, max_maps}
use faasafe.Diff.{
  identical, classify, same_region, finished, diff_process_maps, reset_map_metadata, all_dirty,
  name_size,
}
use faasafe.Diff.Merge.{pair, merge, collect, added_of, modified_of}
use faasafe.Diff.Tables.{finished-Result}

abbrev pub AllSame : List Map → List Map → Type 0
AllSame [] [] = Unit
AllSame [] (b ∷ bs) = ⊥
AllSame (a ∷ as_) [] = ⊥
AllSame (a ∷ as_) (b ∷ bs) = (same_region a b ≡ true) × AllSame as_ bs

abbrev NoChange : List Map → List Map → Type 0
NoChange as_ bs = (collect modified_of (merge as_ bs) ≡ []) × (collect added_of (merge as_ bs) ≡ [])

classify_same :
    (a b : Map)
    → same_region a b ≡ true
    → ((classify a b).0 ≡ identical) × ((classify a b).1 ≡ true) × ((classify a b).2 ≡ true)
unfolding classify
classify_same a b h = ground arith

-- The other way: a pair that adds nothing to the modified maps is identical.
same_of_classify :
    (a b : Map)
    → (classify a b).1 ≡ true
    → (classify a b).2 ≡ true
    → modified_of (pair (classify a b).0 a b) ≡ []
    → same_region a b ≡ true
unfolding classify
same_of_classify a b h k e = ground arith

AllSame-NoChange : (as_ bs : List Map) → AllSame as_ bs → NoChange as_ bs
unfolding merge
AllSame-NoChange [] [] h = (refl, refl)
AllSame-NoChange [] (b ∷ bs) h = absurd h
AllSame-NoChange (a ∷ as_) [] h = absurd h
AllSame-NoChange (a ∷ as_) (b ∷ bs) h =
    let c = classify_same a b h.0 in rw (c.1, c.2, c.0, merge) (AllSame-NoChange as_ bs h.1)

append-eq-nil : (xs ys : List Map) → xs ++ ys ≡ [] → (xs ≡ []) × (ys ≡ [])
append-eq-nil [] ys h = (refl, h)
append-eq-nil (x ∷ xs) ys h = cc

-- What `NoChange` says where two maps are compared and both passed.
abbrev NoChangePair : Map → Map → List Map → List Map → Type 0
NoChangePair a b as_ bs =
    (modified_of (pair (classify a b).0 a b) ++ collect modified_of (merge as_ bs) ≡ [])
    × (added_of (pair (classify a b).0 a b) ++ collect added_of (merge as_ bs) ≡ [])

NoChange-AllSame : (as_ bs : List Map) → NoChange as_ bs → AllSame as_ bs
unfolding merge
NoChange-AllSame [] [] h = tt
NoChange-AllSame [] (b ∷ bs) h = cc
NoChange-AllSame (a ∷ as_) [] h = cc
NoChange-AllSame (a ∷ as_) (b ∷ bs) h = elim (Bool-cases (classify a b).1) [
  | inl m ↦ elim (Bool-cases (classify a b).2) [
    | inl n ↦
        let k : NoChangePair a b as_ bs = rw (m, n, merge) at h in
        let none_modified = append-eq-nil (modified_of (pair (classify a b).0 a b)) _ k.0 in
        let none_added = append-eq-nil (added_of (pair (classify a b).0 a b)) _ k.1 in
        (
          same_of_classify a b m n none_modified.0,
          NoChange-AllSame as_ bs (none_modified.1, none_added.1),
        )
    | inr n ↦
        let k : all_dirty a ∷ collect modified_of (merge as_ (b ∷ bs)) ≡ [] =
          rw (m, n, merge) at (h.0) in
        cc
  ]
  | inr m ↦
      let k : reset_map_metadata b ∷ collect added_of (merge (a ∷ as_) bs) ≡ [] =
        rw (m, merge) at (h.1) in
      cc
]

-- `map_regions_cmp` finds every map identical to itself.
same_start_refl : (n : ℕ) (s : List ℕ) → same_start n s s ≡ true
unfolding same_start
same_start_refl zero s = refl
same_start_refl (suc n) [] = refl
same_start_refl (suc n) (c ∷ s) = ground (arith, same_start_refl n s)

same_region_refl : (a : Map) → same_region a a ≡ true
unfolding same_region
same_region_refl a = ground (
  arith,
  same_start_refl name_size a.name,
  eqb_refl a.r,
  eqb_refl a.w,
  eqb_refl a.x,
  eqb_refl a.p,
  eqb_refl a.dirty,
)

pub AllSame-refl : (as_ : List Map) → AllSame as_ as_
AllSame-refl [] = tt
AllSame-refl (a ∷ as_) = (same_region_refl a, AllSame-refl as_)

-- For two well-formed tables of fewer than 2 ^ 29 maps together, the difference records no modified
-- and no added map exactly when the two states have the same number of maps and `map_regions_cmp`
-- finds them identical one by one.
pub no_change_iff :
    (ini fin : MemInfo)
    → IsTable ini
    → IsTable fin
    → ini.maps_count + fin.maps_count < max_maps
    → (d : MemDiff) → diff_process_maps ini fin ≡ finished d
    → AllSame (live ini) (live fin) ↔ ((live d.modified ≡ []) × (live d.added ≡ []))
no_change_iff ini fin ti tf few d ends =
    let r = finished-Result ini fin ti tf few d ends in
    rw (r.modified_are, r.added_are)
      (AllSame-NoChange (live ini) (live fin), NoChange-AllSame (live ini) (live fin))
