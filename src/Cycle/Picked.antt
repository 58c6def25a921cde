-- ===== src/Cycle/Picked.antt =====
-- Which maps the comparison picks when the request has only written to memory.
use faasafe.Mappings.Kept.{SameOutline, AllOutline, classify_moves, classify_outline}
use faasafe.Diff.Merge.{merge, collect, modified_of}
use faasafe.Diff.{classify, same_region, with_counts_of, identical, modified}
use faasafe.Prelude.{
  refl, ◌≡◌, ℕ, List, [], ◌∷◌, zero, suc, inl, inr, true, false, arith, ◌<◌, get_or, length, ap,
  ◌⊎◌, ◌==◌, ==-refl,
}
use faasafe.Types.{Map, zero_map}

-- The list `ms` has the maps of the checkpoint that are not identical now, in order, with their new counts.
pub record Picked (as_ bs ms : List Map) : Type 0 where
  pub index : ℕ → ℕ
  pub within : (k : ℕ) → k < length ms → index k < length as_
  pub is :
      (k : ℕ)
      → k < length ms
      → get_or ms k zero_map
        ≡ with_counts_of (get_or bs (index k) zero_map) (get_or as_ (index k) zero_map)
  pub ordered : (k l : ℕ) → k < l → l < length ms → index k < index l
  pub differs :
      (k : ℕ)
      → k < length ms
      → same_region (get_or as_ (index k) zero_map) (get_or bs (index k) zero_map) ≡ false
  pub all :
      (i : ℕ)
      → i < length as_
      → (same_region (get_or as_ i zero_map) (get_or bs i zero_map) ≡ true)
        ⊎ ((k : ℕ) × (k < length ms) × (index k ≡ i))

nothing-Picked : Picked [] [] []
nothing-Picked = record {
  index = λ k. k;
  within = λ k lt. absurd (omega (arith, lt));
  is = λ k lt. absurd (omega (arith, lt));
  ordered = λ k l lt lt'. absurd (omega (arith, lt'));
  differs = λ k lt. absurd (omega (arith, lt));
  all = λ i lt. absurd (omega (arith, lt));
}

-- The map `i` of a longer list of maps.
abbrev Found : ℕ → List Map → List Map → List Map → (ℕ → ℕ) → Type 0
Found i as_ bs ms index =
    (same_region (get_or as_ i zero_map) (get_or bs i zero_map) ≡ true)
    ⊎ ((k : ℕ) × (k < length ms) × (index k ≡ i))

module _ (a b : Map) (as_ bs ms : List Map) (p : Picked as_ bs ms) where
  Picked-identical : same_region a b ≡ true → Picked (a ∷ as_) (b ∷ bs) ms
  Picked-identical same = record {
    index = λ k. suc (p.index k);
    within = λ k lt. omega (arith, p.within k lt);
    is = p.is;
    ordered = λ k l lt lt'. omega (arith, p.ordered k l lt lt');
    differs = p.differs;
    all = λ i lt. all_of i lt;
  }
    where
      all_of : (i : ℕ) → i < suc (length as_) → Found i (a ∷ as_) (b ∷ bs) ms (λ k. suc (p.index k))
      all_of zero lt = inl same
      all_of (suc i) lt = elim (p.all i (omega arith)) [
        | inl e ↦ inl e
        | inr (k, kl, e) ↦ inr (k, kl, ap (λ n. suc n) e)
      ]

  abbrev push_index : ℕ → ℕ
  push_index zero = 0
  push_index (suc k) = suc (p.index k)

  Picked-modified : same_region a b ≡ false → Picked (a ∷ as_) (b ∷ bs) (with_counts_of b a ∷ ms)
  Picked-modified other = record {
    index = push_index;
    within = within_of;
    is = is_of;
    ordered = ordered_of;
    differs = differs_of;
    all = all_of;
  }
    where
      within_of : (k : ℕ) → k < suc (length ms) → push_index k < suc (length as_)
      within_of zero lt = omega arith
      within_of (suc k) lt = omega (arith, p.within k (omega arith))

      is_of :
          (k : ℕ)
          → k < suc (length ms)
          → get_or (with_counts_of b a ∷ ms) k zero_map
            ≡ with_counts_of
                (get_or (b ∷ bs) (push_index k) zero_map)
                (get_or (a ∷ as_) (push_index k) zero_map)
      is_of zero lt = refl
      is_of (suc k) lt = p.is k (omega arith)

      differs_of :
          (k : ℕ)
          → k < suc (length ms)
          → same_region
              (get_or (a ∷ as_) (push_index k) zero_map)
              (get_or (b ∷ bs) (push_index k) zero_map)
            ≡ false
      differs_of zero lt = other
      differs_of (suc k) lt = p.differs k (omega arith)

      ordered_of : (k l : ℕ) → k < l → l < suc (length ms) → push_index k < push_index l
      ordered_of k zero lt lt' = absurd (omega arith)
      ordered_of zero (suc l) lt lt' = omega arith
      ordered_of (suc k) (suc l) lt lt' = omega (arith, p.ordered k l (omega arith) (omega arith))

      all_of :
          (i : ℕ)
          → i < suc (length as_)
          → Found i (a ∷ as_) (b ∷ bs) (with_counts_of b a ∷ ms) push_index
      all_of zero lt = inr (0, omega arith, refl)
      all_of (suc i) lt = elim (p.all i (omega arith)) [
        | inl e ↦ inl e
        | inr (k, kl, e) ↦ inr (suc k, omega arith, ap (λ n. suc n) e)
      ]

classify_identical :
    (a b : Map) → (classify a b).0 ≡ identical → SameOutline a b → same_region a b ≡ true
unfolding classify
classify_identical a b e o =
    let at_start : (a.addr_start == b.addr_start) ≡ true = rw (o.start) (==-refl _) in
    let at_end : (a.addr_end == b.addr_end) ≡ true = rw (o.end) (==-refl _) in
    ground (arith, e, at_start, at_end)

classify_modified : (a b : Map) → (classify a b).0 ≡ modified → same_region a b ≡ false
unfolding classify
classify_modified a b e = ground (arith, e)

pub merge-Picked :
    (as_ bs : List Map) → AllOutline as_ bs → Picked as_ bs (collect modified_of (merge as_ bs))
unfolding merge
merge-Picked [] [] h = nothing-Picked
merge-Picked [] (b ∷ bs) h = absurd h
merge-Picked (a ∷ as_) [] h = absurd h
merge-Picked (a ∷ as_) (b ∷ bs) (o, rest) =
    let moves = classify_moves a b o in
    let p = merge-Picked as_ bs rest in
    elim (classify_outline a b o) [
      | inl same ↦
          rw (moves.0, moves.1, same, merge)
            (Picked-identical a b as_ bs _ p (classify_identical a b same o))
      | inr changed ↦
          rw (moves.0, moves.1, changed, merge)
            (Picked-modified a b as_ bs _ p (classify_modified a b changed))
    ]
