-- ===== src/Memory/Loops.antt =====
-- The transfer loops copy everything, in however many pieces the kernel delivers it.
use mathlib.Core.Path.{subst}
use faasafe.Prelude.{zero, suc, some, arith, ◌≡◌, ℕ, ◌+◌, ◌<◌, ◌^◌, ◌-◌, ◌≤◌, ◌∙◌, ℕ_discrete}
use faasafe.Types.{Bytes}
use faasafe.Memory.{MemFile, Delivers, Transfer, read_loop, write_loop, store}

-- `into` is `from` with `total` bytes of `src` from `s` on stored from `d` on, up to `r` of them.
abbrev pub Copied : Bytes → ℕ → Bytes → ℕ → ℕ → Bytes → Type 0
Copied dst d src s n into = (q : ℕ) → into q ≡ store dst d src s n q

store-store :
    (dst : Bytes) (d : ℕ) (src : Bytes) (s n k q : ℕ)
    → store (store dst d src s n) (d + n) src (s + n) k q ≡ store dst d src s (n + k) q
store-store dst d src s n k q = ground arith

-- A store whose base differs only pointwise.
store-congr :
    (into into' : Bytes) (d : ℕ) (src : Bytes) (s n q : ℕ)
    → into q ≡ into' q
    → store into d src s n q ≡ store into' d src s n q
store-congr into into' d src s n q e = ground arith

-- A loop over `total` bytes has finished: they are copied, and `r` says so.
pub record Finished (dst : Bytes) (d : ℕ) (src : Bytes) (s total : ℕ) (t : Transfer) : Type 0 where
  pub all_moved : t.r ≡ total
  pub copied : Copied dst d src s total t.into

module _ (f : MemFile) (delivers : Delivers f) (dst memory : Bytes) (base addr total : ℕ)
    (small : total < 2 ^ 31) (below : addr + total < 2 ^ 64) where
  -- On a mapped range of less than 2 GiB, with as much fuel as bytes are left, the loop of `pread`s
  -- ends with the whole range copied and `r` its length.
  pub read_loop-Finished :
      (fuel : ℕ) (t : Transfer)
      → t.r < total
      → total - t.r ≤ fuel
      → Copied dst base memory addr t.r t.into
      → (t' : Transfer) × (read_loop f memory base addr total fuel t ≡ some t')
        × Finished dst base memory addr total t'
  unfolding read_loop
  read_loop-Finished zero t lt le c = absurd (omega arith)
  read_loop-Finished (suc fuel) t lt le c =
      let (k, got, some_k, at_most) =
        delivers.pread_some memory (addr + t.r) (total - t.r) (omega arith) in
      let t1 : Transfer = record t {
        into = store t.into (base + t.r) memory (addr + t.r) k;
        r = t.r + k;
      } in
      let c1 : Copied dst base memory addr (t.r + k) t1.into = λ q.
        store-congr t.into (store dst base memory addr t.r) (base + t.r) memory (addr + t.r) k q
          (c q)
        ∙ store-store dst base memory addr t.r k q in
      elim (ℕ_discrete (t.r + k) total) [
        | yes e ↦ (
          t1,
          ground arith,
          record {
            all_moved = e;
            copied = subst (λ n. Copied dst base memory addr n t1.into) e c1;
          },
        )
        | no ne ↦
            let (t', runs, fin) = read_loop-Finished fuel t1 (omega arith) (omega arith) c1 in
            (t', ground arith, fin)
      ]

module _ (f : MemFile) (delivers : Delivers f) (memory wmem : Bytes) (base addr total : ℕ)
    (small : total < 2 ^ 31) (below : addr + total < 2 ^ 64) where
  -- On a mapped range of less than 2 GiB, with as much fuel as bytes are left, the loop of `pwrite`s
  -- ends with the whole range written and `r` its length.
  pub write_loop-Finished :
      (fuel : ℕ) (t : Transfer)
      → t.r < total
      → total - t.r ≤ fuel
      → Copied memory addr wmem base t.r t.into
      → (t' : Transfer) × (write_loop f wmem base addr total fuel t ≡ some t')
        × Finished memory addr wmem base total t'
  unfolding write_loop
  write_loop-Finished zero t lt le c = absurd (omega arith)
  write_loop-Finished (suc fuel) t lt le c =
      let (k, got, some_k, at_most) =
        delivers.pwrite_some t.into (addr + t.r) (total - t.r) (omega arith) in
      let t1 : Transfer = record t {
        into = store t.into (addr + t.r) wmem (base + t.r) k;
        r = t.r + k;
      } in
      let c1 : Copied memory addr wmem base (t.r + k) t1.into = λ q.
        store-congr t.into (store memory addr wmem base t.r) (addr + t.r) wmem (base + t.r) k q
          (c q)
        ∙ store-store memory addr wmem base t.r k q in
      elim (ℕ_discrete (t.r + k) total) [
        | yes e ↦ (
          t1,
          ground arith,
          record {
            all_moved = e;
            copied = subst (λ n. Copied memory addr wmem base n t1.into) e c1;
          },
        )
        | no ne ↦
            let (t', runs, fin) = write_loop-Finished fuel t1 (omega arith) (omega arith) c1 in
            (t', ground arith, fin)
      ]
