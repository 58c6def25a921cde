-- ===== src/Registers/KeptMemory.antt =====
-- Writing the registers of the threads leaves the memory of the process alone.
use faasafe.Threads.{Threads, is_negative}
use faasafe.Inject.{Regs}
use faasafe.Outcome.{Outcome, returned, aborted, out_of_fuel, ◌>>=◌}
use faasafe.Types.{Bytes}
use faasafe.Prelude.{
  refl, zero, suc, ◌≡◌, ℕ, none, some, inl, inr, arith, List, Option, ap, ◌∙◌, sym, Bool-cases,
  get_or, ◌+◌,
}
use faasafe.Registers.{
  Contexts, Saved, restore_thread, restore_slots, Bytes, Outcome, asserted, Regs, Threads,
  is_negative,
}

-- The documented calls: what they write is the context of a thread.
pub record KeepsMemory {S : Type 0} (c : Contexts S) (memory : S → Bytes) : Type 0 where
  pub fpregs :
      (s s' : S) (tid : ℕ) (b : Bytes) → c.set_fpregs s tid b ≡ some s' → memory s' ≡ memory s
  pub xstate :
      (s s' : S) (tid : ℕ) (b : Bytes) → c.set_xstate s tid b ≡ some s' → memory s' ≡ memory s
  pub regs : (s s' : S) (tid : ℕ) (r : Regs) → c.set_regs s tid r ≡ some s' → memory s' ≡ memory s
  pub siginfo : (s s' : S) (tid n : ℕ) → c.set_siginfo s tid n ≡ some s' → memory s' ≡ memory s
  pub sigmask : (s s' : S) (tid n : ℕ) → c.set_sigmask s tid n ≡ some s' → memory s' ≡ memory s

-- What returns has returned at each step.
bind-returned :
    {A B : Type 0} (o : Outcome A) (k : A → Outcome B) (b : B)
    → (o >>= k) ≡ returned b
    → (a : A) × (o ≡ returned a) × (k a ≡ returned b)
bind-returned (returned a) k b e = (a, refl, e)
bind-returned aborted k b e = absurd (ground (arith, e))
bind-returned out_of_fuel k b e = absurd (ground (arith, e))

asserted-some : {A : Type 0} (o : Option A) (a : A) → asserted o ≡ returned a → o ≡ some a
asserted-some none a e = absurd (ground (arith, e))
asserted-some (some x) a e = let same : x ≡ a = cc in ap (λ y. some y) same

module _ {S : Type 0} (c : Contexts S) (memory : S → Bytes) (keeps : KeepsMemory c memory) where
  restore_thread-memory :
      (tid : ℕ) (v : Saved) (s s' : S)
      → restore_thread c tid v s ≡ returned s'
      → memory s' ≡ memory s
  unfolding restore_thread
  restore_thread-memory tid v s s' e =
      let (s1, e1, r1) = bind-returned _ _ _ e in
      let (s2, e2, r2) = bind-returned _ _ _ r1 in
      let (s3, e3, r3) = bind-returned _ _ _ r2 in
      let (s4, e4, r4) = bind-returned _ _ _ r3 in
      keeps.regs s4 s' tid v.tregs (asserted-some _ _ r4)
      ∙ keeps.xstate s3 s4 tid v.txsave (asserted-some _ _ e4)
      ∙ keeps.sigmask s2 s3 tid v.tmask (asserted-some _ _ e3)
      ∙ keeps.siginfo s1 s2 tid v.si (asserted-some _ _ e2)
      ∙ keeps.fpregs s s1 tid v.txsave (asserted-some _ _ e1)

  pub restore_slots-memory :
      (unset : Saved) (n i : ℕ) (t : Threads) (saved : List Saved) (s s' : S)
      → restore_slots c unset n i t saved s ≡ returned s'
      → memory s' ≡ memory s
  unfolding restore_slots
  restore_slots-memory unset zero i t saved s s' e = let same : s ≡ s' = cc in ap memory (sym same)
  restore_slots-memory unset (suc n) i t saved s s' e =
      elim (Bool-cases (is_negative (get_or t.tids i 0))) [
        | inl neg ↦ restore_slots-memory unset n (i + 1) t saved s s' (rw (restore_slots, neg) at e)
        | inr live ↦
            let (s1, e1, r1) =
              bind-returned (restore_thread c (get_or t.tids i 0) (get_or saved i unset) s)
                (λ s1. restore_slots c unset n (i + 1) t saved s1) s'
                (rw (restore_slots, live) at e) in
            restore_slots-memory unset n (i + 1) t saved s1 s' r1
            ∙ restore_thread-memory (get_or t.tids i 0) (get_or saved i unset) s s1 e1
      ]
