-- ===== src/Registers/Failure.antt =====
-- A thread that is not stopped makes the saving of the registers fail.
use faasafe.Prelude.{
  refl, zero, suc, none, some, arith, ◌≡◌, ℕ, false, inl, inr, List, get_or, set, ◌+◌, ◌<◌, ◌≤◌,
  ◌⊎◌, Bool-cases, ℕ_discrete, Option,
}
use faasafe.Outcome.{Outcome, returned, aborted, ◌>>=◌}
use faasafe.Types.{Bytes}
use faasafe.Threads.{Threads, is_negative}
use faasafe.Registers.{
  Contexts, Saved, asserted, store_thread, store_slots, store_threads_registers, clear_pointer_size,
}

-- An assertion holds or ends the program.
abbrev Ends : {A : Type 0} → Outcome A → Type 0
Ends {A} o = (o ≡ aborted) ⊎ ((a : A) × (o ≡ returned a))

Ends-asserted :
    {A B : Type 0} (o : Option A) (f : A → Outcome B)
    → ((a : A) → Ends (f a))
    → Ends (asserted o >>= f)
Ends-asserted none f h = inl refl
Ends-asserted (some a) f h = h a

module _ {S : Type 0} (c : Contexts S) (unset : Saved) where
  store_thread-Ends : (tid : ℕ) (old : Saved) (s : S) → Ends (store_thread c tid old s)
  unfolding store_thread
  store_thread-Ends tid old s =
      Ends-asserted (c.get_fpregs s tid (clear_pointer_size old.txsave)) _ λ fpregs.
        Ends-asserted (c.get_xstate s tid fpregs) _ λ xstate.
          Ends-asserted (c.get_regs s tid) _ λ regs. Ends-asserted (c.get_siginfo s tid) _ λ si.
            Ends-asserted (c.set_siginfo s tid si) _
              λ s'. Ends-asserted (c.get_sigmask s' tid) _ λ mask. inr (_, refl)

  store_slots-aborts :
      (n i j : ℕ) (t : Threads) (saved : List Saved) (s : S)
      → i ≤ j
      → j < i + n
      → is_negative (get_or t.tids j 0) ≡ false
      → ((s' : S) (b : Bytes) → c.get_fpregs s' (get_or t.tids j 0) b ≡ none)
      → store_slots c unset n i t saved s ≡ aborted
  unfolding store_slots store_thread
  store_slots-aborts zero i j t saved s le lt live fails = absurd (omega arith)
  store_slots-aborts (suc n) i j t saved s le lt live fails = elim (ℕ_discrete i j) [
    | yes e ↦ rw (store_slots, e, live, store_thread, fails) refl
    | no ne ↦ elim (Bool-cases (is_negative (get_or t.tids i 0))) [
      | inl neg ↦
          rw (store_slots, neg)
            (store_slots-aborts n (i + 1) j t saved s (omega arith) (omega arith) live fails)
      | inr on ↦ elim (store_thread-Ends (get_or t.tids i 0) (get_or saved i unset) s) [
        | inl e ↦ rw (store_slots, on, e) refl
        | inr (r, e) ↦
            rw (store_slots, on, e)
              (store_slots-aborts n (i + 1) j t (set saved i r.0) r.1 (omega arith) (omega arith)
                live fails)
      ]
    ]
  ]

  -- If the floating-point registers of one thread of the table cannot be read, as when it is not
  -- stopped, `store_threads_registers` fails an assertion, whatever the other threads do.
  pub store_threads_registers-aborts :
      (j : ℕ) (t : Threads) (saved : List Saved) (s : S)
      → j < t.tid_count
      → is_negative (get_or t.tids j 0) ≡ false
      → ((s' : S) (b : Bytes) → c.get_fpregs s' (get_or t.tids j 0) b ≡ none)
      → store_threads_registers c unset t saved s ≡ aborted
  unfolding store_threads_registers
  store_threads_registers-aborts j t saved s lt live fails =
      store_slots-aborts t.tid_count 0 j t saved s (omega arith) (omega arith) live fails
