-- ===== src/Registers.antt =====
-- groundhog_origin/src/proc_cr.c: saving and restoring the registers of the stopped threads.
pub mod KeptMemory
pub mod Laws
pub mod RoundTrip
pub mod Failure
mod Tests
use faasafe.Prelude.{
  zero, suc, none, some, ℕ, Bool, Option, List, if◌then◌else◌, ◌+◌, get_or, set, [], ◌∷◌, ltb, refl,
  inl, inr, true, false, arith, ◌≡◌,
}
use faasafe.Outcome.{Outcome, returned, aborted, ◌>>=◌}
use faasafe.Types.{Bytes}
use faasafe.Inject.{Regs, or_same}
use faasafe.Threads.{Threads, is_negative}

-- The calls of `ptrace` on the context of a thread. The floating-point registers and the whole
-- extended state are read into a buffer that has some contents, and written from one; the signal
-- information and the mask are numbers.
pub record Contexts (S : Type 0) : Type 0 where
  pub get_fpregs : S → ℕ → Bytes → Option Bytes
  pub get_xstate : S → ℕ → Bytes → Option Bytes
  pub get_regs : S → ℕ → Option Regs
  pub get_siginfo : S → ℕ → Option ℕ
  pub get_sigmask : S → ℕ → Option ℕ
  pub set_fpregs : S → ℕ → Bytes → Option S
  pub set_xstate : S → ℕ → Bytes → Option S
  pub set_regs : S → ℕ → Regs → Option S
  pub set_siginfo : S → ℕ → ℕ → Option S
  pub set_sigmask : S → ℕ → ℕ → Option S

-- Slot `i` of the arrays `txsave`, `tregs`, `si` and `tmask` of `trackedprocess_t`. `tiov[i]` is the
-- buffer `txsave[i]` with its size.
pub record Saved : Type 0 where
  pub txsave : Bytes
  pub tregs : Regs
  pub si : ℕ
  pub tmask : ℕ

-- An assertion that a call has succeeded.
abbrev pub asserted : {A : Type 0} → Option A → Outcome A
asserted none = aborted
asserted (some a) = returned a

-- `memset(&txsave, 0, sizeof(&txsave))`: the size is that of a pointer.
unfoldable pub clear_pointer_size : Bytes → Bytes
clear_pointer_size b i = if ltb i 8 then 0 else b i

module _ {S : Type 0} (c : Contexts S) where
  -- The body of the loop of `store_threads_registers` on the thread `tid`, with what the slot held.
  -- What is behind the calls only prints.
  unfoldable pub store_thread : ℕ → Saved → S → Outcome (Saved × S)
  store_thread tid old s =
      asserted (c.get_fpregs s tid (clear_pointer_size old.txsave)) >>= λ fpregs.
      asserted (c.get_xstate s tid fpregs) >>= λ xstate. asserted (c.get_regs s tid) >>= λ regs.
      asserted (c.get_siginfo s tid) >>= λ si. asserted (c.set_siginfo s tid si) >>= λ s'.
      asserted (c.get_sigmask s' tid) >>= λ mask.
      returned (record { txsave = xstate; tregs = regs; si = si; tmask = mask }, s')

  -- The body of the loop of `restore_threads_registers`.
  unfoldable pub restore_thread : ℕ → Saved → S → Outcome S
  restore_thread tid saved s = asserted (c.set_fpregs s tid saved.txsave) >>= λ s1.
      asserted (c.set_siginfo s1 tid saved.si) >>= λ s2.
      asserted (c.set_sigmask s2 tid saved.tmask) >>= λ s3.
      asserted (c.set_xstate s3 tid saved.txsave) >>= λ s4. asserted (c.set_regs s4 tid saved.tregs)

  -- The loops: `n` rounds are left, the next one is on slot `i`; `unset` is what a slot beyond the
  -- array holds.
  unfoldable pub store_slots : Saved → ℕ → ℕ → Threads → List Saved → S → Outcome (List Saved × S)
  store_slots unset zero i t saved s = returned (saved, s)
  store_slots unset (suc n) i t saved s =
      let tid = get_or t.tids i 0 in
      let stores = store_thread tid (get_or saved i unset) s >>= λ r.
      store_slots unset n (i + 1) t (set saved i r.0) r.1 in
      let skips = store_slots unset n (i + 1) t saved s in if is_negative tid then skips else stores

  unfoldable pub restore_slots : Saved → ℕ → ℕ → Threads → List Saved → S → Outcome S
  restore_slots unset zero i t saved s = returned s
  restore_slots unset (suc n) i t saved s =
      let tid = get_or t.tids i 0 in
      let restores = restore_thread tid (get_or saved i unset) s >>= λ s'.
      restore_slots unset n (i + 1) t saved s' in
      let skips = restore_slots unset n (i + 1) t saved s in
      if is_negative tid then skips else restores

  -- `store_threads_registers`
  unfoldable pub store_threads_registers :
      Saved → Threads → List Saved → S → Outcome (List Saved × S)
  store_threads_registers unset t saved s = store_slots unset t.tid_count 0 t saved s

  -- `restore_threads_registers`
  unfoldable pub restore_threads_registers : Saved → Threads → List Saved → S → Outcome S
  restore_threads_registers unset t saved s = restore_slots unset t.tid_count 0 t saved s
