-- ===== src/Registers/RoundTrip.antt =====
-- Restoring the registers of the threads undoes what has happened to them since they were saved.
use mathlib.Core.Path.{subst}
use faasafe.Prelude.{
  refl, zero, suc, arith, ◌≡◌, ◌≢◌, ℕ, true, false, inl, inr, ◌∙◌, sym, List, get_or, set, length,
  ◌+◌, ◌<◌, ◌≤◌, Bool-cases, ℕ_discrete, get_or-set_self, length-set, true≢false, get_or-set_ne,
}
use faasafe.Outcome.{returned}
use faasafe.Threads.{Threads, Distinct, is_negative}
use faasafe.Registers.{
  Contexts, Saved, store_slots, restore_slots, store_threads_registers, restore_threads_registers,
}
use faasafe.Registers.Laws.{IsContexts, Puts, context_of, restore_thread-Puts, store_thread-Puts}

module _ {S : Type 0} (c : Contexts S) (laws : IsContexts c) (unset : Saved) where
  -- The threads in the slots from `i` to `i + n` are stopped.
  abbrev pub Held : ℕ → ℕ → Threads → S → Type 0
  Held i n t s =
      (a : ℕ)
      → i ≤ a
      → a < i + n
      → is_negative (get_or t.tids a 0) ≡ false
      → laws.is_held s (get_or t.tids a 0) ≡ true

  -- The slots from `i` to `i + n` stand for the contexts of their threads in `s`.
  abbrev pub Stands : ℕ → ℕ → Threads → List Saved → S → Type 0
  Stands i n t saved s =
      (a : ℕ)
      → i ≤ a
      → a < i + n
      → is_negative (get_or t.tids a 0) ≡ false
      → context_of c laws (get_or saved a unset) ≡ laws.context s (get_or t.tids a 0)

  -- The saved slots; the threads keep their contexts.
  pub record StoredSlots (i n : ℕ) (t : Threads) (saved : List Saved) (s : S) (saved' : List Saved)
      (s' : S) : Type 0 where
    pub stands : Stands i n t saved' s
    pub before : (a : ℕ) → a < i → get_or saved' a unset ≡ get_or saved a unset
    pub same : (u : ℕ) → laws.context s' u ≡ laws.context s u
    pub held : (u : ℕ) → laws.is_held s' u ≡ laws.is_held s u

  Puts-same :
      (s s' : S) (tid : ℕ)
      → Puts c laws s s' tid (laws.context s tid)
      → (u : ℕ) → laws.context s' u ≡ laws.context s u
  Puts-same s s' tid p u = elim (ℕ_discrete u tid) [ yes e ↦ rw e p.here | no ne ↦ p.others u ne ]

  -- The first slot is saved, and then the others.
  StoredSlots-next :
      (i n : ℕ) (t : Threads) (saved saved' : List Saved) (v : Saved) (s s1 s' : S)
      → i < length saved
      → context_of c laws v ≡ laws.context s (get_or t.tids i 0)
      → Puts c laws s s1 (get_or t.tids i 0) (laws.context s (get_or t.tids i 0))
      → StoredSlots (i + 1) n t (set saved i v) s1 saved' s'
      → StoredSlots i (suc n) t saved s saved' s'
  StoredSlots-next i n t saved saved' v s s1 s' h stands p more = record {
    stands = λ a le lt live. elim (ℕ_discrete a i) [
      | yes here ↦ rw (here, more.before i (omega arith), get_or-set_self saved i v unset h) stands
      | no ne ↦
          more.stands a (omega arith) (omega arith) live ∙ Puts-same s s1 _ p (get_or t.tids a 0)
    ];
    before = λ a lt. more.before a (omega arith) ∙ get_or-set_ne saved i a v unset (ground arith);
    same = λ u. more.same u ∙ Puts-same s s1 _ p u;
    held = λ u. more.held u ∙ p.held u;
  }

  StoredSlots-skip :
      (i n : ℕ) (t : Threads) (saved saved' : List Saved) (s s' : S)
      → is_negative (get_or t.tids i 0) ≡ true
      → StoredSlots (i + 1) n t saved s saved' s'
      → StoredSlots i (suc n) t saved s saved' s'
  StoredSlots-skip i n t saved saved' s s' neg more = record {
    stands = λ a le lt live. elim (ℕ_discrete a i) [
      | yes here ↦
          absurd
            (true≢false (sym neg ∙ subst (λ j. is_negative (get_or t.tids j 0) ≡ false) here live))
      | no ne ↦ more.stands a (omega arith) (omega arith) live
    ];
    before = λ a lt. more.before a (omega arith);
    same = more.same;
    held = more.held;
  }

  pub store_slots-StoredSlots :
      (n i : ℕ) (t : Threads) (saved : List Saved) (s : S)
      → i + n ≤ length saved
      → Held i n t s
      → (saved' : List Saved) × (s' : S) × (store_slots c unset n i t saved s
          ≡ returned (saved', s'))
        × StoredSlots i n t saved s saved' s'
  unfolding store_slots
  store_slots-StoredSlots zero i t saved s h held = (
    saved,
    s,
    refl,
    record {
      stands = λ a le lt live. absurd (omega arith);
      before = λ a lt. refl;
      same = λ u. refl;
      held = λ u. refl;
    },
  )
  store_slots-StoredSlots (suc n) i t saved s h held =
      elim (Bool-cases (is_negative (get_or t.tids i 0))) [
        | inl neg ↦
            let (saved', s', runs, more) =
              store_slots-StoredSlots n (i + 1) t saved s (omega arith)
                (λ a le lt. held a (omega arith) (omega arith)) in
            (
              saved',
              s',
              rw (store_slots, neg) runs,
              StoredSlots-skip i n t saved saved' s s' neg more,
            )
        | inr live ↦
            let (v, s1, stores, stands, p) =
              store_thread-Puts c laws (get_or t.tids i 0) (get_or saved i unset) s
                (held i (omega arith) (omega arith) live) in
            let (saved', s', runs, more) =
              store_slots-StoredSlots n (i + 1) t (set saved i v) s1
                (omega (arith, length-set saved i v))
                (λ a le lt live'.
                  p.held (get_or t.tids a 0) ∙ held a (omega arith) (omega arith) live') in
            (
              saved',
              s',
              rw (store_slots, live, stores) runs,
              StoredSlots-next i n t saved saved' v s s1 s' (omega arith) stands p more,
            )
      ]

  -- The threads of the slots from `i` to `i + n` have the saved contexts; no other thread has changed.
  pub record RestoredSlots (i n : ℕ) (t : Threads) (saved : List Saved) (s s' : S) : Type 0 where
    pub restored : Stands i n t saved s'
    pub others :
        (u : ℕ)
        → ((a : ℕ)
            → i ≤ a
            → a < i + n
            → is_negative (get_or t.tids a 0) ≡ false
            → u ≢ get_or t.tids a 0)
        → laws.context s' u ≡ laws.context s u

  RestoredSlots-next :
      (i n : ℕ) (t : Threads) (saved : List Saved) (s s1 s' : S)
      → Distinct i (suc n) t
      → is_negative (get_or t.tids i 0) ≡ false
      → Puts c laws s s1 (get_or t.tids i 0) (context_of c laws (get_or saved i unset))
      → RestoredSlots (i + 1) n t saved s1 s'
      → RestoredSlots i (suc n) t saved s s'
  RestoredSlots-next i n t saved s s1 s' distinct live p more = record {
    restored = λ a le lt live'. elim (ℕ_discrete a i) [
      | yes here ↦ rw here (
          sym p.here
          ∙ sym (
              more.others (get_or t.tids i 0) (λ b le' lt' _.
                distinct i b (omega arith) (omega arith) (omega arith) (omega arith) (ground arith)
                  live)))
      | no ne ↦ more.restored a (omega arith) (omega arith) live'
    ];
    others = λ u ne.
        more.others u (λ b le lt live'. ne b (omega arith) (omega arith) live')
        ∙ p.others u (ne i (omega arith) (omega arith) live);
  }

  RestoredSlots-skip :
      (i n : ℕ) (t : Threads) (saved : List Saved) (s s' : S)
      → is_negative (get_or t.tids i 0) ≡ true
      → RestoredSlots (i + 1) n t saved s s'
      → RestoredSlots i (suc n) t saved s s'
  RestoredSlots-skip i n t saved s s' neg more = record {
    restored = λ a le lt live. elim (ℕ_discrete a i) [
      | yes here ↦
          absurd
            (true≢false (sym neg ∙ subst (λ j. is_negative (get_or t.tids j 0) ≡ false) here live))
      | no ne ↦ more.restored a (omega arith) (omega arith) live
    ];
    others = λ u ne. more.others u (λ b le lt live'. ne b (omega arith) (omega arith) live');
  }

  pub restore_slots-RestoredSlots :
      (n i : ℕ) (t : Threads) (saved : List Saved) (s : S)
      → Distinct i n t
      → Held i n t s
      → (s' : S) × (restore_slots c unset n i t saved s ≡ returned s')
        × RestoredSlots i n t saved s s'
  unfolding restore_slots
  restore_slots-RestoredSlots zero i t saved s d held =
      (s, refl, record { restored = λ a le lt live. absurd (omega arith); others = λ u ne. refl })
  restore_slots-RestoredSlots (suc n) i t saved s d held =
      let d' : Distinct (i + 1) n t =
        λ a b la lta lb ltb. d a b (omega arith) (omega arith) (omega arith) (omega arith) in
      elim (Bool-cases (is_negative (get_or t.tids i 0))) [
        | inl neg ↦
            let (s', runs, more) =
              restore_slots-RestoredSlots n (i + 1) t saved s d'
                (λ a le lt. held a (omega arith) (omega arith)) in
            (s', rw (restore_slots, neg) runs, RestoredSlots-skip i n t saved s s' neg more)
        | inr live ↦
            let (s1, restores, p) =
              restore_thread-Puts c laws (get_or t.tids i 0) (get_or saved i unset) s
                (held i (omega arith) (omega arith) live) in
            let (s', runs, more) =
              restore_slots-RestoredSlots n (i + 1) t saved s1 d' (λ a le lt live'.
                p.held (get_or t.tids a 0) ∙ held a (omega arith) (omega arith) live') in
            (
              s',
              rw (restore_slots, live, restores) runs,
              RestoredSlots-next i n t saved s s1 s' d live p more,
            )
      ]

  -- If the threads of the table, each in one slot, are stopped, `store_threads_registers` returns
  -- and leaves the context of every thread as it is. Whatever happens to the contexts then, if the
  -- threads are stopped again, `restore_threads_registers` returns: the threads of the table have
  -- the contexts that they had, and no other thread is touched.
  pub restore_threads_registers-store :
      (t : Threads) (saved : List Saved) (s : S)
      → t.tid_count ≤ length saved
      → Distinct 0 t.tid_count t
      → Held 0 t.tid_count t s
      → (saved' : List Saved) × (s1 : S) × (store_threads_registers c unset t saved s
          ≡ returned (saved', s1))
        × ((u : ℕ) → laws.context s1 u ≡ laws.context s u)
        × ((s2 : S)
            → Held 0 t.tid_count t s2
            → (s3 : S) × (restore_threads_registers c unset t saved' s2 ≡ returned s3)
              × ((i : ℕ)
                  → i < t.tid_count
                  → is_negative (get_or t.tids i 0) ≡ false
                  → laws.context s3 (get_or t.tids i 0) ≡ laws.context s (get_or t.tids i 0))
              × ((u : ℕ)
                  → ((i : ℕ) → i < t.tid_count → u ≢ get_or t.tids i 0)
                  → laws.context s3 u ≡ laws.context s2 u))
  unfolding store_threads_registers restore_threads_registers
  restore_threads_registers-store t saved s room distinct held =
      let (saved', s1, stores, stored) =
        store_slots-StoredSlots t.tid_count 0 t saved s (omega (arith, room)) held in
      (
        saved',
        s1,
        stores,
        stored.same,
        λ s2 held'.
            let (s3, restores, done) =
              restore_slots-RestoredSlots t.tid_count 0 t saved' s2 distinct held' in
            (
              s3,
              restores,
              λ i lt live.
                  sym (done.restored i (omega arith) (omega arith) live)
                  ∙ stored.stands i (omega arith) (omega arith) live,
              λ u ne. done.others u (λ a le lt live. ne a (omega arith)),
            ),
      )
