-- ===== src/Registers/Laws.antt =====
-- What `ptrace` is documented to do to the context of a stopped thread, and one thread of the loops.
use faasafe.Prelude.{refl, some, ◌≡◌, ◌≢◌, ℕ, Bool, true, ap, ◌∙◌}
use faasafe.Outcome.{returned}
use faasafe.Types.{Bytes}
use faasafe.Inject.{Regs}
use faasafe.Registers.{Contexts, Saved, store_thread, restore_thread, clear_pointer_size}

-- What the kernel keeps of a thread. The extended state, the floating-point registers included, is
-- one number, as are the signal information and mask.
pub record Context : Type 0 where
  pub xstate : ℕ
  pub regs : Regs
  pub siginfo : ℕ
  pub sigmask : ℕ

module _ {S : Type 0} (context : S → ℕ → Context) (is_held : S → ℕ → Bool) where
  -- A call has changed the context of one thread.
  pub record Put (s s' : S) (tid : ℕ) (v : Context) : Type 0 where
    pub here : context s' tid ≡ v
    pub others : (u : ℕ) → u ≢ tid → context s' u ≡ context s u
    pub held : (u : ℕ) → is_held s' u ≡ is_held s u

-- The documented calls on a thread that is stopped. A buffer of the extended state stands for the
-- state `image` of it. Writing the floating-point registers changes some of that state.
pub record IsContexts {S : Type 0} (c : Contexts S) : Type 0 where
  pub context : S → ℕ → Context
  pub is_held : S → ℕ → Bool
  pub image : Bytes → ℕ
  pub gets_fpregs :
      (s : S) (tid : ℕ) (b : Bytes)
      → is_held s tid ≡ true
      → (b' : Bytes) × (c.get_fpregs s tid b ≡ some b')
  pub gets_xstate :
      (s : S) (tid : ℕ) (b : Bytes)
      → is_held s tid ≡ true
      → (b' : Bytes) × (c.get_xstate s tid b ≡ some b') × (image b' ≡ (context s tid).xstate)
  pub gets_regs :
      (s : S) (tid : ℕ) → is_held s tid ≡ true → c.get_regs s tid ≡ some (context s tid).regs
  pub gets_siginfo :
      (s : S) (tid : ℕ) → is_held s tid ≡ true → c.get_siginfo s tid ≡ some (context s tid).siginfo
  pub gets_sigmask :
      (s : S) (tid : ℕ) → is_held s tid ≡ true → c.get_sigmask s tid ≡ some (context s tid).sigmask
  pub sets_fpregs :
      (s : S) (tid : ℕ) (b : Bytes)
      → is_held s tid ≡ true
      → (s' : S) × (x : ℕ) × (c.set_fpregs s tid b ≡ some s')
        × Put context is_held s s' tid (record (context s tid) { xstate = x })
  pub sets_xstate :
      (s : S) (tid : ℕ) (b : Bytes)
      → is_held s tid ≡ true
      → (s' : S) × (c.set_xstate s tid b ≡ some s')
        × Put context is_held s s' tid (record (context s tid) { xstate = image b })
  pub sets_regs :
      (s : S) (tid : ℕ) (r : Regs)
      → is_held s tid ≡ true
      → (s' : S) × (c.set_regs s tid r ≡ some s')
        × Put context is_held s s' tid (record (context s tid) { regs = r })
  pub sets_siginfo :
      (s : S) (tid : ℕ) (n : ℕ)
      → is_held s tid ≡ true
      → (s' : S) × (c.set_siginfo s tid n ≡ some s')
        × Put context is_held s s' tid (record (context s tid) { siginfo = n })
  pub sets_sigmask :
      (s : S) (tid : ℕ) (n : ℕ)
      → is_held s tid ≡ true
      → (s' : S) × (c.set_sigmask s tid n ≡ some s')
        × Put context is_held s s' tid (record (context s tid) { sigmask = n })

module _ {S : Type 0} (c : Contexts S) (laws : IsContexts c) where
  -- The context that a slot stands for.
  abbrev pub context_of : Saved → Context
  context_of v = record {
    xstate = laws.image v.txsave;
    regs = v.tregs;
    siginfo = v.si;
    sigmask = v.tmask;
  }

  abbrev pub Puts : S → S → ℕ → Context → Type 0
  Puts = Put laws.context laws.is_held

  Puts-then :
      (s s1 s2 : S) (tid : ℕ) (v w : Context) → Puts s s1 tid v → Puts s1 s2 tid w → Puts s s2 tid w
  Puts-then s s1 s2 tid v w p q = record {
    here = q.here;
    others = λ u ne. q.others u ne ∙ p.others u ne;
    held = λ u. q.held u ∙ p.held u;
  }

  pub restore_thread-Puts :
      (tid : ℕ) (v : Saved) (s : S)
      → laws.is_held s tid ≡ true
      → (s' : S) × (restore_thread c tid v s ≡ returned s') × Puts s s' tid (context_of v)
  unfolding restore_thread
  restore_thread-Puts tid v s h =
      let (s1, x, e1, p1) = laws.sets_fpregs s tid v.txsave h in
      let (s2, e2, p2) = laws.sets_siginfo s1 tid v.si (p1.held tid ∙ h) in
      let (s3, e3, p3) = laws.sets_sigmask s2 tid v.tmask (p2.held tid ∙ p1.held tid ∙ h) in
      let (s4, e4, p4) =
        laws.sets_xstate s3 tid v.txsave (p3.held tid ∙ p2.held tid ∙ p1.held tid ∙ h) in
      let (s5, e5, p5) =
        laws.sets_regs s4 tid v.tregs (p4.held tid ∙ p3.held tid ∙ p2.held tid ∙ p1.held tid ∙ h) in
      let p =
        Puts-then s s4 s5 tid _ _
          (Puts-then s s3 s4 tid _ _
            (Puts-then s s2 s3 tid _ _ (Puts-then s s1 s2 tid _ _ p1 p2) p3) p4)
          p5 in
      (
        s5,
        rw (restore_thread, e1, e2, e3, e4, e5) refl,
        record {
          here =
              p5.here
              ∙ ap (λ (z : Context). record z { regs = v.tregs })
                  (p4.here
                    ∙ ap (λ (z : Context). record z { xstate = laws.image v.txsave })
                        (p3.here
                          ∙ ap (λ (z : Context). record z { sigmask = v.tmask })
                              (p2.here
                                ∙ ap (λ (z : Context). record z { siginfo = v.si }) p1.here)));
          others = p.others;
          held = p.held;
        },
      )

  -- Saving a thread leaves its context as it is, and makes the slot stand for it.
  pub store_thread-Puts :
      (tid : ℕ) (old : Saved) (s : S)
      → laws.is_held s tid ≡ true
      → (v : Saved) × (s' : S) × (store_thread c tid old s ≡ returned (v, s'))
        × (context_of v ≡ laws.context s tid)
        × Puts s s' tid (laws.context s tid)
  unfolding store_thread
  store_thread-Puts tid old s h =
      let (b1, e1) = laws.gets_fpregs s tid (clear_pointer_size old.txsave) h in
      let (b2, e2, image) = laws.gets_xstate s tid b1 h in
      let (s', e3, p) = laws.sets_siginfo s tid (laws.context s tid).siginfo h in
      let h' = p.held tid ∙ h in
      let v : Saved = record {
        txsave = b2;
        tregs = (laws.context s tid).regs;
        si = (laws.context s tid).siginfo;
        tmask = (laws.context s' tid).sigmask;
      } in
      (
        v,
        s',
        rw
            (
              store_thread,
              e1,
              e2,
              laws.gets_regs s tid h,
              laws.gets_siginfo s tid h,
              e3,
              laws.gets_sigmask s' tid h',
            )
            refl,
        ap (λ x. context_with x (laws.context s' tid).sigmask) image
            ∙ ap (λ (z : Context). context_with (laws.context s tid).xstate z.sigmask) p.here,
        record { here = p.here; others = p.others; held = p.held },
      )
    where
      context_with : ℕ → ℕ → Context
      context_with x m = record (laws.context s tid) { xstate = x; sigmask = m }
