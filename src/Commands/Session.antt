-- ===== src/Commands/Session.antt =====
-- Whole sessions of commands.
use faasafe.Prelude.{refl, [], ◌∷◌, true, false, arith, ◌≡◌, ℕ, List, ◌+◌, ◌<◌, ◌^◌, ◌++◌, ap, ◌∙◌}
use faasafe.Commands.{
  Command, restore, save_for, give_back, command_of, Action, restored, replied, Tracker, perform,
  step, handle_stdcmd, after_lines,
}

-- How often the process is restored.
abbrev is_restored : Action → ℕ
is_restored restored = 1
is_restored _ = 0

abbrev pub restores : List Action → ℕ
restores [] = 0
restores (a ∷ l) = is_restored a + restores l

restores-append : (l l' : List Action) → restores (l ++ l') ≡ restores l + restores l'
restores-append [] l' = omega arith
restores-append (a ∷ l) l' = omega (arith, restores-append l l')

perform-bounded :
    (keepalive : ℕ) (c : Command) (t : Tracker)
    → 0 < keepalive
    → keepalive < 2 ^ 31
    → t.num_revived < keepalive
    → (restores (perform keepalive c t).1 + t.num_revived ≡ (perform keepalive c t).0.num_revived)
      × ((perform keepalive c t).0.num_revived < keepalive)
unfolding perform
perform-bounded keepalive restore t pos small h = ground arith
perform-bounded keepalive _ t pos small h = (omega arith, h)

step-bounded :
    (keepalive : ℕ) (t : Tracker) (line : List ℕ)
    → 0 < keepalive
    → keepalive < 2 ^ 31
    → t.num_revived < keepalive
    → (restores (step keepalive t line).1 + t.num_revived ≡ (step keepalive t line).0.num_revived)
      × ((step keepalive t line).0.num_revived < keepalive)
unfolding step
step-bounded keepalive t line pos small h =
    ground (arith, perform-bounded keepalive (command_of line) t pos small h)

-- With a positive `keepalive`, whatever lines the tracee writes, the process is restored fewer
-- than `keepalive` times, those before the session included.
pub handle_stdcmd-bounded :
    (keepalive : ℕ) (t : Tracker) (lines : List (List ℕ))
    → 0 < keepalive
    → keepalive < 2 ^ 31
    → t.num_revived < keepalive
    → restores (handle_stdcmd keepalive t lines) + t.num_revived < keepalive
unfolding handle_stdcmd
handle_stdcmd-bounded keepalive t [] pos small h = ground arith
handle_stdcmd-bounded keepalive t (line ∷ lines) pos small h =
    let (count, below) = step-bounded keepalive t line pos small h in
    let rest = handle_stdcmd-bounded keepalive (step keepalive t line).0 lines pos small below in
    omega (
      arith,
      count,
      rest,
      restores-append (step keepalive t line).1
          (handle_stdcmd keepalive (step keepalive t line).0 lines),
    )

-- No line of these saves something or asks for a restoration.
abbrev pub KeepsScratch : List (List ℕ) → Type 0
KeepsScratch [] = Unit
KeepsScratch (line ∷ lines) =
    (¬ (command_of line ≡ save_for)) × (¬ (command_of line ≡ restore)) × KeepsScratch lines

perform-keeps :
    (keepalive : ℕ) (c : Command) (t : Tracker)
    → ¬ (c ≡ save_for)
    → ¬ (c ≡ restore)
    → (perform keepalive c t).0 ≡ t
unfolding perform
perform-keeps keepalive save_for t n m = absurd (n refl)
perform-keeps keepalive restore t n m = absurd (m refl)
perform-keeps keepalive _ t n m = refl

step-performs :
    (keepalive : ℕ) (t : Tracker) (line : List ℕ)
    → t.stopped ≡ false
    → t.saving ≡ false
    → step keepalive t line ≡ perform keepalive (command_of line) t
unfolding step
step-performs keepalive t line s v = simp (s, v)

after_lines-keeps :
    (keepalive : ℕ) (t : Tracker) (lines : List (List ℕ))
    → t.stopped ≡ false
    → t.saving ≡ false
    → KeepsScratch lines
    → after_lines keepalive t lines ≡ t
unfolding after_lines
after_lines-keeps keepalive t [] s v k = refl
after_lines-keeps keepalive t (line ∷ lines) s v (n, m, k) =
    rw (step-performs keepalive t line s v, perform-keeps keepalive (command_of line) t n m)
      (after_lines-keeps keepalive t lines s v k)

step-saves :
    (keepalive : ℕ) (t : Tracker) (line : List ℕ)
    → t.stopped ≡ false
    → (step keepalive (record t { saving = true }) line).0
      ≡ record t { scratchmem = line; saving = false }
unfolding step
step-saves keepalive t line s = simp s

-- What is saved is given back: after a line that saves, the data, and any lines that neither save
-- nor ask for a restoration, a line that asks for it is answered with the data alone.
pub give_back-saved :
    (keepalive : ℕ) (t : Tracker) (save line give : List ℕ) (lines : List (List ℕ))
    → t.stopped ≡ false
    → t.saving ≡ false
    → command_of save ≡ save_for
    → KeepsScratch lines
    → command_of give ≡ give_back
    → (step keepalive (after_lines keepalive t (save ∷ line ∷ lines)) give).1 ≡ replied line ∷ []
unfolding after_lines perform
give_back-saved keepalive t save line give lines s v is_save k is_give =
    let t' : Tracker = record t { scratchmem = line; saving = false } in
    let once : (step keepalive t save).0 ≡ record t { saving = true } =
      ap (λ (x : Tracker × List Action). x.0)
        (step-performs keepalive t save s v ∙ ap (λ c. perform keepalive c t) is_save) in
    let saved : after_lines keepalive t (save ∷ line ∷ lines) ≡ t' =
      ap (λ x. after_lines keepalive (step keepalive x line).0 lines) once
      ∙ ap (λ x. after_lines keepalive x lines) (step-saves keepalive t line s)
      ∙ after_lines-keeps keepalive t' lines s refl k in
    ap (λ x. (step keepalive x give).1) saved
    ∙ ap (λ (x : Tracker × List Action). x.1)
        (step-performs keepalive t' give s refl ∙ ap (λ c. perform keepalive c t') is_give)
