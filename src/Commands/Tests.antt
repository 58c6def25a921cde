-- ===== src/Commands/Tests.antt =====
-- Short sessions.
use faasafe.Maps.Names.{same_start}
use faasafe.Prelude.{refl, [], ◌∷◌, false, arith, ◌≡◌, ◌+◌, ◌<◌}
use faasafe.Commands.{
  restored, killed, replied, Tracker, step, handle_stdcmd, after_lines, cmd_ack, cmd_restore,
  cmd_nop, cmd_saveforme, cmd_givebackme, command_of, perform, same_start, give_back, save_for,
}
use faasafe.Commands.Session.{restores, handle_stdcmd-bounded, give_back-saved, KeepsScratch}

abbrev start : Tracker
start = record { num_revived = 0; scratchmem = []; saving = false; stopped = false }

-- The second restoration of a process that is to be kept alive twice kills it.
killed_test :
    handle_stdcmd 2 start (cmd_restore ∷ cmd_restore ∷ cmd_nop ∷ [])
    ≡ restored ∷ replied cmd_ack ∷ killed ∷ []
unfolding handle_stdcmd step command_of perform same_start
killed_test = refl

-- The commands of the shared library are not among those that the loop knows.
unanswered_test :
    handle_stdcmd 2 start (
      (b'f' ∷ b'a' ∷ b'a' ∷ b's' ∷ b'a' ∷ b'f' ∷ b'e' ∷ b'_' ∷ b'r' ∷ b'e' ∷ b'w' ∷ b'i' ∷ b'n'
        ∷ b'd' ∷ [])
      ∷ [])
    ≡ []
unfolding handle_stdcmd step command_of perform same_start
unanswered_test = refl

handle_stdcmd-bounded_example :
    restores (handle_stdcmd 2 start (cmd_restore ∷ cmd_restore ∷ [])) + 0 < 2
handle_stdcmd-bounded_example =
    handle_stdcmd-bounded 2 start (cmd_restore ∷ cmd_restore ∷ []) (omega arith) (omega arith)
      (omega arith)

nop_keeps : KeepsScratch (cmd_nop ∷ [])
unfolding command_of same_start
nop_keeps = ((λ e. cc), (λ e. cc), tt)

is_save : command_of cmd_saveforme ≡ save_for
unfolding command_of same_start
is_save = refl

is_give : command_of cmd_givebackme ≡ give_back
unfolding command_of same_start
is_give = refl

give_back-saved_example :
    (step 2 (after_lines 2 start (cmd_saveforme ∷ (1 ∷ 2 ∷ []) ∷ cmd_nop ∷ [])) cmd_givebackme).1
    ≡ replied (1 ∷ 2 ∷ []) ∷ []
give_back-saved_example =
    give_back-saved 2 start cmd_saveforme (1 ∷ 2 ∷ []) cmd_givebackme (cmd_nop ∷ []) refl refl
      is_save nop_keeps is_give
