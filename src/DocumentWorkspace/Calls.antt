-- ===== src/DocumentWorkspace/Calls.antt =====
-- The calls that change one workspace (include/mwfl/document_workspace.h), and sequences of them.
use mwfl.Prelude.{ℕ, Bool, Option, List, [], ◌∷◌, Text}
use mwfl.DocumentWorkspace.{
  PathApi, Document, ViewState, Result, Workspace, done, add, close, move, activate, set_dirty,
  set_undo_state, set_view_state, rename,
}
use mwfl.DocumentWorkspace.Closing.{close_many}
use mwfl.DocumentWorkspace.Recent.{
  reopen_recently_closed, restore_recently_closed, clear_recently_closed,
}

pub data Call : Type 0 where
  adds : Document → Option ℕ → Call
  closes : ℕ → Bool → Call
  closes_many : List ℕ → Call
  moves : ℕ → ℕ → Call
  activates : ℕ → Call
  dirties : ℕ → Bool → Call
  undo_states : ℕ → Bool → Bool → Call
  views : ℕ → ViewState → Call
  renames : ℕ → Text → Text → Call
  reopens : ℕ → Call
  restores : List Document → Call
  clears : Call

module _ ⦃os : PathApi⦄ where
  unfoldable pub step : Workspace → Call → Workspace × Result
  step w (adds d index) = add w d index
  step w (closes id remember) = close w id remember
  step w (closes_many ids) = close_many w ids
  step w (moves id index) = move w id index
  step w (activates id) = activate w id
  step w (dirties id dirty) = set_dirty w id dirty
  step w (undo_states id can_undo can_redo) = set_undo_state w id can_undo can_redo
  step w (views id state) = set_view_state w id state
  step w (renames id title path) = rename w id title path
  step w (reopens index) = reopen_recently_closed w index
  step w (restores ds) = restore_recently_closed w ds
  step w clears = done (clear_recently_closed w)

  unfoldable pub run : Workspace → List Call → Workspace
  run w [] = w
  run w (c ∷ cs) = run (step w c).0 cs
