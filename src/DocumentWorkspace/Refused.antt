-- ===== src/DocumentWorkspace/Refused.antt =====
-- What the calls of src/document_workspace.cpp do when they are refused, and what `CloseMany` does
-- with all its IDs at once.
use mwfl.Prelude.{
  ℕ, ◌≡◌, refl, inl, inr, false, Option, none, arith, Bool-cases, Option-cases, get_elem?,
}
use mwfl.DocumentWorkspace.{
  PathApi, Document, Workspace, add, close, rename, move, move_from, activate, set_dirty,
  set_undo_state, set_view_state, is_success,
}
use mwfl.DocumentWorkspace.Calls.{
  Call, adds, closes, closes_many, moves, activates, dirties, undo_states, views, renames, reopens,
  restores, clears, step,
}
use mwfl.DocumentWorkspace.Closing.{close_many}
use mwfl.DocumentWorkspace.Recent.{reopen_recently_closed, restore_recently_closed}

module _ ⦃os : PathApi⦄ where
  add_refused :
      (w : Workspace) (d : Document) (index : Option ℕ)
      → is_success (add w d index).1.status ≡ false
      → (add w d index).0 ≡ w
  unfolding add
  add_refused w d index e = ground arith

  reopen_refused :
      (w : Workspace) (index : ℕ)
      → is_success (reopen_recently_closed w index).1.status ≡ false
      → (reopen_recently_closed w index).0 ≡ w
  unfolding reopen_recently_closed
  reopen_refused w index e = elim (Option-cases (get_elem? w.recently_closed index)) [
    | inl miss ↦ rw (miss, reopen_recently_closed) refl
    | inr (d, hit) ↦
        let clean : Document = record d { dirty = false } in
        elim (Bool-cases (is_success (add w clean none).1.status)) [
          | inl fine ↦ absurd (ground (arith, hit, fine))
          | inr bad ↦ rw (hit, reopen_recently_closed, bad) (add_refused w clean none bad)
        ]
  ]

  -- A call that does not report success leaves the workspace as it was.
  pub step_refused :
      (w : Workspace) (c : Call) → is_success (step w c).1.status ≡ false → (step w c).0 ≡ w
  unfolding step close close_many move move_from activate set_dirty set_undo_state set_view_state
      rename restore_recently_closed
  step_refused w (adds d index) e = add_refused w d index e
  step_refused w (closes id remember) e = ground arith
  step_refused w (closes_many ids) e = ground arith
  step_refused w (moves id index) e = ground arith
  step_refused w (activates id) e = ground arith
  step_refused w (dirties id dirty) e = ground arith
  step_refused w (undo_states id undo redo) e = ground arith
  step_refused w (views id state) e = ground arith
  step_refused w (renames id title path) e = ground arith
  step_refused w (reopens index) e = reopen_refused w index e
  step_refused w (restores ds) e = ground arith
  step_refused w clears e = absurd (ground arith)
