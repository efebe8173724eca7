-- ===== src/DocumentWorkspace/Reachable.antt =====
-- Every workspace that calls of src/document_workspace.cpp reach keeps the invariant.
use mathlib.Core.List.{Nodup-nil, Pairwise, not-mem-nil}
use mwfl.Prelude.{ℕ, ◌≡◌, refl, none, some, List, [], ◌∷◌, arith}
use mwfl.DocumentWorkspace.{PathApi, Workspace, create}
use mwfl.DocumentWorkspace.Calls.{
  Call, adds, closes, closes_many, moves, activates, dirties, undo_states, views, renames, reopens,
  restores, clears, step, run,
}
use mwfl.DocumentWorkspace.Recent.{clear_recently_closed}
use mwfl.DocumentWorkspace.Invariant.{IsValid, recently_closed-IsValid}
use mwfl.DocumentWorkspace.Preserve.{
  add-IsValid, close-IsValid, move-IsValid, activate-IsValid, set_dirty-IsValid,
  set_undo_state-IsValid, set_view_state-IsValid, rename-IsValid,
}
use mwfl.DocumentWorkspace.Batch.{close_many-IsValid, reopen-IsValid, restore-IsValid}

module _ ⦃os : PathApi⦄ where
  -- Every call, accepted or refused, keeps the invariant: distinct IDs that are not zero, valid
  -- documents, no path twice, an active document that is open, and the bound on the recently
  -- closed list.
  pub step-IsValid : (w : Workspace) (c : Call) → IsValid w → IsValid (step w c).0
  unfolding step clear_recently_closed
  step-IsValid w (adds d index) v = add-IsValid w d index v
  step-IsValid w (closes id remember) v = close-IsValid w id remember v
  step-IsValid w (closes_many ids) v = close_many-IsValid w ids v
  step-IsValid w (moves id index) v = move-IsValid w id index v
  step-IsValid w (activates id) v = activate-IsValid w id v
  step-IsValid w (dirties id dirty) v = set_dirty-IsValid w id dirty v
  step-IsValid w (undo_states id undo redo) v = set_undo_state-IsValid w id undo redo v
  step-IsValid w (views id state) v = set_view_state-IsValid w id state v
  step-IsValid w (renames id title path) v = rename-IsValid w id title path v
  step-IsValid w (reopens index) v = reopen-IsValid w index v
  step-IsValid w (restores ds) v = restore-IsValid w ds v
  step-IsValid w clears v = recently_closed-IsValid w [] (omega arith) v

  pub run-IsValid : (w : Workspace) (cs : List Call) → IsValid w → IsValid (run w cs)
  unfolding run
  run-IsValid w [] v = v
  run-IsValid w (c ∷ cs) v = run-IsValid (step w c).0 cs (step-IsValid w c v)

  create-IsValid : (id maximum : ℕ) {w : Workspace} → create id maximum ≡ some w → IsValid w
  unfolding create
  create-IsValid id maximum {w = w} e =
      let ds : w.documents ≡ [] = ground arith in
      let active : w.active ≡ none = ground arith in
      let recent : w.recently_closed ≡ [] = ground arith in
      record {
        ids = rw ds (record { nonzero = λ m. not-mem-nil m; distinct = Nodup-nil });
        good = rw ds tt;
        apart = rw ds Pairwise.nil;
        selection = rw (active, ds) refl;
        recent = rw recent (omega arith);
      }

  -- A workspace that was constructed keeps the invariant through every sequence of calls.
  pub run-create-IsValid :
      (id maximum : ℕ) (cs : List Call) {w : Workspace}
      → create id maximum ≡ some w
      → IsValid (run w cs)
  run-create-IsValid id maximum cs {w = w} e = run-IsValid w cs (create-IsValid id maximum e)
