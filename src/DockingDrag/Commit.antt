-- ===== src/DockingDrag/Commit.antt =====
-- What the end of a drag does: `DockDragSession::Commit` of src/docking_drag.cpp.
use mwfl.Prelude.{◌≡◌, ◌≢◌, ◌&&◌, is_some, ◌⊎◌, Bool, true, false, some}
use mwfl.Docking.{is_success}
use mwfl.Docking.Model.{Transaction, LayoutModel, commit}
use mwfl.DockingDrag.Session.{
  DragSession, cancelled, proposed, committed, is_proposed, CommitStatus, done, invalid_state,
  Handlers, Outcome,
}

-- The status of a commit that succeeded.
abbrev pub is_done : CommitStatus → Bool
is_done done = true
is_done status = false

module _ {N : Type 0} (d : DragSession) (m : LayoutModel) (n : N) (h : Handlers N) where
  -- The drag is not in its proposed state, or has no proposal, and nothing has changed.
  abbrev pub NotReady : Outcome N → Type 0
  NotReady o =
      ((is_proposed d.state && is_some d.proposal) ≡ false)
      × (o.result.status ≡ invalid_state)
      × (o.session ≡ d)
      × (o.model ≡ m)
      × (o.native ≡ n)

  -- The proposal was adopted, and the model holds its layout.
  abbrev pub Adopted : Transaction → Outcome N → Type 0
  Adopted t o =
      (o.result.status ≡ done)
      × (o.session.state ≡ committed)
      × (o.model ≡ (commit m t).0)
      × (o.model.state ≡ t.proposed)
      × (h.adopt_native t.proposed n ≡ (some true, o.native))

  -- The windows or the model refuse a proposal.
  abbrev pub Refuses : Transaction → Type 0
  Refuses t =
      ((h.adopt_native t.proposed n).0 ≢ some true) ⊎ (is_success (commit m t).1.status ≡ false)

  -- The adoption was refused, threw, or was not taken by the model; it was rolled back to the layout
  -- of the start, and the model has not changed.
  abbrev pub RolledBack : Transaction → Outcome N → Type 0
  RolledBack t o =
      Refuses t
      × (is_done o.result.status ≡ false)
      × (o.session.state ≡ cancelled)
      × (o.model ≡ m)
      × (o.native ≡ (h.rollback d.original (h.adopt_native t.proposed n).1).1)

  module _ (t : Transaction) (ready : d.state ≡ proposed) where
    abbrev Ends : Outcome N → Type 0
    Ends o = Adopted t o ⊎ RolledBack t o

  abbrev pub Ended : Outcome N → Type 0
  Ended o =
      NotReady o
      ⊎ ((t : Transaction) × (d.state ≡ proposed)
          × (d.proposal ≡ some t)
          × (Adopted t o ⊎ RolledBack t o))
