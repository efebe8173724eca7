-- ===== src/DocumentWorkspace/Transfer.antt =====
-- Moving a document between two workspaces: the transfer calls of src/document_workspace.cpp.
use mwfl.Prelude.{
  ℕ, Bool, true, false, not, ◌&&◌, ◌||◌, Option, none, some, ◌==◌, if◌then◌else◌, opt_eq, is_nil,
  is_some, get_elem?,
}
use mwfl.DocumentWorkspace.{
  PathApi, Document, success, invalid_argument, stale_transfer, Result, Workspace, is_success,
  find_document, fail, view_is_valid, add, close, activate,
}

pub record TransferPlan : Type 0 where
  pub source : ℕ
  pub destination : ℕ
  pub document : Document
  pub source_index : ℕ
  pub destination_index : Option ℕ
  pub was_active : Bool
  pub source_revision : ℕ
  pub destination_revision : ℕ
  pub accepted : Bool

unfoldable pub plan_is_valid : TransferPlan → Bool
plan_is_valid p =
    not (p.source == 0)
    && not (p.destination == 0)
    && not (p.source == p.destination)
    && not (p.document.id == 0)
    && not (is_nil p.document.title)
    && view_is_valid p.document.view

abbrev pub plan_for : Workspace → ℕ → ℕ → Option ℕ → ℕ → Document → TransferPlan
plan_for w id destination destination_index i d = record {
  source = w.id;
  destination = destination;
  document = d;
  source_index = i;
  destination_index = destination_index;
  was_active = opt_eq w.active (some id);
  source_revision = w.revision;
  destination_revision = 0;
  accepted = false;
}

abbrev pub plan_at : Workspace → ℕ → ℕ → Option ℕ → ℕ → Option Document → Option TransferPlan
plan_at w id destination destination_index i none = none
plan_at w id destination destination_index i (some d) =
    some (plan_for w id destination destination_index i d)

unfoldable pub prepare_transfer : Workspace → ℕ → ℕ → Option ℕ → Option TransferPlan
prepare_transfer w id destination destination_index = elim (find_document w id) [
  | none ↦ none
  | some i ↦
      if (destination == 0) || (destination == w.id)
      then none
      else plan_at w id destination destination_index i (get_elem? w.documents i)
]

module _ ⦃os : PathApi⦄ where
  -- The plan is changed too.
  unfoldable pub accept_transfer : Workspace → TransferPlan → Workspace × TransferPlan × Result
  accept_transfer w p =
      if not (plan_is_valid p) || not (p.destination == w.id) || p.accepted
      then (w, p, record { status = invalid_argument; active = w.active })
      else let added = add w p.document p.destination_index in
        if is_success added.1.status
        then (
          added.0,
          record p { accepted = true; destination_revision = added.0.revision },
          added.1,
        )
        else (added.0, p, added.1)

  unfoldable pub commit_transfer : Workspace → TransferPlan → Workspace × Result
  commit_transfer w p =
      if not (plan_is_valid p) || not (p.source == w.id) || not p.accepted
      then fail w invalid_argument
      else if not (w.revision == p.source_revision) || not (is_some (find_document w p.document.id))
      then fail w stale_transfer
      else close w p.document.id false

  unfoldable pub rollback_transfer : Workspace → TransferPlan → Workspace × Result
  rollback_transfer w p =
      if not (plan_is_valid p) || not (p.destination == w.id) || not p.accepted
      then fail w invalid_argument
      else if not (w.revision == p.destination_revision)
          || not (is_some (find_document w p.document.id))
      then fail w stale_transfer
      else close w p.document.id false

  -- What `TransferDocument` does once the destination has answered: the two workspaces, and the
  -- result. The source has not changed since the plan was made.
  unfoldable pub complete_transfer :
      Workspace → ℕ → Workspace × TransferPlan × Result → Workspace × Workspace × Result
  complete_transfer source id (destination, p, accepted) =
      let committed = commit_transfer source p in
      if not (is_success accepted.status)
      then (source, destination, accepted)
      else if not (is_success committed.1.status)
      then (committed.0, (rollback_transfer destination p).0, committed.1)
      else let final = if p.was_active then (activate destination id).0 else destination in
        (committed.0, final, record { status = success; active = final.active })

  unfoldable pub transfer_document :
      Workspace → Workspace → ℕ → Option ℕ → Workspace × Workspace × Result
  transfer_document source destination id index =
      elim (prepare_transfer source id destination.id index) [
        | none ↦ (source, destination, record { status = invalid_argument; active = source.active })
        | some p ↦ complete_transfer source id (accept_transfer destination p)
      ]
