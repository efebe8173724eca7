-- ===== src/DockingDrag/Session.antt =====
-- The drag of a docked panel, the class `DockDragSession` of src/docking_drag.cpp. The handlers of the
-- application act on a native world and may throw. Allocation failure is not modelled.
use mwfl.Prelude.{
  ℕ, Bool, true, false, not, ◌||◌, Option, none, some, List, ◌==◌, if◌then◌else◌, is_some,
}
use mwfl.Docking.{
  Snapshot, LayoutStatus, success, invalid_argument, stale_transaction, is_success, find_panel,
}
use mwfl.Docking.Model.{Transaction, LayoutModel, LayoutResult, transaction_is_valid, commit}
use mwfl.DockingDrag.{Arithmetic, Point, DropTarget, hit_test}

pub data DragState : Type 0 where
  idle tracking proposed committed cancelled : DragState

pub data CancelReason : Type 0 where
  explicit_cancel escape capture_lost source_destroyed target_destroyed : CancelReason
  invalid_proposal adoption_failed callback_failed stale : CancelReason

pub data CommitStatus : Type 0 where
  done invalid_state not_adopted threw layout_failed : CommitStatus

pub record CommitResult : Type 0 where
  pub status : CommitStatus
  pub layout_status : LayoutStatus

pub record DragSession : Type 0 where
  pub state : DragState
  pub panel : ℕ
  pub source_revision : ℕ
  pub original : Option Snapshot
  pub target : Option DropTarget
  pub proposal : Option Transaction
  pub cancel_reason : Option CancelReason

-- A new session, and one after `Reset`; `none` is the empty snapshot.
abbrev pub fresh : DragSession
fresh = record {
  state = idle;
  panel = 0;
  source_revision = 0;
  original = none;
  target = none;
  proposal = none;
  cancel_reason = none;
}

abbrev pub is_idle : DragState → Bool
is_idle idle = true
is_idle state = false

abbrev pub is_tracking : DragState → Bool
is_tracking tracking = true
is_tracking state = false

abbrev pub is_proposed : DragState → Bool
is_proposed proposed = true
is_proposed state = false

abbrev pub is_committed : DragState → Bool
is_committed committed = true
is_committed state = false

unfoldable pub begin : DragSession → LayoutModel → ℕ → DragSession × Bool
begin d m panel =
    if not (is_idle d.state) || (panel == 0) || not (is_some (find_panel m.state panel))
    then (d, false)
    else (
      record d {
        state = tracking;
        panel = panel;
        source_revision = m.revision;
        original = some m.state;
      },
      true,
    )

unfoldable pub update_target :
    ⦃ops : Arithmetic⦄ → DragSession → Point → List DropTarget → DragSession × Option DropTarget
update_target d p ts =
    if is_tracking d.state || is_proposed d.state
    then (record d { target = hit_test p ts; proposal = none; state = tracking }, hit_test p ts)
    else (d, none)

unfoldable pub cancel : DragSession → CancelReason → DragSession
cancel d reason =
    if is_committed d.state || is_idle d.state
    then d
    else record d { proposal = none; target = none; cancel_reason = some reason; state = cancelled }

unfoldable pub set_proposal : DragSession → Transaction → DragSession × Bool
set_proposal d t =
    if not (is_tracking d.state)
      || not (t.source_revision == d.source_revision)
      || not (t.mutation.panel == d.panel)
      || not (transaction_is_valid t)
    then (cancel d invalid_proposal, false)
    else (record d { proposal = some t; state = proposed }, true)

-- `Reset`.
unfoldable pub reset : DragSession → DragSession
reset d = fresh

-- The handlers of `Commit`: the answer of the adoption, and whether the rollback returned.
pub record Handlers (N : Type 0) : Type 0 where
  pub adopt_native : Snapshot → N → Option Bool × N
  pub rollback : Option Snapshot → N → Bool × N

-- The session, the model, the native world, and the result.
pub record Outcome (N : Type 0) : Type 0 where
  pub session : DragSession
  pub model : LayoutModel
  pub native : N
  pub result : CommitResult

abbrev pub layout_reason : LayoutStatus → CancelReason
layout_reason stale_transaction = stale
layout_reason status = invalid_proposal

module _ {N : Type 0} where
  abbrev pub cancelled_by :
      DragSession → LayoutModel → N → CancelReason → CommitStatus → LayoutStatus → Outcome N
  cancelled_by d m n reason status layout = record {
    session = cancel d reason;
    model = m;
    native = n;
    result = record { status = status; layout_status = layout };
  }

  -- An adoption that was refused, after its rollback.
  abbrev pub refused : DragSession → LayoutModel → Bool × N → Outcome N
  refused d m (true, n) = cancelled_by d m n adoption_failed not_adopted invalid_argument
  refused d m (false, n) = cancelled_by d m n callback_failed threw invalid_argument

  -- A layout that the model refused, after the rollback.
  abbrev pub layout_refused : DragSession → LayoutModel → LayoutStatus → Bool × N → Outcome N
  layout_refused d m status (true, n) =
      cancelled_by d m n (layout_reason status) layout_failed status
  layout_refused d m status (false, n) = cancelled_by d m n (layout_reason status) threw status

  abbrev pub after_model : Handlers N → DragSession → N → LayoutModel × LayoutResult → Outcome N
  after_model h d n (m, r) =
      if is_success r.status
      then record {
        session = record d { proposal = none; target = none; state = committed };
        model = m;
        native = n;
        result = record { status = done; layout_status = success };
      }
      else layout_refused d m r.status (h.rollback d.original n)

  abbrev pub after_adoption :
      Handlers N → DragSession → LayoutModel → Transaction → Option Bool × N → Outcome N
  after_adoption h d m t (none, n) =
      cancelled_by d m (h.rollback d.original n).1 callback_failed threw invalid_argument
  after_adoption h d m t (some false, n) = refused d m (h.rollback d.original n)
  after_adoption h d m t (some true, n) = after_model h d n (commit m t)

  abbrev pub not_ready : DragSession → LayoutModel → N → Outcome N
  not_ready d m n = record {
    session = d;
    model = m;
    native = n;
    result = record { status = invalid_state; layout_status = invalid_argument };
  }

  abbrev pub commit_proposal :
      Handlers N → DragSession → LayoutModel → N → Option Transaction → Outcome N
  commit_proposal h d m n none = not_ready d m n
  commit_proposal h d m n (some t) = after_adoption h d m t (h.adopt_native t.proposed n)

  -- `Commit`; `none` stands for a handler that is missing.
  unfoldable pub commit_drag : DragSession → LayoutModel → N → Option (Handlers N) → Outcome N
  commit_drag d m n none = not_ready d m n
  commit_drag d m n (some h) =
      if is_proposed d.state then commit_proposal h d m n d.proposal else not_ready d m n
