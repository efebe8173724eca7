-- ===== src/Docking/Model/Commit.antt =====
-- `Propose` and `Commit` of src/docking_workspace.cpp together: what a commit installs, and that a
-- transaction is used once.
use mwfl.Prelude.{
  ℕ, ◌≡◌, refl, ◌≢◌, inl, inr, true, some, map, Perm, arith, next_u64, ==_refl, Bool-cases,
}
use mwfl.Docking.{
  Snapshot, LayoutStatus, success, invalid_graph, stale_transaction, is_success, panel_id,
}
use mwfl.Docking.Validate.{validate}
use mwfl.Docking.Validate.Once.{shown_panels, validate-once}
use mwfl.Docking.Mutation.{Mutation, apply_mutation}
use mwfl.Docking.Mutation.Panels.{Outcome, apply_mutation-Outcome}
use mwfl.Docking.Model.{Transaction, LayoutModel, refuse, commit, propose, proposal_status}

pub success_of : (s : LayoutStatus) → is_success s ≡ true → s ≡ success
success_of success h = refl
success_of LayoutStatus.invalid_argument h = cc
success_of LayoutStatus.duplicate_id h = cc
success_of LayoutStatus.not_found h = cc
success_of LayoutStatus.role_mismatch h = cc
success_of invalid_graph h = cc
success_of stale_transaction h = cc

-- What a proposal says of its transaction.
record IsProposal (m : LayoutModel) (asked : Mutation) (t : Transaction) : Type 0 where
  pub revision : t.source_revision ≡ m.revision
  pub mutation : t.mutation ≡ asked
  pub applied : apply_mutation m.state asked ≡ (t.proposed, success)
  pub valid : validate t.proposed ≡ success

proposal_status-success :
    (applied : Snapshot × LayoutStatus)
    → is_success (proposal_status applied) ≡ true
    → (applied.1 ≡ success) × (validate applied.0 ≡ success)
unfolding proposal_status
proposal_status-success (s, success) h = (refl, success_of (validate s) h)
proposal_status-success (s, LayoutStatus.invalid_argument) h = cc
proposal_status-success (s, LayoutStatus.duplicate_id) h = cc
proposal_status-success (s, LayoutStatus.not_found) h = cc
proposal_status-success (s, LayoutStatus.role_mismatch) h = cc
proposal_status-success (s, invalid_graph) h = cc
proposal_status-success (s, stale_transaction) h = cc

propose-IsProposal :
    (m : LayoutModel) (mutation : Mutation) {t : Transaction}
    → (propose m mutation).0 ≡ some t
    → IsProposal m mutation t
unfolding propose
propose-IsProposal m mutation {t = t} e =
    let applied : Snapshot × LayoutStatus = apply_mutation m.state mutation in
    elim (Bool-cases (is_success (proposal_status applied))) [
      | inl good ↦
          let (done, valid) = proposal_status-success applied good in
          record {
            revision = ground (arith, good);
            mutation = ground (arith, good);
            applied = ground (arith, good, done);
            valid = ground (arith, good, valid);
          }
      | inr bad ↦ absurd (ground (arith, bad))
    ]

-- A transaction that `Propose` makes commits on the model that made it: the model then holds the
-- proposed layout under the next revision, and the result names its active panel. A mutation that
-- closes takes its panel off the list and gives up its being active; any other keeps the list and
-- makes its panel active. The groups and auto-hide entries show every panel exactly once.
pub commit-propose :
    (m : LayoutModel) (mutation : Mutation) {t : Transaction}
    → (propose m mutation).0 ≡ some t
    → (commit m t ≡ (
      record { state = t.proposed; revision = next_u64 m.revision },
      record { status = success; active = t.proposed.active_panel },
    ))
      × Outcome m.state mutation.panel mutation.kind t.proposed
      × Perm (shown_panels t.proposed) (map panel_id t.proposed.panels)
unfolding commit
commit-propose m mutation {t = t} e =
    let p = propose-IsProposal m mutation {t = t} e in
    (
      ground (arith, p.revision, p.valid, ==_refl m.revision),
      apply_mutation-Outcome m.state mutation p.applied,
      validate-once t.proposed p.valid,
    )

next_u64-moves : (r : ℕ) → next_u64 r ≢ r
next_u64-moves r = λ e. absurd (omega arith)

-- A transaction that was committed is stale from then on: a second commit changes nothing.
pub commit-commit :
    (m : LayoutModel) (t : Transaction)
    → (commit m t).1.status ≡ success
    → commit (commit m t).0 t ≡ refuse (commit m t).0 stale_transaction
unfolding commit
commit-commit m t h = ground (arith, next_u64-moves m.revision)
