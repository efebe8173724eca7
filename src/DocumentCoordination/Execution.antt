-- ===== src/DocumentCoordination/Execution.antt =====
-- What the execution of a plan of src/document_coordination.cpp does to the workspace.
use mwfl.Prelude.{
  ℕ, ◌≡◌, refl, sym, ap, subst, ◌≢◌, inl, inr, true, false, none, some, List, [], ◌∷◌, arith,
  Bool-cases, is_nil,
}
use mwfl.DocumentWorkspace.{PathApi, Document, Workspace, document_id, is_success}
use mwfl.Prelude.Keyed.{keys}
use mwfl.DocumentWorkspace.Closing.{close_many}
use mwfl.DocumentWorkspace.Invariant.{IsValid}
use mwfl.DocumentWorkspace.CloseAll.{close_many_all}
use mwfl.DocumentCoordination.{
  Decision, ready, success, ClosePlan, build_plan, result, commit, Handler, run_saves, execute,
}
use mwfl.DocumentCoordination.Plan.{build_plan_lem}

close_many_refused :
    (w : Workspace) (ids : List ℕ)
    → is_success (close_many w ids).1.status ≡ false
    → (close_many w ids).0 ≡ w
unfolding close_many
close_many_refused w ids e = ground arith

-- A commit that does not report success leaves the workspace as it was.
pub commit_refused :
    (w : Workspace) (plan : ClosePlan) → (commit w plan).1.status ≢ success → (commit w plan).0 ≡ w
unfolding commit
commit_refused w plan n = ground (arith, close_many_refused w plan.close_documents)

is_nil-keys : (ds : List Document) → is_nil (keys document_id ds) ≡ is_nil ds
is_nil-keys [] = refl
is_nil-keys (d ∷ ds) = refl

eq-nil : {A : Type 0} (xs : List A) → is_nil xs ≡ true → xs ≡ []
eq-nil [] e = refl
eq-nil (x ∷ xs) e = cc

ne-nil : {A : Type 0} (xs : List A) → is_nil xs ≡ false → xs ≢ []
ne-nil [] e h = cc
ne-nil (x ∷ xs) e h = cc

module _ ⦃os : PathApi⦄ where
  -- A plan for all documents of a workspace, at its revision.
  commit_documents :
      (w : Workspace) (plan : ClosePlan)
      → IsValid w
      → plan.status ≡ ready
      → w.revision ≡ plan.workspace_revision
      → plan.close_documents ≡ keys document_id w.documents
      → ((commit w plan).1 ≡ result success none) × ((commit w plan).0.documents ≡ [])
  unfolding commit
  commit_documents w plan v e same closes = elim (Bool-cases (is_nil w.documents)) [
    | inl empty ↦
        ground (arith, eq-nil w.documents empty, ap is_nil closes, is_nil-keys w.documents)
    | inr some_open ↦
        let (fine, gone, _) = close_many_all w v (ne-nil w.documents some_open) in
        ground
          (arith, fine, gone, ap is_nil closes, is_nil-keys w.documents, ap (close_many w) closes)
  ]

  -- A commit of a ready plan on the valid workspace for which it was made succeeds and closes every
  -- document.
  pub commit-build_plan :
      (w : Workspace) (decisions : List Decision)
      → IsValid w
      → (build_plan w decisions).status ≡ ready
      → ((commit w (build_plan w decisions)).1 ≡ result success none)
        × ((commit w (build_plan w decisions)).0.documents ≡ [])
  commit-build_plan w decisions v e =
      let (_, same, lists) = build_plan_lem w decisions in
      let (closes, saves) = lists e in
      commit_documents w (build_plan w decisions) v e (sym same) closes

module _ (h : Handler) where
  -- The handler leaves the documents of the workspace alone.
  abbrev pub KeepsDocuments : Type 0
  KeepsDocuments = (id : ℕ) (w : Workspace) → (h id w).0.documents ≡ w.documents

  documents-run_saves :
      KeepsDocuments
      → (revision : ℕ) (ids : List ℕ) (w : Workspace)
      → (run_saves h revision ids w).0.documents ≡ w.documents
  unfolding run_saves
  documents-run_saves keeps revision [] w = refl
  documents-run_saves keeps revision (id ∷ ids) w =
      ground (arith, keeps id w, documents-run_saves keeps revision ids (h id w).0)

  -- With a handler that leaves the documents alone, an execution that does not report success
  -- closes nothing.
  pub execute_refused :
      KeepsDocuments
      → (w : Workspace) (plan : ClosePlan) → (execute w plan (some h)).1.status ≢ success
      → (execute w plan (some h)).0.documents ≡ w.documents
  unfolding execute
  execute_refused keeps w plan n = ground (
    arith,
    commit_refused (run_saves h plan.workspace_revision plan.save_before_close w).0 plan,
    documents-run_saves keeps plan.workspace_revision plan.save_before_close w,
  )

  -- The saves of a handler that always reports success and changes nothing.
  run_saves_quiet :
      ((id : ℕ) (w : Workspace) → h id w ≡ (w, some true))
      → (ids : List ℕ) (w : Workspace) → run_saves h w.revision ids w ≡ (w, none)
  unfolding run_saves
  run_saves_quiet quiet [] w = refl
  run_saves_quiet quiet (id ∷ ids) w = ground (arith, quiet id w, run_saves_quiet quiet ids w)

  -- The execution of a ready plan on the valid workspace for which it was made, with a handler that
  -- saves every document and does not touch the workspace, succeeds and closes every document.
  pub execute-build_plan :
      ⦃os : PathApi⦄
      → ((id : ℕ) (w : Workspace) → h id w ≡ (w, some true))
      → (w : Workspace) (decisions : List Decision) → IsValid w
      → (build_plan w decisions).status ≡ ready
      → ((execute w (build_plan w decisions) (some h)).1 ≡ result success none)
        × ((execute w (build_plan w decisions) (some h)).0.documents ≡ [])
  unfolding execute
  execute-build_plan quiet w decisions v e =
      let plan = build_plan w decisions in
      let (_, same, lists) = build_plan_lem w decisions in
      let (closes, saves) = lists e in
      let (fine, gone) = commit-build_plan w decisions v e in
      let saved =
        subst (λ r. run_saves h r plan.save_before_close w ≡ (w, none)) (sym same)
          (run_saves_quiet quiet plan.save_before_close w) in
      elim (Bool-cases (is_nil w.documents)) [
        | inl empty ↦
            ground
              (arith, e, same, eq-nil w.documents empty, ap is_nil closes, is_nil-keys w.documents)
        | inr some_open ↦
            ground (arith, e, same, saved, fine, gone, ap is_nil closes, is_nil-keys w.documents)
      ]
