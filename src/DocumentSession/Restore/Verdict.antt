-- ===== src/DocumentSession/Restore/Verdict.antt =====
-- Which documents the callbacks of a restore of src/document_session.cpp accept.
use mwfl.Prelude.{
  if◌then◌else◌, ==_refl, ◌==◌, subst, ◌⊎◌, ◌≡◌, refl, sym, ap, ◌∙◌, inl, inr, Bool, true, false,
  Option, none, some, List,
}
use mwfl.DocumentWorkspace.{Workspace, Document, PathApi, add, is_success}
use mwfl.DocumentWorkspace.Recent.{restore_recently_closed}
use mwfl.DocumentSession.{SessionDocument}
use mwfl.DocumentSession.Restore.{
  restore, missing, changed, untrusted, rejected, Disposition, is_restore, Callbacks, Run, assess,
  after_handler, after_validator,
}
use mwfl.DocumentSession.Restore.Divided.{Keeps, after_validator-target}

-- The callbacks accept a document: it validates, and the restore handler, which is called for an
-- open document only, says yes.
abbrev pub Accepts : Callbacks → SessionDocument → Bool → Workspace → Type 0
Accepts call item closed w =
    ((call.validate item w).0 ≡ some restore)
    × ((closed ≡ true) ⊎ ((call.restore_document item w).0 ≡ some true))

abbrev pub Verdict : Callbacks → SessionDocument → Bool → Workspace → Bool → Type 0
Verdict call item closed w true = Accepts call item closed w
Verdict call item closed w false = ¬ Accepts call item closed w

module _ (call : Callbacks) (quiet : Keeps call) (item : SessionDocument) (w : Workspace) where
  handled :
      (o : Option Bool × Workspace)
      → (call.validate item w).0 ≡ some restore
      → call.restore_document item w ≡ o
      → Verdict call item false w (is_restore (after_handler o).0)
  handled (none, v) valid e = λ (a, b). elim b [ inl c ↦ cc | inr c ↦ cc ]
  handled (some true, v) valid e = (valid, inr (ap (λ o. o.0) e))
  handled (some false, v) valid e = λ (a, b). elim b [ inl c ↦ cc | inr c ↦ cc ]

  decided :
      (closed : Bool) (o : Option Disposition × Workspace)
      → call.validate item w ≡ o
      → Verdict call item closed w (is_restore (after_validator call item closed o).0)
  decided closed (none, v) e = λ (a, b). cc
  decided true (some restore, v) e = (ap (λ o. o.0) e, inl refl)
  decided false (some restore, v) e =
      let same : v ≡ w = sym (ap (λ o. o.1) e) ∙ (quiet item w).0 in
      handled (call.restore_document item v) (ap (λ o. o.0) e)
        (ap (λ u. call.restore_document item u) (sym same))
  decided closed (some missing, v) e = λ (a, b). cc
  decided closed (some changed, v) e = λ (a, b). cc
  decided closed (some untrusted, v) e = λ (a, b). cc
  decided closed (some rejected, v) e = λ (a, b). cc

pub assess-Verdict :
    (call : Callbacks)
    → Keeps call
    → (item : SessionDocument) (closed : Bool) (run : Run)
    → Verdict call item closed run.target (assess call item closed run).0
unfolding assess
assess-Verdict call quiet item closed run =
    let w = run.target in
    let a = after_validator call item closed (call.validate item w) in
    let same : a.2 ≡ w =
      after_validator-target call quiet item closed (call.validate item w) ∙ (quiet item w).0 in
    subst (λ b. Verdict call item closed w (is_restore (if b then a.0 else rejected)))
      (sym (ap (λ v. v.revision == w.revision) same ∙ ==_refl w.revision))
      (decided call quiet item w closed (call.validate item w) refl)

-- A document that the callbacks accepted, one that they did not accept, and one that they or the
-- model refused, each at some state of the workspace.
abbrev pub Taken : Callbacks → Bool → SessionDocument → Type 0
Taken call closed item = (w : Workspace) × Accepts call item closed w

abbrev pub Declined : Callbacks → Bool → SessionDocument → Type 0
Declined call closed item = (w : Workspace) × ¬ Accepts call item closed w

abbrev pub Refused : ⦃os : PathApi⦄ → Callbacks → SessionDocument → Type 0
Refused call item =
    Declined call false item
    ⊎ ((w : Workspace) × (is_success (add w item.metadata none).1.status ≡ false))

abbrev pub Dropped : ⦃os : PathApi⦄ → Callbacks → SessionDocument → Type 0
Dropped call item =
    Declined call true item
    ⊎ ((w : Workspace) × (ds : List Document) × (is_success (restore_recently_closed w ds).1.status
          ≡ false))
