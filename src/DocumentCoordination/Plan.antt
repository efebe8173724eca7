-- ===== src/DocumentCoordination/Plan.antt =====
-- What a plan of src/document_coordination.cpp says when it is ready.
use mathlib.Core.List.{append_assoc, append-nil}
use mwfl.Prelude.{
  ℕ, ◌≡◌, refl, sym, ap, ◌∙◌, ◌≢◌, ◌↔◌, ◌⊎◌, inl, inr, Bool, true, false, not, ◌&&◌, Option, none,
  some, List, [], ◌∷◌, ◌++◌, arith, ◌==◌, Bool-cases, Option-cases, find, any, erase_if, All,
}
use mwfl.DocumentWorkspace.{Document, Workspace, document_id}
use mwfl.Prelude.Keyed.{keys}
use mwfl.DocumentCoordination.{
  Choice, save, discard, cancel, Decision, CloseStatus, ready, incomplete_decisions, cancelled,
  ClosePlan, document_of, is_dirty, valid_decisions, visit_one, visit, fresh_plan, build_plan,
}

abbrev pub decision_for : List Decision → Document → Option Decision
decision_for decisions d = find (λ e. e.document == d.id) decisions

abbrev is_save : Choice → Bool
is_save save = true
is_save c = false

abbrev wants_save : Option Decision → Bool
wants_save none = false
wants_save (some e) = is_save e.choice

-- The IDs of the dirty documents that are to be saved, in the order of the workspace.
unfoldable pub to_save : List Decision → List Document → List ℕ
to_save decisions ds =
    keys document_id (erase_if (λ d. not (d.dirty && wants_save (decision_for decisions d))) ds)

-- A dirty document has a decision, and it is not to cancel.
abbrev pub IsSettled : List Decision → Document → Type 0
IsSettled decisions d =
    d.dirty ≡ true → (e : Decision) × (decision_for decisions d ≡ some e) × (e.choice ≢ cancel)

Choice-cases : (c : Choice) → (c ≡ save) ⊎ (c ≡ discard) ⊎ (c ≡ cancel)
Choice-cases save = inl refl
Choice-cases discard = inr (inl refl)
Choice-cases cancel = inr (inr refl)

-- What one document does to the loop.
abbrev Stops : List Decision → Document → Type 0
Stops decisions d =
    (s : CloseStatus) × (visit_one decisions d ≡ inl s) × (s ≢ ready) × ¬ IsSettled decisions d

abbrev Passes : List Decision → Document → Type 0
Passes decisions d =
    (ids : List ℕ) × (visit_one decisions d ≡ inr ids)
    × IsSettled decisions d
    × ((ds : List Document) → to_save decisions (d ∷ ds) ≡ ids ++ to_save decisions ds)

decided-cases :
    (decisions : List Decision) (d : Document) (e : Decision)
    → d.dirty ≡ true
    → decision_for decisions d ≡ some e
    → Stops decisions d ⊎ Passes decisions d
unfolding visit_one to_save erase_if
decided-cases decisions d e dirty at = elim (Choice-cases e.choice) [
  | inl c ↦ inr (
    d.id ∷ [],
    rw (dirty, at, c) refl,
    λ _. (e, at, λ bad. cc),
    λ ds. ground (arith, at, c, dirty),
  )
  | inr rest ↦ elim rest [
    | inl c ↦
        inr
          ([], rw (dirty, at, c) refl, λ _. (e, at, λ bad. cc), λ ds. ground (arith, at, c, dirty))
    | inr c ↦ inl (
      cancelled,
      rw (dirty, at, c) refl,
      λ bad. cc,
      λ settled. let (f, same, kept) = settled dirty in kept (ground (arith, c, at, same)),
    )
  ]
]

visit_one-cases :
    (decisions : List Decision) (d : Document) → Stops decisions d ⊎ Passes decisions d
unfolding visit_one to_save erase_if
visit_one-cases decisions d = elim (Bool-cases d.dirty) [
  | inr clean ↦ inr ([], rw clean refl, λ dirty. cc, λ ds. ground (arith, clean))
  | inl dirty ↦ elim (Option-cases (decision_for decisions d)) [
    | inl miss ↦ inl (
      incomplete_decisions,
      rw (dirty, miss) refl,
      λ bad. cc,
      λ settled. let (e, hit, _) = settled dirty in cc,
    )
    | inr (e, at) ↦ decided-cases decisions d e dirty at
  ]
]

-- What the loop over the documents leaves.
abbrev Visited : List Decision → List Document → ClosePlan → ClosePlan → Type 0
Visited decisions ds start plan =
    (plan.workspace_revision ≡ start.workspace_revision)
    × ((plan.status ≡ ready) ↔ All (IsSettled decisions) ds)
    × (plan.status ≡ ready
        → (plan.close_documents ≡ start.close_documents ++ keys document_id ds)
          × (plan.save_before_close ≡ start.save_before_close ++ to_save decisions ds))

visit-Visited :
    (decisions : List Decision) (ds : List Document) (plan : ClosePlan)
    → Visited decisions ds plan (visit decisions ds plan)
unfolding visit
visit-Visited decisions [] plan = (
  refl,
  (λ _. tt, λ _. refl),
  λ _. (sym (append-nil _), unfold to_save erase_if in sym (append-nil _)),
)
visit-Visited decisions (d ∷ ds) plan = elim (visit_one-cases decisions d) [
  | inl (s, stop, bad, open_still) ↦
      rw (stop, visit)
        (refl, (λ e. absurd (bad e), λ all. absurd (open_still all.0)), λ e. absurd (bad e))
  | inr (ids, pass, settled, saves) ↦
      let next : ClosePlan = record plan {
        save_before_close = plan.save_before_close ++ ids;
        close_documents = plan.close_documents ++ d.id ∷ [];
      } in
      let (same, (to, from), lists) = visit-Visited decisions ds next in
      rw (pass, visit)
        (
          same,
          (λ e. (settled, to e), λ all. from all.1),
          λ e.
              let (closes, kept) = lists e in
              (
                closes ∙ append_assoc plan.close_documents (d.id ∷ []) (keys document_id ds),
                kept
                    ∙ append_assoc plan.save_before_close ids (to_save decisions ds)
                    ∙ ap (λ l. plan.save_before_close ++ l) (sym (saves ds)),
              ),
        )
]

-- A decision names a dirty document of the workspace.
abbrev pub IsDirtyDecision : Workspace → Decision → Type 0
IsDirtyDecision w e =
    (e.document ≢ 0) × ((d : Document) × (document_of w e.document ≡ some d) × (d.dirty ≡ true))

-- No two decisions name the same document.
abbrev pub AreDistinct : List Decision → Type 0
AreDistinct [] = Unit
AreDistinct (e ∷ es) = All (λ other. e.document ≢ other.document) es × AreDistinct es

dirty-cases :
    (o : Option Document) → (is_dirty o ≡ true) ↔ ((d : Document) × (o ≡ some d) × (d.dirty ≡ true))
dirty-cases none = (λ e. cc, λ (d, at, e). cc)
dirty-cases (some d) = (λ e. (d, refl, e), λ (k, at, e). ground (arith, at, e))

all_others :
    (id : ℕ) (es : List Decision)
    → (any (λ other. id == other.document) es ≡ false) ↔ All (λ other. id ≢ other.document) es
unfolding any
all_others id [] = (λ e. tt, λ h. refl)
all_others id (e ∷ es) = (
  λ h. (ground arith, (all_others id es).0 (ground arith)),
  λ (apart, rest). ground (arith, apart, (all_others id es).1 rest),
)

valid_decisions_lem :
    (w : Workspace) (decisions : List Decision)
    → (valid_decisions w decisions ≡ true)
      ↔ (All (IsDirtyDecision w) decisions × AreDistinct decisions)
unfolding valid_decisions
valid_decisions_lem w [] = (λ e. (tt, tt), λ h. refl)
valid_decisions_lem w (e ∷ es) = (
  λ h.
      let rest = (valid_decisions_lem w es).0 (ground arith) in
      (
        ((ground arith, (dirty-cases (document_of w e.document)).0 (ground arith)), rest.0),
        ((all_others e.document es).0 (ground arith), rest.1),
      ),
  λ (((named, dirty), dirties), (apart, others)). ground (
    arith,
    named,
    (dirty-cases (document_of w e.document)).1 dirty,
    (all_others e.document es).1 apart,
    (valid_decisions_lem w es).1 (dirties, others),
  ),
)

-- A plan is ready exactly where each decision names a dirty document of the workspace, no two name
-- the same one, and every dirty document has a decision that is not to cancel. A ready plan closes
-- all documents in their order, saves before that exactly the dirty ones whose decision is to save,
-- and is for the revision at which it was made.
pub build_plan_lem :
    (w : Workspace) (decisions : List Decision)
    → (((build_plan w decisions).status ≡ ready) ↔ (
        All (IsDirtyDecision w) decisions
        × AreDistinct decisions
        × All (IsSettled decisions) w.documents))
      × ((build_plan w decisions).workspace_revision ≡ w.revision)
      × ((build_plan w decisions).status ≡ ready
          → ((build_plan w decisions).close_documents ≡ keys document_id w.documents)
            × ((build_plan w decisions).save_before_close ≡ to_save decisions w.documents))
unfolding build_plan
build_plan_lem w decisions = elim (Bool-cases (valid_decisions w decisions)) [
  | inr bad ↦ rw bad (
    (
      λ e. cc,
      λ (dirty, apart, all).
          absurd (ground (arith, bad, (valid_decisions_lem w decisions).1 (dirty, apart))),
    ),
    refl,
    λ e. cc,
  )
  | inl fine ↦
      let (same, (to, from), lists) = visit-Visited decisions w.documents (fresh_plan w) in
      let (dirty, apart) = (valid_decisions_lem w decisions).0 fine in
      rw fine ((λ e. (dirty, apart, to e), λ (dirty, apart, all). from all), same, lists)
]
