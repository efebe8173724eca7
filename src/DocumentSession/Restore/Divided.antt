-- ===== src/DocumentSession/Restore/Divided.antt =====
-- What an assessment of src/document_session.cpp leaves as it is, and which issues it adds.
use mathlib.Core.List.{append-nil}
use mwfl.Prelude.{
  ℕ, ◌≡◌, refl, sym, ap, ◌∙◌, inl, inr, Bool, true, false, not, ◌&&◌, Option, none, some, List, [],
  ◌∷◌, ◌++◌, map, Bool-cases,
}
use mwfl.DocumentWorkspace.{Workspace}
use mwfl.DocumentSession.{SessionDocument, session_id}
use mwfl.DocumentSession.Restore.{
  Disposition, is_restore, Issue, RestoreResult, Callbacks, Run, add_issue, judged, recorded,
  assess, after_handler, after_validator,
}

-- The callbacks leave the target as it is.
abbrev pub Keeps : Callbacks → Type 0
Keeps call =
    (item : SessionDocument) (w : Workspace)
    → ((call.validate item w).1 ≡ w) × ((call.restore_document item w).1 ≡ w)

abbrev pub issue_key : Issue → ℕ × Bool
issue_key i = (i.id, i.recently_closed)

abbrev pub key_of : Bool → SessionDocument → ℕ × Bool
key_of closed item = (session_id item, closed)

abbrev pub keys_of : Run → List (ℕ × Bool)
keys_of run = map issue_key run.result.issues

pub map-append :
    {A B : Type 0} (f : A → B) (xs ys : List A) → map f (xs ++ ys) ≡ map f xs ++ map f ys
map-append f [] ys = refl
map-append f (x ∷ xs) ys = ap (λ l. f x ∷ l) (map-append f xs ys)

-- A step that leaves the target and the counts, and adds some issues.
pub record Notes (run next : Run) (more : List (ℕ × Bool)) : Type 0 where
  pub target_stays : next.target ≡ run.target
  pub keys_grow : keys_of next ≡ keys_of run ++ more
  pub opened_stays : next.result.restored_documents ≡ run.result.restored_documents
  pub recent_stays : next.result.restored_recently_closed ≡ run.result.restored_recently_closed

after_handler-target : (o : Option Bool × Workspace) → (after_handler o).2 ≡ o.1
after_handler-target (none, w) = refl
after_handler-target (some true, w) = refl
after_handler-target (some false, w) = refl

module _ (call : Callbacks) (quiet : Keeps call) where
  pub after_validator-target :
      (item : SessionDocument) (closed : Bool) (o : Option Disposition × Workspace)
      → (after_validator call item closed o).2 ≡ o.1
  after_validator-target item closed (none, w) = refl
  after_validator-target item closed (some d, w) = elim (Bool-cases (is_restore d && not closed)) [
    | inl e ↦ rw e (after_handler-target (call.restore_document item w) ∙ (quiet item w).1)
    | inr e ↦ rw e refl
  ]

  judged-target :
      (item : SessionDocument) (closed : Bool) (w : Workspace) → (judged call item closed w).2 ≡ w
  judged-target item closed w =
      after_validator-target item closed (call.validate item w) ∙ (quiet item w).0

abbrev pub key_if : Bool → Bool → SessionDocument → List (ℕ × Bool)
key_if true closed item = []
key_if false closed item = key_of closed item ∷ []

pub add_issue-keys :
    (item : SessionDocument) (d : Disposition) (closed : Bool) (r : RestoreResult)
    → map issue_key (add_issue item d closed r).issues
      ≡ map issue_key r.issues ++ (key_of closed item ∷ [])
unfolding add_issue
add_issue-keys item d closed r = map-append issue_key r.issues _

recorded-Notes :
    (item : SessionDocument) (closed : Bool) (run : Run) (j : Disposition × Bool × Workspace)
    → j.2 ≡ run.target
    → Notes run
        (recorded item closed run.result j).1
        (key_if (recorded item closed run.result j).0 closed item)
recorded-Notes item closed run (d, threw, w) e = elim (Bool-cases (is_restore d)) [
  | inl k ↦ rw k (record {
    target_stays = e;
    keys_grow = sym (append-nil _);
    opened_stays = refl;
    recent_stays = refl;
  })
  | inr k ↦ rw k (record {
    target_stays = e;
    keys_grow = add_issue-keys item d closed _;
    opened_stays = unfold add_issue in refl;
    recent_stays = unfold add_issue in refl;
  })
]

pub assess-Notes :
    (call : Callbacks)
    → Keeps call
    → (item : SessionDocument) (closed : Bool) (run : Run)
    → Notes run (assess call item closed run).1 (key_if (assess call item closed run).0 closed item)
unfolding assess
assess-Notes call quiet item closed run =
    recorded-Notes item closed run (judged call item closed run.target)
      (judged-target call quiet item closed run.target)
