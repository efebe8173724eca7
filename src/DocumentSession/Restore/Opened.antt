-- ===== src/DocumentSession/Restore/Opened.antt =====
-- Which open documents a restore of src/document_session.cpp takes into the workspace.
use mathlib.Core.List.{append_assoc, append-nil, Perm, perm_middle}
use mathlib.Core.List.Perm
use mwfl.Prelude.{
  All, ◌+◌, ◌≡◌, refl, sym, ap, ◌∙◌, ◌⊎◌, inl, inr, Bool, true, false, none, List, [], ◌∷◌, ◌++◌,
  map, arith, Bool-cases, length, length-append, insert_at, is_some,
}
use mwfl.DocumentWorkspace.{
  PathApi, Document, Workspace, Result, add, is_success, insert_document, find_document,
  contains_path, is_valid_document,
}
use mwfl.DocumentSession.{SessionDocument}
use mwfl.DocumentSession.Restore.{
  rejected, Callbacks, Run, add_issue, assess, added, add_assessed, restore_documents,
}
use mwfl.DocumentSession.Restore.Verdict.{Verdict, Taken, Refused, assess-Verdict}
use mwfl.DocumentSession.Restore.Divided.{
  Keeps, key_of, keys_of, key_if, Notes, map-append, assess-Notes, add_issue-keys,
}

insert_at-end : (ds : List Document) (d : Document) → insert_at ds (length ds) d ≡ ds ++ d ∷ []
unfolding insert_at
insert_at-end [] d = refl
insert_at-end (x ∷ ds) d = ap (λ l. x ∷ l) (insert_at-end ds d)

-- A run takes some documents into the target and reports others.
pub record Moves (run next : Run) (opened refused : List SessionDocument) : Type 0 where
  pub documents : next.target.documents ≡ run.target.documents ++ map (λ d. d.metadata) opened
  pub recents : next.target.recently_closed ≡ run.target.recently_closed
  pub maximum : next.target.maximum_recently_closed ≡ run.target.maximum_recently_closed
  pub keys : keys_of next ≡ keys_of run ++ map (key_of false) refused
  pub counted : next.result.restored_documents ≡ length opened + run.result.restored_documents
  pub recent_stays : next.result.restored_recently_closed ≡ run.result.restored_recently_closed

pub append-map :
    {A B : Type 0} (f : A → B) (start mid end : List B) (xs ys : List A)
    → mid ≡ start ++ map f xs
    → end ≡ mid ++ map f ys
    → end ≡ start ++ map f (xs ++ ys)
append-map f start mid end xs ys e k =
    k
    ∙ ap (λ l. l ++ map f ys) e
    ∙ append_assoc start (map f xs) (map f ys)
    ∙ ap (λ l. start ++ l) (sym (map-append f xs ys))

pub Moves-trans :
    {a b c : Run} {o₁ r₁ o₂ r₂ : List SessionDocument}
    → Moves a b o₁ r₁
    → Moves b c o₂ r₂
    → Moves a c (o₁ ++ o₂) (r₁ ++ r₂)
Moves-trans {o₁ = o₁} {r₁ = r₁} {o₂ = o₂} {r₂ = r₂} m n = record {
  documents = append-map _ _ _ _ o₁ o₂ m.documents n.documents;
  recents = n.recents ∙ m.recents;
  maximum = n.maximum ∙ m.maximum;
  keys = append-map _ _ _ _ r₁ r₂ m.keys n.keys;
  counted = omega (arith, length-append o₁ o₂, m.counted, n.counted);
  recent_stays = n.recent_stays ∙ m.recent_stays;
}

-- A document that stands in the issues.
refused-Moves :
    (item : SessionDocument) {run next : Run}
    → Notes run next (key_of false item ∷ [])
    → Moves run next [] (item ∷ [])
refused-Moves item n = record {
  documents = ap (λ w. w.documents) n.target_stays ∙ sym (append-nil _);
  recents = ap (λ w. w.recently_closed) n.target_stays;
  maximum = ap (λ w. w.maximum_recently_closed) n.target_stays;
  keys = n.keys_grow;
  counted = omega (arith, n.opened_stays);
  recent_stays = n.recent_stays;
}

module _ ⦃os : PathApi⦄ where
  -- An addition puts the document at the end, or changes nothing.
  abbrev Adds : Workspace → Document → Workspace × Result → Type 0
  Adds w d (next, r) =
      ((is_success r.status ≡ true)
        × (next.documents ≡ w.documents ++ d ∷ [])
        × (next.recently_closed ≡ w.recently_closed)
        × (next.maximum_recently_closed ≡ w.maximum_recently_closed))
      ⊎ ((is_success r.status ≡ false) × (next ≡ w))

  add-Adds : (w : Workspace) (d : Document) → Adds w d (add w d none)
  unfolding add insert_document
  add-Adds w d = elim (Bool-cases (is_valid_document d)) [
    | inr bad ↦ rw bad (inr (refl, refl))
    | inl valid ↦ elim (Bool-cases (is_some (find_document w d.id))) [
      | inl twice ↦ rw (valid, twice) (inr (refl, refl))
      | inr new ↦ elim (Bool-cases (contains_path w d.path)) [
        | inl twice ↦ rw (valid, new, twice) (inr (refl, refl))
        | inr free ↦ rw (valid, new, free) (inl (refl, insert_at-end w.documents d, refl, refl))
      ]
    ]
  ]

  abbrev Steps : Callbacks → Run → Run → SessionDocument → Type 0
  Steps call run next item =
      (Taken call false item × Moves run next (item ∷ []) [])
      ⊎ (Refused call item × Moves run next [] (item ∷ []))

  added-Steps :
      (call : Callbacks) (item : SessionDocument) (run mid : Run)
      → Taken call false item
      → Notes run mid []
      → (a : Workspace × Result) → a ≡ add mid.target item.metadata none
      → Adds mid.target item.metadata a
      → Steps call run (added item mid.result a) item
  added-Steps call item run mid taken n (w, r) e (inl (fine, docs, recents, maximum)) = rw fine (
      inl (
        taken,
        record {
          documents = docs ∙ ap (λ v. v.documents ++ item.metadata ∷ []) n.target_stays;
          recents = recents ∙ ap (λ v. v.recently_closed) n.target_stays;
          maximum = maximum ∙ ap (λ v. v.maximum_recently_closed) n.target_stays;
          keys = n.keys_grow;
          counted = omega (arith, n.opened_stays);
          recent_stays = n.recent_stays;
        },
      ))
  added-Steps call item run mid taken n (w, r) e (inr (bad, same)) =
      let refuses = ap (λ a. is_success a.1.status) (sym e) ∙ bad in
      rw bad (
        inr (
          inr (mid.target, refuses),
          refused-Moves item (record {
            target_stays = same ∙ n.target_stays;
            keys_grow =
                add_issue-keys item rejected false mid.result
                ∙ ap (λ l. l ++ key_of false item ∷ []) (n.keys_grow ∙ append-nil _);
            opened_stays = unfold add_issue in n.opened_stays;
            recent_stays = unfold add_issue in n.recent_stays;
          }),
        ))

  add_assessed-Steps :
      (call : Callbacks) (item : SessionDocument) (run : Run) (a : Bool × Run)
      → Verdict call item false run.target a.0
      → Notes run a.1 (key_if a.0 false item)
      → Steps call run (add_assessed item a) item
  add_assessed-Steps call item run (true, mid) v n =
      added-Steps call item run mid (run.target, v) n (add mid.target item.metadata none) refl
        (add-Adds mid.target item.metadata)
  add_assessed-Steps call item run (false, mid) v n =
      inr (inl (run.target, v), refused-Moves item n)

  abbrev pub Opens : Callbacks → Run → Run → List SessionDocument → Type 0
  Opens call run next items =
      (opened : List SessionDocument) × (refused : List SessionDocument) × Perm items
        (opened ++ refused)
      × Moves run next opened refused
      × All (Taken call false) opened
      × All (Refused call) refused

  Opens-cons :
      (call : Callbacks) {run mid next : Run} (item : SessionDocument)
      (items : List SessionDocument)
      → Steps call run mid item
      → Opens call mid next items
      → Opens call run next (item ∷ items)
  Opens-cons call item items (inl (taken, m)) (o, r, p, n, takes, leaves) =
      (item ∷ o, r, Perm.cons item p, Moves-trans m n, (taken, takes), leaves)
  Opens-cons call item items (inr (refused, m)) (o, r, p, n, takes, leaves) = (
    o,
    item ∷ r,
    Perm.trans (Perm.cons item p) (Perm.symm (perm_middle o r)),
    Moves-trans m n,
    takes,
    (refused, leaves),
  )

  pub restore_documents-Opens :
      (call : Callbacks)
      → Keeps call
      → (items : List SessionDocument) (run : Run)
      → Opens call run (restore_documents call items run) items
  unfolding restore_documents
  restore_documents-Opens call quiet [] run = (
    [],
    [],
    Perm.nil,
    record {
      documents = sym (append-nil _);
      recents = refl;
      maximum = refl;
      keys = sym (append-nil _);
      counted = omega arith;
      recent_stays = refl;
    },
    tt,
    tt,
  )
  restore_documents-Opens call quiet (item ∷ items) run =
      let a = assess call item false run in
      Opens-cons call item items
        (add_assessed-Steps call item run a (assess-Verdict call quiet item false run)
          (assess-Notes call quiet item false run))
        (restore_documents-Opens call quiet items (add_assessed item a))
