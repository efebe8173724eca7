-- ===== src/DocumentSession/Restore/Closed.antt =====
-- What a restore of src/document_session.cpp does with the recently closed documents that it has
-- collected.
use mathlib.Core.List.{append_assoc, append-nil}
use mwfl.Prelude.{
  All, ℕ, zero, suc, ◌+◌, ◌≡◌, refl, sym, ap, ◌∙◌, ◌⊎◌, inl, inr, true, false, not, ◌||◌, ◌&&◌,
  List, [], ◌∷◌, ◌++◌, map, arith, Bool-cases, Either-cases, is_nil, length, length-append, take,
  ltb, is_some, if◌then◌else◌,
}
use mwfl.DocumentWorkspace.{
  PathApi, Status, Document, Workspace, Result, is_success, find_document, contains_path,
  is_valid_document,
}
use mwfl.DocumentWorkspace.Recent.{restore, clashes, restore_recently_closed}
use mwfl.DocumentSession.{SessionDocument}
use mwfl.DocumentSession.Restore.Verdict.{Dropped}
use mwfl.DocumentSession.Restore.{
  Callbacks, rejected, RestoreResult, Run, add_issue, reject_all, recent_restored, restore_recent,
}
use mwfl.DocumentSession.Restore.Divided.{key_of, keys_of, Notes, add_issue-keys}
use mwfl.DocumentSession.Restore.Gathered.{Notes-trans}

take-nil : {A : Type 0} (n : ℕ) → take {A = A} n [] ≡ []
take-nil zero = refl
take-nil (suc n) = refl

module _ ⦃os : PathApi⦄ where
  -- The list that the model keeps of recently closed documents.
  restore_lem :
      (w : Workspace) (ds acc : List Document) (room : ℕ) (r : List Document)
      → length acc + room ≡ w.maximum_recently_closed
      → restore w acc ds ≡ inr r
      → r ≡ acc ++ take room ds
  unfolding restore
  restore_lem w [] acc room r e h =
      ground (arith, h) ∙ sym (ap (λ l. acc ++ l) (take-nil room) ∙ append-nil acc)
  restore_lem w (d ∷ ds) acc zero r e h = restore_lem w ds acc zero r e (ground (arith, h))
  restore_lem w (d ∷ ds) acc (suc room) r e h =
      restore_lem w ds (acc ++ d ∷ []) room r (omega (arith, e, length-append acc (d ∷ [])))
        (ground (arith, h))
      ∙ append_assoc acc (d ∷ []) (take room ds)

  restore_failed :
      (w : Workspace) (ds acc : List Document) {status : Status}
      → restore w acc ds ≡ inl status
      → is_success status ≡ false
  unfolding restore
  restore_failed w [] acc h = cc
  restore_failed w (d ∷ ds) acc h =
      elim (Bool-cases (not (is_valid_document d) || is_some (find_document w d.id))) [
        | inl bad ↦ ground (arith, h, bad)
        | inr fine ↦
            elim (Bool-cases ((not (is_nil d.path) && contains_path w d.path) || clashes d acc)) [
              | inl bad ↦ ground (arith, h, fine, bad)
              | inr free ↦
                  let next =
                    if ltb (length acc) w.maximum_recently_closed then acc ++ d ∷ [] else acc in
                  restore_failed w ds next (ground (arith, h, fine, free))
            ]
      ]

  -- The model takes the list, as far as it has room, or stays as it is.
  abbrev Remembers : Workspace → List Document → Workspace × Result → Type 0
  Remembers w ds (next, r) =
      ((is_success r.status ≡ true)
        × (next.documents ≡ w.documents)
        × (next.recently_closed ≡ take w.maximum_recently_closed ds))
      ⊎ ((is_success r.status ≡ false) × (next ≡ w))

  restore_recently_closed-Remembers :
      (w : Workspace) (ds : List Document) → Remembers w ds (restore_recently_closed w ds)
  unfolding restore_recently_closed
  restore_recently_closed-Remembers w ds = elim (Either-cases (restore w [] ds)) [
    | inl (status, e) ↦ rw (restore_recently_closed, e) (inr (restore_failed w ds [] e, refl))
    | inr (list, e) ↦
        rw (restore_recently_closed, e)
          (inl (refl, refl, restore_lem w ds [] w.maximum_recently_closed list (omega arith) e))
  ]

-- The end of a restore: some recently closed documents are taken, and others are reported.
pub record Closes (run next : Run) (reopened dropped : List SessionDocument) : Type 0 where
  pub documents : next.target.documents ≡ run.target.documents
  pub recents :
      next.target.recently_closed
      ≡ take run.target.maximum_recently_closed (map (λ d. d.metadata) reopened)
  pub keys : keys_of next ≡ keys_of run ++ map (key_of true) dropped
  pub opened_stays : next.result.restored_documents ≡ run.result.restored_documents
  pub counted : next.result.restored_recently_closed ≡ length reopened

reject_all-Notes :
    (items : List SessionDocument) (w : Workspace) (r : RestoreResult)
    → Notes
        (record { target = w; result = r })
        (record { target = w; result = reject_all items r })
        (map (key_of true) items)
unfolding reject_all
reject_all-Notes [] w r = record {
  target_stays = refl;
  keys_grow = sym (append-nil _);
  opened_stays = refl;
  recent_stays = refl;
}
reject_all-Notes (item ∷ items) w r =
    let here : Notes (record { target = w; result = r })
        (record { target = w; result = add_issue item rejected true r }) (key_of true item ∷ []) =
      record {
        target_stays = refl;
        keys_grow = add_issue-keys item rejected true r;
        opened_stays = unfold add_issue in refl;
        recent_stays = unfold add_issue in refl;
      } in
    Notes-trans here (reject_all-Notes items w (add_issue item rejected true r))

-- Nothing is recently closed at the start.
abbrev pub IsClear : Run → Type 0
IsClear run = (run.target.recently_closed ≡ []) × (run.result.restored_recently_closed ≡ 0)

all_dropped :
    (recent : List SessionDocument) {run next : Run}
    → IsClear run
    → Notes run next (map (key_of true) recent)
    → Closes run next [] recent
all_dropped recent (clear, zero_before) n = record {
  documents = ap (λ w. w.documents) n.target_stays;
  recents = ap (λ w. w.recently_closed) n.target_stays ∙ clear ∙ sym (take-nil _);
  keys = n.keys_grow;
  opened_stays = n.opened_stays;
  counted = n.recent_stays ∙ zero_before;
}

all_of : {A : Type 0} (P : A → Type 0) → ((a : A) → P a) → (xs : List A) → All P xs
all_of P k [] = tt
all_of P k (a ∷ xs) = (k a, all_of P k xs)

module _ ⦃os : PathApi⦄ (call : Callbacks) where
  -- All that were collected are taken back, or all are dropped.
  abbrev pub Ends : List SessionDocument → Run → Run → Type 0
  Ends recent run next =
      Closes run next recent [] ⊎ (Closes run next [] recent × All (Dropped call) recent)

  recent_restored-Ends :
      (recent : List SessionDocument) (run : Run)
      → IsClear run
      → (a : Workspace × Result)
      → a ≡ restore_recently_closed run.target (map (λ d. d.metadata) recent)
      → Remembers run.target (map (λ d. d.metadata) recent) a
      → Ends recent run (recent_restored recent run.result a)
  recent_restored-Ends recent run clear (w, r) e (inl (fine, docs, list)) = rw fine (
      inl (record {
        documents = docs;
        recents = list;
        keys = sym (append-nil _);
        opened_stays = refl;
        counted = refl;
      }))
  recent_restored-Ends recent run clear (w, r) e (inr (bad, same)) =
      let n = reject_all-Notes recent w run.result in
      let refuses = ap (λ a. is_success a.1.status) (sym e) ∙ bad in
      rw bad (
        inr (
          all_dropped recent clear (record {
            target_stays = same;
            keys_grow = n.keys_grow;
            opened_stays = n.opened_stays;
            recent_stays = n.recent_stays;
          }),
          all_of (Dropped call) (λ item. inr (run.target, map (λ d. d.metadata) recent, refuses))
              recent,
        ))

  pub restore_recent-Ends :
      (recent : List SessionDocument) (run : Run)
      → IsClear run
      → Ends recent run (restore_recent (recent, run))
  unfolding restore_recent
  restore_recent-Ends [] run clear = inr (
    all_dropped [] clear (record {
      target_stays = refl;
      keys_grow = sym (append-nil _);
      opened_stays = refl;
      recent_stays = refl;
    }),
    tt,
  )
  restore_recent-Ends (item ∷ recent) run clear =
      let ds = map (λ d. d.metadata) (item ∷ recent) in
      recent_restored-Ends (item ∷ recent) run clear (restore_recently_closed run.target ds) refl
        (restore_recently_closed-Remembers run.target ds)
